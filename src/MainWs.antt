-- ===== src/MainWs.antt =====
-- src/manager/main_ws.rs: the receive worker. `Proto` has its messages and `World` the state that
-- they change; `Deliver`, `Envelope` and `Request` follow one message inwards out; `Session` is the
-- loop over one connection and `Backoff` the loop over connections.
pub mod Proto
pub mod World
pub mod Deliver
pub mod Envelope
pub mod Request
pub mod Session
pub mod Backoff
pub mod Reconnect
pub mod Worker
