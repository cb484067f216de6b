-- ===== src/WsServer.antt =====
-- src/manager/ws_server.rs: the worker that holds the provisioning websocket while the QR code is
-- shown, and the buffer through which its result reaches the caller.
pub mod Buffer
pub mod Worker
pub mod Server
