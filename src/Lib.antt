-- ===== src/Lib.antt =====
-- Verification library of sigchat, a Signal client for Xous.
--
-- The program keeps everything it knows in the PDDB, a database of named dictionaries. Linking
-- (src/manager.rs) opens a websocket that a worker thread holds (src/manager/ws_server.rs), shows its
-- address as a code to scan, decrypts the provision message that comes back
-- (src/manager/libsignal.rs), makes account attributes, pre-keys and the encrypted device name
-- (src/manager/account_attrs.rs, src/manager/prekeys.rs), sends them to the server
-- (src/manager/rest.rs), and writes an account (src/account.rs) and keys (src/manager/stores.rs). Every
-- websocket is opened by src/manager/signal_ws.rs. From then on the receive worker
-- (src/manager/main_ws.rs) holds the message websocket: it connects again and again, sends keepalives,
-- acknowledges each request, opens its envelope with libsignal over the stores, and hands the text to
-- the chat window; the sender becomes the recipient of replies. src/manager/outgoing.rs pads and
-- encrypts what the user writes to that recipient. src/lib.rs is what the user's commands call, from the
-- process of src/main.rs.
--
-- Files:
--   Base, Text, Io    shared types, chains over results and states, Rust's strings over their bytes
--   Pddb, Signal      the database and libsignal's records as interfaces with their documented laws
--   Stores            src/manager/stores.rs: get_*, save_*, remove_*, mark_*, load_*, store_*, and
--                     trust on first use; Replay sets the pre-key store beside a finite map, Own
--                     reads the own identity
--   Outgoing          src/manager/outgoing.rs: signal_pad, the persisted peer, the message pipeline
--   MainWs            src/manager/main_ws.rs: Deliver (deliver_*), Envelope (dispatch_envelope),
--                     Request (handle_request, send_ack), Session (run_session), Backoff
--                     (the doubling in worker_loop), Reconnect (worker_loop), Worker (spawn, join)
--   WsServer          src/manager/ws_server.rs: Buffer (fill_buf, the reading of a page), Worker
--                     (worker_loop, its thread and its loop), Server (spawn, wait_and_take_binary, cancel)
--   SignalWs          src/manager/signal_ws.rs: new_message, new_provision, new_register, connect,
--                     read_once, close
--   Account           src/account.rs: get and set, the struct and its set, new, read and delete; Link
--                     (link), with the request that it sends in Link/Asked and what it
--                     leaves in the identity store in Link/Known
--   AccountAttrs      src/manager/account_attrs.rs: generate_account_attrs
--   PreKeys           src/manager/prekeys.rs: Generate (generate_*), Save (save_to_pddb), Elsewhere
--                     (what it leaves as it was), and generate_registration_id of
--                     src/manager/account_attrs.rs
--   Provision         src/manager/libsignal.rs: Types, Ctr (aes256_ctr_encrypt), Cipher
--                     (ProvisioningCipher and ProvisionMessage), DeviceNameUtil; Primary and Name are
--                     the other side, the device that seals the message and reads the name
--   Rest              src/manager/rest.rs: put_devices_link and the parsing of its response, Redact
--                     (redact_verification_code), Requests (the requests that are sent)
--   Manager           src/manager.rs: new and link, with src/manager/link_state.rs; Config is
--                     src/manager/config.rs and Settings src/manager/group_permission.rs and
--                     trust_mode.rs; Receive is start_receive over the receive worker
--   Shell             src/lib.rs: new, connect, the wifi loop, the name dialog and the commands; Post
--                     (post, start_receive)
--   App               src/main.rs and src/api.rs: the set-up, the opcode loop and the end; Worker, Posts
--                     and Offline follow a whole run
--   Trng              src/getrandom_xous.rs
--   Examples          instances of the interfaces and the theorems at concrete inputs
--
-- How the code is read. A function that changes the database, the websocket or the chat window takes
-- the old state and returns its result with the new one, and what was written before an error stays
-- written. A log line is left out, and an error text keeps its fixed words only. Strings and buffers
-- are lists of bytes. A loop that waits on the outside world takes one input per turn: what the clock,
-- the kernel and the socket answered. A u32 or u64 is a native number below 2^32 or 2^64, an i32 is
-- its bit pattern, an i64 a sign and a magnitude; where the source wraps, so does the model.
--
-- Fuel. The padding loop runs on 160 rounds, which is one more than it can take. The printing of a
-- number runs on more fuel than the number. The loop of counter mode runs on the length of its text,
-- and each round takes sixteen bytes of it, or what is left; the filling of a random buffer runs on
-- the length of the buffer in the same way, and the trimming of a text on the length of the text. The
-- flushing behind a close runs on fuel, and is left by the first answer that is an error. The loop that
-- asks for wifi runs on the number of times that the user says yes, its waiting on ten seconds, and what
-- waits on a socket or a server on the list of what was answered. The process runs on the list of its
-- messages.
--
-- Interfaces. Pddb is a record of the calls that are made; PddbLaws holds what the PDDB documents of
-- them while it answers, and a theorem that needs it takes it as an argument. libsignal's decryption
-- and encryption, its certificates and addresses, the block and hash functions, prost's and base64's
-- encodings, the parsing of hosts and of JSON, the HTTP client, the dialogs and the kernel's servers
-- are records too. Of the cryptography it is assumed only where a message is read back that both sides
-- derive one secret and that lengths are as documented.
--
-- Not modelled: what src/lib.rs only forwards to the chat window, the operations of src/manager.rs that
-- are only todo!(), the dumps of bodies to files that hosted builds make, the test binary of the stores,
-- and imports/, which is other projects' code.
pub mod Account
pub mod AccountAttrs
pub mod App
pub mod Base
pub mod Examples
pub mod Io
pub mod MainWs
pub mod Manager
pub mod Outgoing
pub mod Pddb
pub mod PreKeys
pub mod Provision
pub mod Rest
pub mod Shell
pub mod Signal
pub mod SignalWs
pub mod Stores
pub mod Text
pub mod Trng
pub mod WsServer
