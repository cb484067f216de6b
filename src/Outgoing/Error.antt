-- ===== src/Outgoing/Error.antt =====
-- `OutgoingError` of src/manager/outgoing.rs. A text carries its fixed words and not the cause that
-- is interpolated behind them; a cause that is a libsignal error is carried itself.
use sigchat.Base.{ℕ}
use sigchat.Text.{Bytes}
use sigchat.Signal.{SignalProtocolError}

pub data OutgoingError : Type 0 where
  pddb : Bytes → OutgoingError
  no_recipient : OutgoingError
  no_local_account : Bytes → OutgoingError
  session_load : SignalProtocolError → OutgoingError
  no_session : OutgoingError
  registration_id : SignalProtocolError → OutgoingError
  encrypt : SignalProtocolError → OutgoingError
  unsupported_ciphertext_type : ℕ → OutgoingError
  bad_device_id : ℕ → OutgoingError
