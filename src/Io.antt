-- ===== src/Io.antt =====
-- `std::io::Error`, read as its kind.
use sigchat.Base.{Bool, true, false}

-- The kinds that the program names; `other` stands for every other kind.
pub data ErrorKind : Type 0 where
  not_found would_block timed_out permission_denied invalid_data invalid_input : ErrorKind
  connection_refused other : ErrorKind

-- `e.kind() == ErrorKind::NotFound`
abbrev pub is_not_found : ErrorKind → Bool
is_not_found ErrorKind.not_found = true
is_not_found _ = false
