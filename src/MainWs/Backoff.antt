-- ===== src/MainWs/Backoff.antt =====
-- The backoff of `worker_loop` in src/manager/main_ws.rs.
use sigchat.Base.{ℕ, ◌*◌, min}

abbrev pub backoff_initial_ms : ℕ
backoff_initial_ms = 2000

abbrev pub backoff_max_ms : ℕ
backoff_max_ms = 64000

-- The backoff at a turn's end.
unfoldable pub next_backoff : ℕ → ℕ
next_backoff backoff_ms = min (backoff_ms * 2) backoff_max_ms
