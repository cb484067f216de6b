-- ===== src/MainWs/Session/Keepalive.antt =====
-- The keepalives of a session.
use sigchat.Base.{ℕ, ◌-◌, ◌≤◌, ◌<◌, ◌≡◌, [], ◌∷◌, arith, leb, if◌then◌else◌}
use sigchat.MainWs.World.{binary}
use sigchat.MainWs.Session.{
  Round, enter, app_keepalive, app_keepalive_ms, keepalive_ms, ws_keepalive, app_keepalive_step,
  keepalives,
}

-- The first round sends the app keepalive exactly where the clock, which runs since boot, shows 55 s or
-- more; otherwise the first keepalive waits.
pub keepalives_first :
    (now later : ℕ) (r : Round)
    → later ≤ r.app_check
    → r.ping_check - now < keepalive_ms
    → (keepalives (enter now later) r).1
      ≡ (if leb app_keepalive_ms r.app_check then binary (app_keepalive 1) ∷ [] else [])
unfolding keepalives ws_keepalive app_keepalive_step enter
keepalives_first now later r order quiet = ground arith
