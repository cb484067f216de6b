-- ===== src/SignalWs/Close.antt =====
-- The loop of `close` in src/manager/signal_ws.rs.
use sigchat.Base.{ℕ, zero, suc, ◌<◌, ◌≡◌, refl, true, false, arith}
use sigchat.SignalWs.{Sockets, flushed, flush_loop}

module _ (o : Sockets) (ws : o.Ws) where
  -- While each flush that succeeds leaves less to do, the loop ends: this much fuel is enough.
  flush_loop_ends :
      (left : o.State → ℕ)
      → ((s : o.State) → (o.flush ws s).0 ≡ flushed → left (o.flush ws s).1 < left s)
      → (fuel : ℕ) (s : o.State) → left s < fuel
      → (flush_loop o fuel ws s).0 ≡ true
  unfolding flush_loop
  flush_loop_ends left less zero s h = absurd (omega arith)
  flush_loop_ends left less (suc fuel) s h =
      ground (arith, less s, flush_loop_ends left less fuel (o.flush ws s).1)

  -- A connection whose flushes keep succeeding is never left, on any fuel: the loop ends only by an
  -- answer that is not Ok.
  flush_loop_stays :
      ((s : o.State) → (o.flush ws s).0 ≡ flushed)
      → (fuel : ℕ) (s : o.State) → (flush_loop o fuel ws s).0 ≡ false
  unfolding flush_loop
  flush_loop_stays ok zero s = refl
  flush_loop_stays ok (suc fuel) s = ground (arith, ok s, flush_loop_stays ok fuel (o.flush ws s).1)
