-- ===== src/Bucket/Life/Idle.antt =====
-- A consumer that no round is scheduled for stays so.
use rabbitmqtobucketqueue.Common.{ℕ, suc, ◌≡◌, refl, false, List, [], ◌∷◌, Bool, arith}
use rabbitmqtobucketqueue.Bucket.Defs.{
  Env, Bucket, Entry, got, acked, nacked, tick_event, spill_event,
}
use rabbitmqtobucketqueue.Bucket.Calls.{
  cork, close_connection, close_ignoring, disconnect, close_all, handle_fatal_error,
}
use rabbitmqtobucketqueue.Bucket.Tick.{fire}
use rabbitmqtobucketqueue.Bucket.Life.{
  balance, uncork, pause, resume, purge, purge_if, shutdown, Happening, shuts_down, happen, live,
}

module _ {T : Type 0} where
  -- The entries that only a tick makes.
  abbrev pub ticked : List (Entry T) → ℕ
  ticked [] = 0
  ticked (got m ∷ es) = suc (ticked es)
  ticked (acked m ∷ es) = suc (ticked es)
  ticked (nacked m b ∷ es) = suc (ticked es)
  ticked (tick_event n ∷ es) = suc (ticked es)
  ticked (spill_event n ∷ es) = suc (ticked es)
  ticked (_ ∷ es) = ticked es

module _ {W C T : Type 0} (env : Env W C T) where
  -- No round is scheduled, none has run since `s`, and `#booted` is as it was.
  abbrev pub Idle : Bucket W C T → Bucket W C T → Type 0
  Idle s s' = (s'.immediate ≡ false) × (ticked s'.trace ≡ ticked s.trace) × (s'.booted ≡ s.booted)

  purge_if-Idle : (b : Bool) (s : Bucket W C T) → s.immediate ≡ false → Idle s (purge_if env b s).1
  unfolding purge_if purge
  purge_if-Idle b s h = ground arith

  disconnect-Idle : (s : Bucket W C T) → s.immediate ≡ false → Idle s (disconnect env s).1
  unfolding disconnect close_connection
  disconnect-Idle s h = ground arith

  close_ignoring-Idle : (s : Bucket W C T) → s.immediate ≡ false → Idle s (close_ignoring env s).1
  unfolding close_ignoring
  close_ignoring-Idle s h = ground arith

  pub shutdown-Idle : (b : Bool) (s : Bucket W C T) → Idle s (shutdown env b s).1
  unfolding shutdown cork close_all
  shutdown-Idle b s =
      let purged = purge_if-Idle b (cork env s) refl in
      let s₁ : Bucket W C T = (purge_if env b (cork env s)).1 in
      let closed = close_ignoring-Idle s₁ purged.0 in
      ground (arith, purged, closed, disconnect-Idle (close_ignoring env s₁).1 closed.0)

  happen-Idle : (x : Happening) (s : Bucket W C T) → s.immediate ≡ false → Idle s (happen env x s)
  unfolding happen cork uncork pause resume purge fire handle_fatal_error balance
  happen-Idle (shuts_down b) s h = shutdown-Idle b s
  happen-Idle _ s h = ground arith

  -- Once no round of the loop is scheduled, no round ever runs: whatever public methods are called,
  -- `uncork` and `resume` included, whatever the event loop does and whichever errors arrive, the
  -- consumer emits no `tick` and no `spill` event, and takes and settles no message; nor does it
  -- become booted, or cease to be.
  pub live-Idle :
      (h : List Happening) (s : Bucket W C T) → s.immediate ≡ false → Idle s (live env h s)
  unfolding live
  live-Idle [] s e = (e, refl, refl)
  live-Idle (x ∷ h) s e = ground (arith, live-Idle h s e, happen-Idle x (live env h s))
