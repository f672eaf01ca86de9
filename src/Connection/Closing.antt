-- ===== src/Connection/Closing.antt =====
-- The end of a connection.
use rabbitmqtobucketqueue.Common.{
  ℕ, suc, ◌+◌, ◌≡◌, refl, ap, ◌∙◌, Bool, true, false, not, if◌then◌else◌, List, [], ◌∷◌, ok, arith,
}
use rabbitmqtobucketqueue.Connection.{
  Signal, close, unblocked, error, blocked, Emitted, close_event, Link, Connection, emit, on_signal,
  on_signals, closed_with, close_connection,
}

-- How often `close` was signalled by amqplib, and emitted.
abbrev pub closings : List Signal → ℕ
closings [] = 0
closings (close ∷ ss) = suc (closings ss)
closings (_ ∷ ss) = closings ss

abbrev pub close_events : List Emitted → ℕ
close_events [] = 0
close_events (close_event ∷ es) = suc (close_events es)
close_events (_ ∷ es) = close_events es

module _ {W : Type 0} where
  on_signals-close_events :
      (ss : List Signal) (c : Connection W)
      → close_events (on_signals ss c).emitted ≡ closings ss + close_events c.emitted
  unfolding on_signals on_signal
  on_signals-close_events [] c = omega arith
  on_signals-close_events (close ∷ ss) c =
      let rest = on_signals-close_events ss (on_signal close c) in omega (arith, rest)
  on_signals-close_events (unblocked ∷ ss) c = on_signals-close_events ss (on_signal unblocked c)
  on_signals-close_events (error e ∷ ss) c = on_signals-close_events ss (on_signal (error e) c)
  on_signals-close_events (blocked r ∷ ss) c = on_signals-close_events ss (on_signal (blocked r) c)

  -- No signal opens a connection again.
  on_signals-closed :
      (ss : List Signal) (c : Connection W) → c.closed ≡ true → (on_signals ss c).closed ≡ true
  unfolding on_signals on_signal
  on_signals-closed [] c h = h
  on_signals-closed (close ∷ ss) c h = on_signals-closed ss (on_signal close c) refl
  on_signals-closed (unblocked ∷ ss) c h = on_signals-closed ss (on_signal unblocked c) h
  on_signals-closed (error e ∷ ss) c h = on_signals-closed ss (on_signal (error e) c) refl
  on_signals-closed (blocked r ∷ ss) c h = on_signals-closed ss (on_signal (blocked r) c) h

module _ {W : Type 0} (link : Link W) where
  closed_still : (c : Connection W) → c.closed ≡ true → close_connection link c ≡ (ok tt, c)
  unfolding close_connection
  closed_still c h = rw h refl

  past :
      {A : Type 0} (a b : Bool) (x y z : A)
      → a ≡ false
      → b ≡ false
      → (if a then x else if b then y else z) ≡ z
  past false false x y z h k = refl
  past true b x y z h k = absurd (ground (arith, h))
  past false true x y z h k = absurd (ground (arith, k))

  open_closes :
      (c : Connection W)
      → c.closed ≡ false
      → c.linked ≡ true
      → close_connection link c
        ≡ closed_with link (link.close_link c.world) (record c { closed = true })
  unfolding close_connection
  open_closes c h l = past c.closed (not c.linked) _ _ _ h (ap not l)

  -- Closing an open connection, when amqplib resolves, emits `close` once more than amqplib signals
  -- it, and leaves the connection closed: to close it again does nothing.
  pub close_connection-again :
      (c : Connection W) {signals : List Signal} {w : W}
      → c.closed ≡ false
      → c.linked ≡ true
      → link.close_link c.world ≡ (ok signals, w)
      → ((close_connection link c).0 ≡ ok tt)
        × (close_events (close_connection link c).1.emitted
            ≡ suc (closings signals + close_events c.emitted))
        × (close_connection link (close_connection link c).1 ≡ (ok tt, (close_connection link c).1))
  close_connection-again c {signals} {w} h l e =
      let d : Connection W = record c { closed = true; world = w } in
      let after : close_connection link c ≡ (ok tt, emit close_event (on_signals signals d)) =
        open_closes c h l ∙ ap (λ r. closed_with link r (record c { closed = true })) e in
      (
        ap (λ r. r.0) after,
        ap (λ r. close_events r.1.emitted) after ∙ ap suc (on_signals-close_events signals d),
        closed_still (close_connection link c).1
            (ap (λ r. r.1.closed) after ∙ on_signals-closed signals d refl),
      )
