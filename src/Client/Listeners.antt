-- ===== src/Client/Listeners.antt =====
-- The listeners that the calls of a client leave at its socket.
use rabbitmqtobucketqueue.Common.{
  ℕ, suc, ◌≡◌, refl, ap, ◌∙◌, Bool, true, false, if◌then◌else◌, List, [], ◌∷◌, length, String,
  arith,
}
use rabbitmqtobucketqueue.Server.{Value}
use rabbitmqtobucketqueue.Client.{
  confirms, increment, reset, time_out, on_connect, on_disconnect, Happening, connects, resets,
  tests, shuts_down, disconnects, receives, increments, times_out, resumes, happen, live, new,
}
use rabbitmqtobucketqueue.Client.Frame.{receive-Same, resolve-Same}
use rabbitmqtobucketqueue.Client.Leaks.{
  Leaks, Same-Leaks, start-Leaks, resume-Leaks, test-Leaks, connection-Leaks, emit-Leaks,
  shutdown-Leaks,
}

-- Whether the client is connected, and how many calls it has sent, from what happened.
abbrev pub connected_after : List Happening → Bool
connected_after [] = false
connected_after (connects ∷ h) = true
connected_after (disconnects reason ∷ h) = false
connected_after (shuts_down ∷ h) = false
connected_after (_ ∷ h) = connected_after h

abbrev pub calls : List Happening → ℕ
calls [] = 0
calls (increments n ∷ h) = suc (calls h)
calls (resets ∷ h) = suc (calls h)
calls (tests ∷ h) = if connected_after h then suc (calls h) else calls h
calls (_ ∷ h) = calls h

module _ (decrypt : String → Value → Value) (queue : String) (max_batch interval : ℕ) where
  pub live-Leaks :
      (h : List Happening)
      → Leaks (calls h) (connected_after h) (live decrypt h (new queue max_batch interval))
  unfolding live happen new on_connect on_disconnect increment reset time_out
  live-Leaks [] = record {
    rest = [];
    kept = refl;
    are_bound = refl;
    counted = refl;
    waiting = refl;
    made = omega arith;
    is_up = refl;
  }
  live-Leaks (connects ∷ h) =
      emit-Leaks (calls h) true "coordinate" _ _
        (connection-Leaks (calls h) (connected_after h) true _ _ (live-Leaks h))
  live-Leaks (disconnects reason ∷ h) =
      connection-Leaks (calls h) (connected_after h) false _ _ (live-Leaks h)
  live-Leaks (receives event args ∷ h) =
      Same-Leaks (calls h) (connected_after h) _ _ (receive-Same decrypt event args _)
        (live-Leaks h)
  live-Leaks (increments n ∷ h) =
      start-Leaks (calls h) (connected_after h) confirms "increment" _ _ (live-Leaks h)
  live-Leaks (resets ∷ h) =
      start-Leaks (calls h) (connected_after h) confirms "reset" _ _ (live-Leaks h)
  live-Leaks (tests ∷ h) = test-Leaks (calls h) (connected_after h) _ (live-Leaks h)
  live-Leaks (times_out p ∷ h) =
      Same-Leaks (calls h) (connected_after h) _ _ (resolve-Same p false _) (live-Leaks h)
  live-Leaks (resumes p ∷ h) = resume-Leaks (calls h) (connected_after h) p _ (live-Leaks h)
  live-Leaks (shuts_down ∷ h) = shutdown-Leaks (calls h) (connected_after h) _ (live-Leaks h)

  -- Every increment, every reset and every test of a connected client leaves its listener at the
  -- socket, whether or not the call has ended: after any history there are as many listeners as such
  -- calls, and that of the constructor.
  pub length-listeners :
      (h : List Happening)
      → length (live decrypt h (new queue max_batch interval)).listeners ≡ suc (calls h)
  length-listeners h = let l = live-Leaks h in ap length l.kept ∙ ap suc l.counted
