-- ===== src/Bucket/Life/Corked.antt =====
-- A corked consumer stops.
use rabbitmqtobucketqueue.Common.{
  ℕ, zero, suc, ◌≡◌, refl, true, false, List, [], ◌∷◌, Option, none, some, arith,
}
use rabbitmqtobucketqueue.Bucket.Defs.{
  Env, Bucket, Entry, Failure, died_event, Interrupt, corking, uncorking, purging, ending, failing,
}
use rabbitmqtobucketqueue.Bucket.Calls.{
  cork, close_all, close_ignoring, disconnect, interrupt, interrupt_all, interrupted,
  handle_fatal_error,
}
use rabbitmqtobucketqueue.Bucket.Tick.{fire, rounds, schedule}
use rabbitmqtobucketqueue.Bucket.Frame.{Frame, handle_fatal_error-Frame}
use rabbitmqtobucketqueue.Bucket.Frame.Whole.{tick-Frame}
use rabbitmqtobucketqueue.Bucket.Life.Idle.{shutdown-Idle}
use rabbitmqtobucketqueue.Bucket.Life.{
  balance, uncork, pause, resume, purge, Happening, corks, uncorks, pauses, resumes, purges, turns,
  shuts_down, reads_balance, fails, happen, live,
}

abbrev pub newest : {T : Type 0} → List (Entry T) → Option (Entry T)
newest [] = none
newest (e ∷ es) = some e

module _ {W C T : Type 0} (env : Env W C T) where
  -- While corked, no round is scheduled.
  abbrev pub IsQuiet : Bucket W C T → Type 0
  IsQuiet s = s.corked ≡ true → s.immediate ≡ false

  -- Quiet states stay quiet.
  abbrev Quiets : Bucket W C T → Bucket W C T → Type 0
  Quiets s s' = IsQuiet s → IsQuiet s'

  cork-Quiets : (s : Bucket W C T) → Quiets s (cork env s)
  unfolding cork
  cork-Quiets s q c = refl

  close_all-Quiets : (s : Bucket W C T) → Quiets s (close_all env s).1
  unfolding close_all close_ignoring disconnect
  close_all-Quiets s q c = ground (arith, q, c)

  interrupt_all-Quiets :
      (is : List Interrupt) (s : Bucket W C T) → Quiets s (interrupt_all env is s)
  unfolding interrupt_all interrupt
  interrupt_all-Quiets [] s q = q
  interrupt_all-Quiets (corking ∷ is) s q = interrupt_all-Quiets is (cork env s) (cork-Quiets s q)
  interrupt_all-Quiets (uncorking ∷ is) s q =
      interrupt_all-Quiets is (interrupt env uncorking s) (λ c. cc)
  interrupt_all-Quiets (purging ∷ is) s q = interrupt_all-Quiets is (interrupt env purging s) q
  interrupt_all-Quiets (ending ∷ is) s q =
      interrupt_all-Quiets is (close_all env s).1 (close_all-Quiets s q)
  interrupt_all-Quiets (failing e ∷ is) s q =
      interrupt_all-Quiets is (handle_fatal_error env e s)
        (λ c. unfold handle_fatal_error in ground arith)

  interrupted-Quiets : (s : Bucket W C T) → Quiets s (interrupted env s)
  unfolding interrupted
  interrupted-Quiets s q =
      let (is, w) = env.channel.meanwhile s.world in
      interrupt_all-Quiets is (record s { world = w }) q

  schedule-Quiets : (s : Bucket W C T) → Quiets s (schedule env s)
  unfolding schedule
  schedule-Quiets s q c = ground (arith, q, c)

  Quiets-Frame : Frame env Quiets
  Quiets-Frame = record {
    here = λ s q. q;
    trans = λ s t u p q x. q (p x);
    worlds = λ w s q. q;
    coordinators = λ w s q. q;
    emits = λ e s q. q;
    corks = cork-Quiets;
    schedules = schedule-Quiets;
    interrupts = interrupted-Quiets;
  }

  fire-IsQuiet : (s : Bucket W C T) → IsQuiet s → IsQuiet (fire env s)
  unfolding fire
  fire-IsQuiet s q =
      let s' : Bucket W C T = record s { immediate = false } in
      ground (arith, tick-Frame env Quiets Quiets-Frame s' (λ c. refl))

  happen-IsQuiet : (x : Happening) (s : Bucket W C T) → IsQuiet s → IsQuiet (happen env x s)
  unfolding happen cork uncork pause resume purge handle_fatal_error balance
  happen-IsQuiet turns s q = fire-IsQuiet s q
  happen-IsQuiet (shuts_down b) s q = λ c. (shutdown-Idle env b s).0
  happen-IsQuiet uncorks s q = λ c. cc
  happen-IsQuiet resumes s q = λ c. cc
  happen-IsQuiet reads_balance s q = λ c. ground (arith, q)
  happen-IsQuiet corks s q = λ c. refl
  happen-IsQuiet pauses s q = λ c. refl
  happen-IsQuiet purges s q = q
  happen-IsQuiet (fails e) s q = handle_fatal_error-Frame env Quiets Quiets-Frame e s q

  live-IsQuiet : (h : List Happening) (s : Bucket W C T) → IsQuiet s → IsQuiet (live env h s)
  unfolding live
  live-IsQuiet [] s q = q
  live-IsQuiet (x ∷ h) s q = happen-IsQuiet x (live env h s) (live-IsQuiet h s q)

  fire_still : (s : Bucket W C T) → s.immediate ≡ false → fire env s ≡ s
  unfolding fire
  fire_still s e = ground arith

  rounds_still : (n : ℕ) (s : Bucket W C T) → s.immediate ≡ false → rounds env n s ≡ s
  unfolding rounds
  rounds_still zero s e = refl
  rounds_still (suc n) s e = rw (fire_still s e) (rounds_still n s e)

  -- A consumer that is corked in the end, by `cork`, `pause`, `shutdown` or a fatal error, does
  -- nothing more of its own: whatever happened to it before and while its rounds awaited, from a
  -- state in which corking had stopped the loop, any number of further rounds changes nothing.
  pub rounds_corked :
      (h : List Happening) (s : Bucket W C T) (n : ℕ)
      → IsQuiet s
      → (live env h s).corked ≡ true
      → rounds env n (live env h s) ≡ live env h s
  rounds_corked h s n q c = rounds_still n (live env h s) (live-IsQuiet h s q c)

  -- A fatal error, wherever it is handled, ends with the `died` event, corks the consumer and stops
  -- the loop: any number of further rounds changes nothing.
  pub handle_fatal_error-stops :
      (e : Failure) (s : Bucket W C T)
      → let s' = handle_fatal_error env e s in
        (newest s'.trace ≡ some (died_event e))
        × (s'.corked ≡ true)
        × ((n : ℕ) → rounds env n s' ≡ s')
  handle_fatal_error-stops e s = (
    unfold handle_fatal_error in refl,
    unfold handle_fatal_error in ground arith,
    λ n. rounds_still n _ (unfold handle_fatal_error in ground arith),
  )
