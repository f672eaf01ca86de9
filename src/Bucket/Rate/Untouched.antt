-- ===== src/Bucket/Rate/Untouched.antt =====
-- What a coordinator that meters a limit is, and the parts of a tick that charge nothing to it.
use rabbitmqtobucketqueue.Common.{
  ℕ, zero, suc, ◌+◌, ◌-◌, ◌∙◌, ap, some, ◌≤◌, ◌≡◌, refl, Option, none, List, [], ◌∷◌, length, Bool,
  Result, ok, err, not, ◌||◌, Result-cases, inl, inr, arith,
}
use rabbitmqtobucketqueue.Coordinator.{Driver}
use rabbitmqtobucketqueue.Bucket.Defs.{
  Message, DeserializedMessage, Env, Bucket, Failure, Item, Interrupt, corking, uncorking, purging,
  ending, failing, emit, acked, nacked, error_event, invalid_event, reenqueue,
}
use rabbitmqtobucketqueue.Bucket.Calls.{
  get_single_message, get_messages, do_ack, do_nack, do_ack_all, do_nack_all, nack_unawaited,
  interrupted, interrupt, interrupt_all, cork, handle_fatal_error, close_all, close_ignoring,
  disconnect, call, note_got,
}
use rabbitmqtobucketqueue.Bucket.Items.{
  defined, deserialize_failed, deserialize, deserialize_all, validate_failed, invalid, validate,
  validate_defined, validate_all,
}

-- The number of messages found.
abbrev pub found : Result Failure (List Message) → ℕ
found (ok ms) = length ms
found (err e) = 0

-- A coordinator that enforces a limit: it knows what has been used, the balance that it gives is
-- what is left of the limit as it is read, and no call uses more than what is charged or changes the limit. A
-- call may use less, or free what was used, as a timer that fires meanwhile does.
pub record Meters {C : Type 0} (driver : Driver Failure C) (used limit : C → ℕ) : Type 0 where
  pub balance_left :
      (c : C) (b : ℕ) → (driver.balance c).0 ≡ ok (some b) → b ≤ limit c - used (driver.balance c).1
  pub balance_used :
      (c : C) → (used (driver.balance c).1 ≤ used c) × (limit (driver.balance c).1 ≡ limit c)
  pub increment_used :
      (n : ℕ) (c : C)
      → (used (driver.increment n c).1 ≤ used c + n) × (limit (driver.increment n c).1 ≡ limit c)
  pub shutdown_used :
      (c : C) → (used (driver.shutdown c).1 ≤ used c) × (limit (driver.shutdown c).1 ≡ limit c)
  pub reset_used :
      (c : C) → (used (driver.reset c).1 ≤ used c) × (limit (driver.reset c).1 ≡ limit c)

-- Taking messages, acks, nacks and the two preparing steps charge nothing, whatever happens meanwhile.
module _ {W C T : Type 0} (env : Env W C T) (used limit : C → ℕ)
    (meter : Meters env.driver used limit) where
  -- From `s` to `s'` nothing is charged.
  abbrev pub Less : Bucket W C T → Bucket W C T → Type 0
  Less s s' =
      (used s'.coordinator ≤ used s.coordinator) × (limit s'.coordinator ≡ limit s.coordinator)

  pub handle_fatal_error-Less :
      (e : Failure) (s : Bucket W C T) → Less s (handle_fatal_error env e s)
  unfolding handle_fatal_error
  handle_fatal_error-Less e s = ground (arith, meter.shutdown_used s.coordinator)

  close_all-Less : (s : Bucket W C T) → Less s (close_all env s).1
  unfolding close_all close_ignoring disconnect
  close_all-Less s = ground (arith, meter.shutdown_used s.coordinator)

  interrupt-Less : (i : Interrupt) (s : Bucket W C T) → Less s (interrupt env i s)
  unfolding interrupt cork
  interrupt-Less corking s = (omega arith, refl)
  interrupt-Less uncorking s = (omega arith, refl)
  interrupt-Less purging s = meter.reset_used s.coordinator
  interrupt-Less ending s = close_all-Less s
  interrupt-Less (failing e) s = handle_fatal_error-Less e s

  interrupt_all-Less : (is : List Interrupt) (s : Bucket W C T) → Less s (interrupt_all env is s)
  unfolding interrupt_all
  interrupt_all-Less [] s = (omega arith, refl)
  interrupt_all-Less (i ∷ is) s =
      let first = interrupt-Less i s in
      let rest = interrupt_all-Less is (interrupt env i s) in
      (omega (arith, first.0, rest.0), rest.1 ∙ first.1)

  pub interrupted-Less : (s : Bucket W C T) → Less s (interrupted env s)
  unfolding interrupted
  interrupted-Less s =
      let (is, w) = env.channel.meanwhile s.world in interrupt_all-Less is (record s { world = w })

  from-Less : (s s' t : Bucket W C T) → s'.coordinator ≡ s.coordinator → Less s' t → Less s t
  from-Less s s' t e l = (omega (arith, ap used e, l.0), l.1 ∙ ap limit e)

  -- An awaited call whose entry leaves the coordinator alone charges nothing.
  pub call-Less :
      {A : Type 0} (f : W → Result Failure A × W) (note : A → Bucket W C T → Bucket W C T)
      (s : Bucket W C T)
      → ((a : A) (s : Bucket W C T) → (note a s).coordinator ≡ s.coordinator)
      → Less s (call env f note s).1
  call-Less f note s h =
      let s' : Bucket W C T = record s { world = (f s.world).1 } in
      elim (Result-cases (f s.world).0) [
        | inl (a, e) ↦
            rw (e, call)
              (from-Less s (note a s') (interrupted env (note a s')) (h a s')
                (interrupted-Less (note a s')))
        | inr (x, e) ↦ rw (e, call) (interrupted-Less s')
      ]

  pub get_single_message-Less : (s : Bucket W C T) → Less s (get_single_message env s).1
  unfolding get_single_message
  get_single_message-Less s = call-Less (env.channel.get env.options.queue) (note_got env) s note
    where
      note :
          (m : Option Message) (s : Bucket W C T) → (note_got env m s).coordinator ≡ s.coordinator
      note none s = refl
      note (some m) s = refl

  pub do_ack-Less : (m : Message) (s : Bucket W C T) → Less s (do_ack env m s).1
  unfolding do_ack
  do_ack-Less m s = call-Less (env.channel.ack m) (λ u t. emit (acked m) t) s (λ a s. refl)

  pub do_nack-Less :
      (m : Message) (requeue : Bool) (s : Bucket W C T) → Less s (do_nack env m requeue s).1
  unfolding do_nack
  do_nack-Less m requeue s =
      call-Less (env.channel.nack m requeue) (λ u t. emit (nacked m requeue) t) s (λ a s. refl)

  pub get_messages-Less :
      (n : ℕ) (s : Bucket W C T)
      → (Less s (get_messages env n s).1) × (found (get_messages env n s).0 ≤ n)
  unfolding get_messages
  get_messages-Less zero s = ((omega arith, refl), omega arith)
  get_messages-Less (suc n) s =
      ground (arith, get_single_message-Less s, get_messages-Less n (get_single_message env s).1)

  pub do_ack_all-Less : (ms : List Message) (s : Bucket W C T) → Less s (do_ack_all env ms s).1
  unfolding do_ack_all
  do_ack_all-Less [] s = (omega arith, refl)
  do_ack_all-Less (m ∷ ms) s =
      ground (arith, do_ack-Less m s, do_ack_all-Less ms (do_ack env m s).1)

  pub do_nack_all-Less :
      (ms : List Message) (requeue : Bool) (s : Bucket W C T)
      → Less s (do_nack_all env ms requeue s).1
  unfolding do_nack_all
  do_nack_all-Less [] requeue s = (omega arith, refl)
  do_nack_all-Less (m ∷ ms) requeue s =
      ground
        (arith, do_nack-Less m requeue s, do_nack_all-Less ms requeue (do_nack env m requeue s).1)

  pub deserialize-Less : (m : Message) (s : Bucket W C T) → Less s (deserialize env m s).1
  unfolding deserialize deserialize_failed nack_unawaited
  deserialize-Less m s = go env.options.deserialize_item refl
    where
      go :
          (f : Option (List ℕ → W → Result Failure T × W))
          → env.options.deserialize_item ≡ f
          → Less s (deserialize env m s).1
      go none e = ground arith
      go (some f) e =
          let s' : Bucket W C T = record s { world = (f m.content s.world).1 } in
          let s'' : Bucket W C T = interrupted env s' in
          elim (Result-cases (f m.content s.world).0) [
            | inl (a, e') ↦ ground (arith, interrupted-Less s')
            | inr (x, e') ↦ ground (
              arith,
              interrupted-Less s',
              do_nack-Less m (not env.options.discard_on_deserialize_error || reenqueue x)
                  (emit (error_event x) s''),
            )
          ]

  pub deserialize_all-Less :
      (ms : List Message) (s : Bucket W C T)
      → (Less s (deserialize_all env ms s).1) × (length (deserialize_all env ms s).0 ≡ length ms)
  unfolding deserialize_all
  deserialize_all-Less [] s = ((omega arith, refl), refl)
  deserialize_all-Less (m ∷ ms) s =
      ground (arith, deserialize-Less m s, deserialize_all-Less ms (deserialize env m s).1)

  pub validate_defined-Less :
      (d : Option (DeserializedMessage T)) (s : Bucket W C T) → Less s (validate_defined env d s).1
  unfolding validate_defined validate validate_failed invalid nack_unawaited
  validate_defined-Less none s = (omega arith, refl)
  validate_defined-Less (some d) s = go env.options.validate_item refl
    where
      go :
          (f : Option (Item T → W → Result Failure Bool × W))
          → env.options.validate_item ≡ f
          → Less s (validate env d s).1
      go none e = ground arith
      go (some f) e =
          let s' : Bucket W C T = record s { world = (f d.item s.world).1 } in
          let s'' : Bucket W C T = interrupted env s' in
          elim (Result-cases (f d.item s.world).0) [
            | inl (a, e') ↦ ground (
              arith,
              interrupted-Less s',
              do_nack-Less d.message (not env.options.discard_on_invalid)
                  (emit (invalid_event d.item d.message) s''),
            )
            | inr (x, e') ↦ ground (
              arith,
              interrupted-Less s',
              do_nack-Less d.message (not env.options.discard_on_validation_error || reenqueue x)
                  (emit (error_event x) s''),
            )
          ]

  pub validate_all-Less :
      (ds : List (Option (DeserializedMessage T))) (s : Bucket W C T)
      → (Less s (validate_all env ds s).1) × (length (validate_all env ds s).0 ≡ length ds)
  unfolding validate_all
  validate_all-Less [] s = ((omega arith, refl), refl)
  validate_all-Less (d ∷ ds) s =
      ground (arith, validate_defined-Less d s, validate_all-Less ds (validate_defined env d s).1)

pub length-defined : {A : Type 0} (xs : List (Option A)) → length (defined xs) ≤ length xs
length-defined [] = omega arith
length-defined (none ∷ xs) = omega (arith, length-defined xs)
length-defined (some x ∷ xs) = omega (arith, length-defined xs)
