-- ===== src/Bucket/Settle/Counts.antt =====
-- How many deliveries with a given tag were taken and settled, and what the calls of the channel
-- and the two preparing steps of a tick do to these numbers.
use rabbitmqtobucketqueue.Common.{
  ℕ, zero, suc, ◌+◌, ◌≡◌, refl, if◌then◌else◌, ◌==◌, Option, none, some, List, [], ◌∷◌, map, ok,
  arith, Bool, String,
}
use rabbitmqtobucketqueue.Bucket.Defs.{
  Message, DeserializedMessage, Env, Entry, got, acked, nacked, Bucket, Failure, Interrupt, ending,
  failing, emit, incremented,
}
use rabbitmqtobucketqueue.Bucket.Calls.{
  get_single_message, get_messages, do_ack, do_nack, do_ack_all, do_nack_all, increment,
  handle_fatal_error, nack_unawaited, close_all, close_ignoring, disconnect, interrupt,
  interrupt_all, cork, interrupted, note_got,
}
use rabbitmqtobucketqueue.Bucket.Items.{defined}

abbrev pub one : ℕ → Message → ℕ
one t m = if m.delivery_tag == t then 1 else 0

abbrev pub pending : ℕ → List Message → ℕ
pending t [] = 0
pending t (m ∷ ms) = one t m + pending t ms

abbrev with_message : Option Message → List Message → List Message
with_message none ms = ms
with_message (some m) ms = m ∷ ms

module _ {T : Type 0} where
  abbrev pub gots : ℕ → List (Entry T) → ℕ
  gots t [] = 0
  gots t (got m ∷ es) = one t m + gots t es
  gots t (_ ∷ es) = gots t es

  abbrev pub settles : ℕ → List (Entry T) → ℕ
  settles t [] = 0
  settles t (acked m ∷ es) = one t m + settles t es
  settles t (nacked m requeue ∷ es) = one t m + settles t es
  settles t (_ ∷ es) = settles t es

  abbrev pub pending_items : ℕ → List (DeserializedMessage T) → ℕ
  pending_items t [] = 0
  pending_items t (d ∷ ds) = one t d.message + pending_items t ds

  abbrev pub pending_option : ℕ → Option (DeserializedMessage T) → ℕ
  pending_option t none = 0
  pending_option t (some d) = one t d.message

  abbrev pub pending_options : ℕ → List (Option (DeserializedMessage T)) → ℕ
  pending_options t [] = 0
  pending_options t (d ∷ ds) = pending_option t d + pending_options t ds

  pub pending_items-defined :
      (t : ℕ) (ds : List (Option (DeserializedMessage T)))
      → pending_items t (defined ds) ≡ pending_options t ds
  pending_items-defined t [] = refl
  pending_items-defined t (none ∷ ds) = omega (arith, pending_items-defined t ds)
  pending_items-defined t (some d ∷ ds) = omega (arith, pending_items-defined t ds)

  pub pending-messages :
      (t : ℕ) (ds : List (DeserializedMessage T))
      → pending t (map (λ d. d.message) ds) ≡ pending_items t ds
  pending-messages t [] = refl
  pending-messages t (d ∷ ds) = omega (arith, pending-messages t ds)

module _ {W C T : Type 0} where
  -- From `s` to `s'` this many deliveries with tag `t` were taken, and this many settled.
  abbrev pub Moves : ℕ → Bucket W C T → Bucket W C T → ℕ → ℕ → Type 0
  Moves t s s' taken settled =
      (gots t s'.trace ≡ gots t s.trace + taken)
      × (settles t s'.trace ≡ settles t s.trace + settled)

  -- RabbitMQ and the coordinator answer: no call on the channel and no increment fails.
  pub record Responds (env : Env W C T) : Type 0 where
    pub get_ok : (q : String) (w : W) → (r : Option Message) × ((env.channel.get q w).0 ≡ ok r)
    pub ack_ok : (m : Message) (w : W) → (env.channel.ack m w).0 ≡ ok tt
    pub nack_ok : (m : Message) (requeue : Bool) (w : W) → (env.channel.nack m requeue w).0 ≡ ok tt
    pub increment_ok : (n : ℕ) (c : C) → (env.driver.increment n c).0 ≡ ok tt

  module _ (env : Env W C T) (t : ℕ) where
    pub handle_fatal_error-Moves :
        (e : Failure) (s : Bucket W C T) → Moves t s (handle_fatal_error env e s) 0 0
    unfolding handle_fatal_error
    handle_fatal_error-Moves e s = ground arith

    close_all-Moves : (s : Bucket W C T) → Moves t s (close_all env s).1 0 0
    unfolding close_all close_ignoring disconnect
    close_all-Moves s = ground arith

    interrupt-Moves : (i : Interrupt) (s : Bucket W C T) → Moves t s (interrupt env i s) 0 0
    unfolding interrupt cork
    interrupt-Moves ending s = close_all-Moves s
    interrupt-Moves (failing e) s = handle_fatal_error-Moves e s
    interrupt-Moves _ s = ground arith

    interrupt_all-Moves :
        (is : List Interrupt) (s : Bucket W C T) → Moves t s (interrupt_all env is s) 0 0
    unfolding interrupt_all
    interrupt_all-Moves [] s = ground arith
    interrupt_all-Moves (i ∷ is) s =
        ground (arith, interrupt-Moves i s, interrupt_all-Moves is (interrupt env i s))

    pub interrupted-Moves : (s : Bucket W C T) → Moves t s (interrupted env s) 0 0
    unfolding interrupted
    interrupted-Moves s =
        let (is, w) = env.channel.meanwhile s.world in
        interrupt_all-Moves is (record s { world = w })

  module _ (env : Env W C T) (h : Responds env) (t : ℕ) where
    pub do_ack-Moves :
        (m : Message) (s : Bucket W C T)
        → ((do_ack env m s).0 ≡ ok tt) × Moves t s (do_ack env m s).1 0 (one t m)
    unfolding do_ack
    do_ack-Moves m s =
        let s' : Bucket W C T = record s { world = (env.channel.ack m s.world).1 } in
        ground (arith, h.ack_ok m s.world, interrupted-Moves env t (emit (acked m) s'))

    pub do_nack-Moves :
        (m : Message) (requeue : Bool) (s : Bucket W C T)
        → ((do_nack env m requeue s).0 ≡ ok tt) × Moves t s (do_nack env m requeue s).1 0 (one t m)
    unfolding do_nack
    do_nack-Moves m requeue s =
        let s' : Bucket W C T = record s { world = (env.channel.nack m requeue s.world).1 } in
        ground
          (arith, h.nack_ok m requeue s.world, interrupted-Moves env t (emit (nacked m requeue) s'))

    pub increment-Moves :
        (n : ℕ) (s : Bucket W C T)
        → ((increment env n s).0 ≡ ok tt) × Moves t s (increment env n s).1 0 0
    unfolding increment
    increment-Moves n s =
        let s' : Bucket W C T = record s {
          coordinator = (env.driver.increment n s.coordinator).1;
        } in
        ground
          (arith, h.increment_ok n s.coordinator, interrupted-Moves env t (emit (incremented n) s'))

    noted-Moves :
        (r : Option Message) (s : Bucket W C T)
        → Moves t s (note_got env r s) (pending t (with_message r [])) 0
    noted-Moves none s = ground arith
    noted-Moves (some m) s = ground arith

    get_single_message-Moves :
        (s : Bucket W C T)
        → (r : Option Message) × ((get_single_message env s).0 ≡ ok r)
          × Moves t s (get_single_message env s).1 (pending t (with_message r [])) 0
    unfolding get_single_message
    get_single_message-Moves s =
        let (r, e) = h.get_ok env.options.queue s.world in
        let s' : Bucket W C T = record s {
          world = (env.channel.get env.options.queue s.world).1;
        } in
        let moved = interrupted-Moves env t (note_got env r s') in
        let noted = noted-Moves r s' in (r, ground (arith, e), ground (arith, e, moved, noted))

    pub get_messages-Moves :
        (n : ℕ) (s : Bucket W C T)
        → (ms : List Message) × ((get_messages env n s).0 ≡ ok ms)
          × Moves t s (get_messages env n s).1 (pending t ms) 0
    unfolding get_messages
    get_messages-Moves zero s = ([], refl, ground arith)
    get_messages-Moves (suc n) s =
        let (r, e, k) = get_single_message-Moves s in
        let (ms, e', k') = get_messages-Moves n (get_single_message env s).1 in
        (with_message r ms, ground arith, ground arith)

    pub do_ack_all-Moves :
        (ms : List Message) (s : Bucket W C T)
        → ((do_ack_all env ms s).0 ≡ ok tt) × Moves t s (do_ack_all env ms s).1 0 (pending t ms)
    unfolding do_ack_all
    do_ack_all-Moves [] s = (refl, ground arith)
    do_ack_all-Moves (m ∷ ms) s =
        ground (arith, do_ack-Moves m s, do_ack_all-Moves ms (do_ack env m s).1)

    pub do_nack_all-Moves :
        (ms : List Message) (requeue : Bool) (s : Bucket W C T)
        → ((do_nack_all env ms requeue s).0 ≡ ok tt)
          × Moves t s (do_nack_all env ms requeue s).1 0 (pending t ms)
    unfolding do_nack_all
    do_nack_all-Moves [] requeue s = (refl, ground arith)
    do_nack_all-Moves (m ∷ ms) requeue s =
        ground (
          arith,
          do_nack-Moves m requeue s,
          do_nack_all-Moves ms requeue (do_nack env m requeue s).1,
        )

    pub nack_unawaited-Moves :
        (m : Message) (requeue : Bool) (s : Bucket W C T)
        → Moves t s (nack_unawaited env m requeue s) 0 (one t m)
    unfolding nack_unawaited
    nack_unawaited-Moves m requeue s = (do_nack-Moves m requeue s).1
