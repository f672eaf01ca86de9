-- ===== src/Bucket/Frame.antt =====
-- What holds across a tick because it holds across its primitive steps: a relation between
-- states that the calls of the world and the coordinator, the entries of the trace, `cork` and
-- the scheduling of the next round respect is respected by the whole tick.
pub mod Steps
pub mod Spill
pub mod Whole
use rabbitmqtobucketqueue.Common.{
  ℕ, zero, suc, Option, none, some, List, [], ◌∷◌, Bool, Bool-cases, Result, ok, err, Result-cases,
  Unit₀, inl, inr, ◌≡◌, refl, not, ◌&&◌, ltb, ◌==◌, if◌then◌else◌, false, true, length, arith,
}
use rabbitmqtobucketqueue.Bucket.Defs.{
  Message, Item, DeserializedMessage, Env, Bucket, Entry, Failure, reenqueue, counts_toward_balance,
  emit, error_event, fatal_event, invalid_event, spill_event, tick_event, drain_event, finish_event,
  Flow, got, acked, nacked, incremented, died_event, channel_closed, connection_closed,
  coordinator_shut_down,
}
use rabbitmqtobucketqueue.Bucket.Calls.{
  get_single_message, get_messages, do_ack, do_nack, do_ack_all, do_nack_all, increment, cork,
  interrupted, close_channel, close_connection, shut_down_coordinator, handle_fatal_error,
  nack_unawaited, call, note_got,
}
use rabbitmqtobucketqueue.Bucket.Items.{
  defined, deserialize_failed, deserialize, deserialize_all, validate_failed, invalid, validate,
  validate_defined, validate_all,
}
use rabbitmqtobucketqueue.Bucket.Chunk.{chunk}
use rabbitmqtobucketqueue.Bucket.Tick.{
  messages, do_spill, do_item, count_or_die, spill_failed, spill_chunk, item_failed, item_one,
  item_all, spill_chunks, item_chunks, consume, spill, report, schedule, end_tick, tick_with, tick,
}

pub record Frame {W C T : Type 0} (env : Env W C T) (R : Bucket W C T → Bucket W C T → Type 0)
    : Type 0 where
  pub here : (s : Bucket W C T) → R s s
  pub trans : (s t u : Bucket W C T) → R s t → R t u → R s u
  pub worlds : (w : W) (s : Bucket W C T) → R s (record s { world = w })
  pub coordinators : (c : C) (s : Bucket W C T) → R s (record s { coordinator = c })
  pub emits : (e : Entry T) (s : Bucket W C T) → R s (emit e s)
  pub corks : (s : Bucket W C T) → R s (cork env s)
  pub schedules : (s : Bucket W C T) → R s (schedule env s)
  pub interrupts : (s : Bucket W C T) → R s (interrupted env s)

module _ {W C T : Type 0} (env : Env W C T) (R : Bucket W C T → Bucket W C T → Type 0)
    (f : Frame env R) where
  infixr 5 ◌⨾◌
  pub ◌⨾◌ : {s t u : Bucket W C T} → R s t → R t u → R s u
  ◌⨾◌ {s} {t} {u} a b = f.trans s t u a b

  -- A step whose result is an `if`.
  pub if-Frame : (b : Bool) {s t u : Bucket W C T} → R s t → R s u → R s (if b then t else u)
  if-Frame true p q = p
  if-Frame false p q = q

  pub call-Frame :
      {A : Type 0} (g : W → Result Failure A × W) (note : A → Bucket W C T → Bucket W C T)
      → ((a : A) (s : Bucket W C T) → R s (note a s))
      → (s : Bucket W C T) → R s (call env g note s).1
  call-Frame g note h s = go (g s.world).0 refl
    where
      s' : Bucket W C T
      s' = record s { world = (g s.world).1 }

      go : (r : Result Failure _) → (g s.world).0 ≡ r → R s (call env g note s).1
      go (ok a) e = rw (e, call) (f.worlds _ s ⨾ h a s' ⨾ f.interrupts _)
      go (err x) e = rw (e, call) (f.worlds _ s ⨾ f.interrupts _)

  get_single_message-Frame : (s : Bucket W C T) → R s (get_single_message env s).1
  unfolding get_single_message
  get_single_message-Frame = call-Frame (env.channel.get env.options.queue) (note_got env) note
    where
      note : (m : Option Message) (s : Bucket W C T) → R s (note_got env m s)
      note none s = f.here s
      note (some m) s = f.emits (got m) s

  pub get_messages-Frame : (n : ℕ) (s : Bucket W C T) → R s (get_messages env n s).1
  unfolding get_messages
  get_messages-Frame zero s = f.here s
  get_messages-Frame (suc n) s =
      get_single_message-Frame s ⨾ get_messages-Frame n (get_single_message env s).1

  pub do_ack-Frame : (m : Message) (s : Bucket W C T) → R s (do_ack env m s).1
  unfolding do_ack
  do_ack-Frame m = call-Frame (env.channel.ack m) _ (λ _ s. f.emits (acked m) s)

  pub do_nack-Frame : (m : Message) (b : Bool) (s : Bucket W C T) → R s (do_nack env m b s).1
  unfolding do_nack
  do_nack-Frame m b = call-Frame (env.channel.nack m b) _ (λ _ s. f.emits (nacked m b) s)

  pub do_ack_all-Frame : (ms : List Message) (s : Bucket W C T) → R s (do_ack_all env ms s).1
  unfolding do_ack_all
  do_ack_all-Frame [] s = f.here s
  do_ack_all-Frame (m ∷ ms) s = do_ack-Frame m s ⨾ do_ack_all-Frame ms (do_ack env m s).1

  pub do_nack_all-Frame :
      (ms : List Message) (b : Bool) (s : Bucket W C T) → R s (do_nack_all env ms b s).1
  unfolding do_nack_all
  do_nack_all-Frame [] b s = f.here s
  do_nack_all-Frame (m ∷ ms) b s =
      do_nack-Frame m b s ⨾ do_nack_all-Frame ms b (do_nack env m b s).1

  pub increment-Frame : (n : ℕ) (s : Bucket W C T) → R s (increment env n s).1
  unfolding increment
  increment-Frame n s = elim (Result-cases (env.driver.increment n s.coordinator).0) [
    | inl (u, e) ↦
        rw (e, increment) (f.coordinators _ s ⨾ f.emits (incremented n) _ ⨾ f.interrupts _)
    | inr (x, e) ↦ rw (e, increment) (f.coordinators _ s ⨾ f.interrupts _)
  ]

  pub handle_fatal_error-Frame : (e : Failure) (s : Bucket W C T) → R s (handle_fatal_error env e s)
  unfolding handle_fatal_error
  handle_fatal_error-Frame e s =
      f.emits (fatal_event e) s
      ⨾ f.corks _
      ⨾ closes _
      ⨾ if-Frame _ (f.emits connection_closed _) (f.here _)
      ⨾ shuts_down _
      ⨾ f.emits (died_event e) _
    where
      closes : (t : Bucket W C T) → R t (close_channel env t)
      closes t = elim (Result-cases (env.channel.close t.world).0) [
        | inl (u, e) ↦ rw (e, close_channel) (f.worlds _ t ⨾ f.emits channel_closed _)
        | inr (x, e) ↦ rw (e, close_channel) (f.worlds _ t ⨾ f.emits (error_event x) _)
      ]

      shuts_down : (t : Bucket W C T) → R t (shut_down_coordinator env t)
      shuts_down t = elim (Result-cases (env.driver.shutdown t.coordinator).0) [
        | inl (u, e) ↦
            rw (e, shut_down_coordinator) (f.coordinators _ t ⨾ f.emits coordinator_shut_down _)
        | inr (x, e) ↦
            rw (e, shut_down_coordinator) (f.coordinators _ t ⨾ f.emits (error_event x) _)
      ]
