-- ===== src/Bucket/Boot/Started.antt =====
-- What a consumer that has booted is, and does.
use rabbitmqtobucketqueue.Common.{
  ◌≡◌, refl, false, true, none, some, List, String, str_eq, eq_iff, ok, inl, inr, arith,
  ok_injective, ap, sym, Bool-cases,
}
use rabbitmqtobucketqueue.Coordinator.{Driver}
use rabbitmqtobucketqueue.Bucket.Defs.{
  Failure, Channel, Env, Bucket, Message, DeserializedMessage, raw,
}
use rabbitmqtobucketqueue.Bucket.Items.{deserialize, validate}
use rabbitmqtobucketqueue.Bucket.Life.{Happening, live, balance}
use rabbitmqtobucketqueue.Bucket.Life.Idle.{ticked, live-Idle}
use rabbitmqtobucketqueue.Promise.{>>=-ok}
use rabbitmqtobucketqueue.Bucket.Boot.{
  Amqp, Config, Initialize, configure, start, take_channel, take_coordinator, do_boot, boot_with,
  finish, create, queue_types, is_in,
}

-- A channel type that the validation of the configuration lets through never makes a confirm
-- channel: the constraint allows `queue` and `confirmQueue`, the code tests for `confirmChannel`.
pub create_valid :
    {W : Type 0} (amqp : Amqp W) (t : String)
    → is_in t queue_types ≡ true
    → create amqp t ≡ amqp.create_channel
unfolding create
create_valid amqp t h = elim (Bool-cases (str_eq t "queue")) [
  | inl e ↦ rw ((eq_iff t "queue").0 e) refl
  | inr e ↦ rw ((eq_iff t "confirmQueue").0 (ground (arith, e))) refl
]

module _ {W C T : Type 0} (amqp : Amqp W) (initialize : Initialize W C) (cfg : Config W C T) where
  -- The values that a boot without an error ends with.
  pub do_boot-ok :
      (w w' : W) (env : Env W C T) (make : W → Bucket W C T)
      → do_boot amqp initialize cfg w ≡ (ok (env, make), w')
      → (c : C) × (make ≡ start cfg c) × (env.options ≡ configure cfg)
  unfolding do_boot boot_with finish
  do_boot-ok w w' env make h =
      let (channel, w₁, _, h₁) =
        >>=-ok (take_channel amqp initialize cfg) (boot_with amqp initialize cfg) w h in
      let (coordinator, w₂, _, h₂) =
        >>=-ok (take_coordinator amqp initialize cfg) (finish amqp initialize cfg channel) w₁ h₁ in
      finished channel coordinator.0 coordinator.1 w₂ h₂
    where
      finished :
          (channel : Channel W) (driver : Driver Failure C) (c : C) (w₂ : W)
          → finish amqp initialize cfg channel (driver, c) w₂ ≡ (ok (env, make), w')
          → (c : C) × (make ≡ start cfg c) × (env.options ≡ configure cfg)
      finished channel driver c w₂ h₂ =
          let pair : ◌≡◌ {A = Env W C T × (W → Bucket W C T)}
              (record { channel = channel; driver = driver; options = configure cfg }, start cfg c)
              (env, make) =
            ok_injective (ap (λ p. p.0) h₂) in
          (c, sym (ap (λ p. p.1) pair), sym (ap (λ p. p.0.options) pair))

  -- A consumer that has booted never starts: whatever public methods are called, `uncork` and
  -- `resume` included, whatever the event loop does and whichever errors arrive, it emits no `tick`
  -- and no `spill` event, takes and settles no message, and answers 0 when asked for the balance.
  pub do_boot-never_ticks :
      (w w' : W) (env : Env W C T) (make : W → Bucket W C T)
      → do_boot amqp initialize cfg w ≡ (ok (env, make), w')
      → (h : List Happening)
      → let s = live env h (make w') in
        (ticked s.trace ≡ 0) × (s.immediate ≡ false) × ((balance env s).0 ≡ ok (some 0))
  do_boot-never_ticks w w' env make e h =
      let (c, made, _) = do_boot-ok w w' env make e in rw made (idle c)
    where
      answers :
          (c : C)
          → (live env h (start cfg c w')).booted ≡ false
          → (balance env (live env h (start cfg c w'))).0 ≡ ok (some 0)
      answers c u = unfold balance in ground arith

      idle :
          (c : C)
          → let s = live env h (start cfg c w') in
            (ticked s.trace ≡ 0) × (s.immediate ≡ false) × ((balance env s).0 ≡ ok (some 0))
      idle c =
          let (still, quiet, unbooted) = live-Idle env h (start cfg c w') (unfold start in refl) in
          (unfold start in quiet, still, answers c (unfold start in unbooted))

  -- A consumer that has booted has neither of the two functions that the configuration may give
  -- for its items: it deserializes and validates nothing.
  pub do_boot-drops :
      (w w' : W) (env : Env W C T) (make : W → Bucket W C T)
      → do_boot amqp initialize cfg w ≡ (ok (env, make), w')
      → (m : Message) (s : Bucket W C T)
      → (deserialize env m s ≡ (some (record { message = m; item = raw m.content }), s))
        × ((d : DeserializedMessage T) → validate env d s ≡ (some d, s))
  do_boot-drops w w' env make e m s =
      let (c, _, o) = do_boot-ok w w' env make e in
      let undeserialized : env.options.deserialize_item ≡ none = rw o (unfold configure in refl) in
      let unvalidated : env.options.validate_item ≡ none = rw o (unfold configure in refl) in
      (unfold deserialize in ground arith, λ d. unfold validate in ground arith)
