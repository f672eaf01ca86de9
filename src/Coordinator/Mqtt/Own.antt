-- ===== src/Coordinator/Mqtt/Own.antt =====
-- What an instance of the MQTT coordinator counts of its own: the laws that the quota rests on.
use rabbitmqtobucketqueue.Common.{
  ◌++◌, ℕ, ◌+◌, ◌-◌, ◌≤◌, ◌≡◌, refl, Bool, true, false, List, [], ◌∷◌, filter, Option, none, some,
  String, str_eq, eq_iff, ok, arith, ap, Bool-cases, Result-cases, inl, inr,
}
use rabbitmqtobucketqueue.Coordinator.Shared.{Counts}
use rabbitmqtobucketqueue.Coordinator.Mqtt.Topics.{starts_with-own, key-own}
use rabbitmqtobucketqueue.Coordinator.Mqtt.{
  key, Stored, Topic, Mqtt, topic, set, kept, sum, increment, reset, shutdown, get_balance,
  on_connection, on_close, on_error, on_message, empty_all, ask, publish,
}
use rabbitmqtobucketqueue.Coordinator.Mqtt.Ready.{Instance, read_balance, happen}
use rabbitmqtobucketqueue.Coordinator.Mqtt.Timed.{
  Held, holds, Foreign, connected, closed, failed, received, echoed, find, uuids, echo, foreign,
  to_number, mqtt_store, counted, quota,
}

module _ (mine : String → Bool) where
  own : ℕ → List Stored → ℕ
  own now xs = sum now (filter (λ x. mine x.uuid) xs)

  own-later : (now passed : ℕ) (xs : List Stored) → own (now + passed) xs ≤ own now xs
  unfolding own sum
  own-later now passed [] = omega arith
  own-later now passed (x ∷ xs) = let later = own-later now passed xs in ground (arith, later)

  own-all : (now : ℕ) (xs : List Stored) → own now xs ≤ sum now xs
  unfolding own sum
  own-all now [] = omega arith
  own-all now (x ∷ xs) = let later = own-all now xs in ground (arith, later)

  own-kept : (now t : ℕ) (xs : List Stored) → own now (kept t xs) ≤ own now xs
  unfolding own sum kept
  own-kept now t [] = omega arith
  own-kept now t (x ∷ xs) = let later = own-kept now t xs in ground (arith, later)

  own-same : (now : ℕ) (xs ys : List Stored) → xs ≡ ys → own now xs ≤ own now ys
  own-same now xs ys e = rw e (omega arith)

  -- An entry adds at most its count, and nothing if it is another instance's.
  own-set :
      (now : ℕ) (x : Stored) (xs : List Stored)
      → (own now (set x xs) ≤ own now xs + x.count)
        × (mine x.uuid ≡ false → own now (set x xs) ≤ own now xs)
  unfolding own sum set
  own-set now x [] = (ground arith, λ other. ground (arith, other))
  own-set now x (y ∷ ys) =
      let later = own-set now x ys in
      let same : str_eq y.uuid x.uuid ≡ true → mine y.uuid ≡ mine x.uuid =
        λ e. ap mine ((eq_iff y.uuid x.uuid).0 e) in
      (ground (arith, later.0), λ other. ground (arith, other, later.1 other, same))

  find-uuid : (u : String) (x : Stored) (xs : List Stored) → find u xs ≡ some x → x.uuid ≡ u
  find-uuid u x [] e = absurd (ground (arith, e))
  find-uuid u x (y ∷ ys) e = elim (Bool-cases (str_eq y.uuid u)) [
    | inl here ↦ ground (arith, e, here, (eq_iff y.uuid u).0 here)
    | inr there ↦ find-uuid u x ys (ground (arith, e, there))
  ]

  -- To set what is there already changes nothing.
  set-find : (u : String) (x : Stored) (xs : List Stored) → find u xs ≡ some x → set x xs ≡ xs
  unfolding set
  set-find u x [] e = absurd (ground (arith, e))
  set-find u x (y ∷ ys) e =
      let at_u = find-uuid u x (y ∷ ys) e in
      elim (Bool-cases (str_eq y.uuid u)) [
        | inl here ↦ ground (arith, e, here, at_u)
        | inr there ↦ ground (arith, e, there, at_u, set-find u x ys)
      ]

  on_message-own :
      (now t : ℕ) (to : Topic) (m : Option (ℕ × ℕ)) (c : Mqtt)
      → mine (key c.queue to) ≡ false
      → (own now (on_message t to m c).store ≤ own now c.store)
        × ((on_message t to m c).max_batch ≡ c.max_batch)
  unfolding on_message
  on_message-own now t to none c other = (omega arith, refl)
  on_message-own now t to (some (n, e)) c other =
      let x : Stored = record { uuid = key c.queue to; count = n; expires = e } in
      let less = (own-set now x c.store).1 other in ground (arith, less)

  read_balance-left :
      (now b : ℕ) (i : Instance)
      → (read_balance now i).0 ≡ ok b
      → b ≤ i.mqtt.max_batch - own now i.mqtt.store
  unfolding read_balance get_balance
  read_balance-left now b i e = let all = own-all now i.mqtt.store in ground (arith, all, e)

  read_balance-used :
      (now : ℕ) (i : Instance)
      → (own now (read_balance now i).1.store ≤ own now i.mqtt.store)
        × ((read_balance now i).1.max_batch ≡ i.mqtt.max_batch)
  unfolding read_balance get_balance
  read_balance-used now i = let less = own-kept now now i.mqtt.store in ground (arith, less)

  increment-used :
      (now n : ℕ) (uuid : String) (c : Mqtt)
      → (own now (increment now uuid n c).1.store ≤ own now c.store + n)
        × ((increment now uuid n c).1.max_batch ≡ c.max_batch)
  unfolding increment
  increment-used now n uuid c =
      let more =
        (own-set now (record { uuid = uuid; count = n; expires = now + c.interval }) c.store).0 in
      ground (arith, more)

echo-store :
    (now : ℕ) (o : Option Stored) (i : Instance)
    → ((x : Stored) → o ≡ some x → set x i.mqtt.store ≡ i.mqtt.store)
    → ((echo now o i).mqtt.store ≡ i.mqtt.store)
      × ((echo now o i).mqtt.max_batch ≡ i.mqtt.max_batch)
unfolding happen on_message
echo-store now none i h = (refl, refl)
echo-store now (some x) i h =
    rw (starts_with-own i.mqtt.queue x.uuid, key-own i.mqtt.queue x.uuid) (ground (arith, h x refl))

empty_all-max_batch : (xs : List Stored) (c : Mqtt) → (empty_all xs c).max_batch ≡ c.max_batch
unfolding empty_all
empty_all-max_batch [] c = refl
empty_all-max_batch (x ∷ xs) c = empty_all-max_batch xs (ask (publish (topic c x.uuid) none) c)

module _ (mine : String → Bool) where
  foreign-own :
      (t now : ℕ) (x : Foreign) (h : Held)
      → (counted mine now (foreign mine t x h) ≤ counted mine now h)
        × (quota mine (foreign mine t x h) ≡ quota mine h)
  unfolding foreign happen on_connection on_close on_error own
  foreign-own t now connected h = (omega arith, refl)
  foreign-own t now closed h = (omega arith, refl)
  foreign-own t now (failed e) h = (omega arith, refl)
  foreign-own t now (received to m) h =
      let c : Mqtt = h.instance.mqtt in
      elim (Bool-cases (holds mine h.cleared (key c.queue to))) [
        | inl held ↦ rw held (omega arith, refl)
        | inr other ↦ rw other (on_message-own (holds mine h.cleared) now t to m c other)
      ]
  foreign-own t now (echoed u) h =
      let i : Instance = h.instance in
      let (same, limit) =
        echo-store t (find u i.mqtt.store) i
          (λ x e. set-find (holds mine h.cleared) u x i.mqtt.store e) in
      (own-same (holds mine h.cleared) now _ _ same, limit)

  reset-used :
      (now : ℕ) (c : Mqtt) (cleared : List String)
      → (own (holds mine cleared) now (reset c).store ≡ 0) × ((reset c).max_batch ≡ c.max_batch)
  unfolding reset own sum
  reset-used now c cleared = (refl, empty_all-max_batch c.store c)

  module _ {E : Type 0} (failure : String → E) where
    to_number-left :
        (now b : ℕ) (h : Held)
        → to_number mine failure (read_balance now h.instance).0 ≡ ok (some b)
        → b ≤ quota mine h - own (holds mine h.cleared) now h.instance.mqtt.store
    to_number-left now b h e = elim (Result-cases (read_balance now h.instance).0) [
      | inl (n, f) ↦
          read_balance-left (holds mine h.cleared) now b h.instance (ground (arith, e, f))
      | inr (x, f) ↦ absurd (ground (arith, e, f))
    ]

    pub mqtt-Counts : Counts mine (mqtt_store mine failure) (counted mine) (quota mine)
    unfolding mqtt_store own
    mqtt-Counts = record {
      later = λ now passed h. own-later (holds mine h.cleared) now passed h.instance.mqtt.store;
      foreign_used = λ t now x h. foreign-own t now x h;
      balance_left = λ now lasts b a h e. to_number-left now b h e;
      balance_used = λ now lasts a h. read_balance-used (holds mine h.cleared) now h.instance;
      increment_used =
          λ now n a uuid h drawn. increment-used (holds mine h.cleared) now n uuid h.instance.mqtt;
      reset_used = λ now a h.
          let less = reset-used now h.instance.mqtt (uuids h.instance.mqtt.store ++ h.cleared) in
          (omega (arith, less.0), less.1);
      shutdown_used = λ now h. unfold shutdown in (omega arith, refl);
    }
