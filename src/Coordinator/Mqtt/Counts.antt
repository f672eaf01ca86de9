-- ===== src/Coordinator/Mqtt/Counts.antt =====
-- What an instance counts.
use rabbitmqtobucketqueue.Common.{
  ℕ, ◌+◌, ◌-◌, ◌≤◌, ◌≡◌, ap, ◌∙◌, sym, true, false, if◌then◌else◌, ltb, some, none, List, [], ◌∷◌,
  refl, String, ok, arith,
}
use rabbitmqtobucketqueue.Coordinator.Mqtt.{
  Stored, set, ask, publish, empty_all, reset, Mqtt, topic, stored, sum, kept, increment,
  get_balance, on_message,
}
use rabbitmqtobucketqueue.Coordinator.Mqtt.Topics.{starts_with-own, key-own}
use rabbitmqtobucketqueue.Coordinator.Mqtt.Store.{has, set-set, sum-set, sum-kept}

balance_of :
    (now : ℕ) (c : Mqtt)
    → c.connected ≡ true
    → c.client_connected ≡ true
    → get_balance true now c
      ≡ (ok (c.max_batch - sum now c.store), record c { store = kept now c.store })
unfolding get_balance
balance_of now c h k = ground (arith, h, k)

-- A message of the own queue, as it is stored if it has not expired.
on_message-own :
    (later : ℕ) (uuid : String) (count expires : ℕ) (c : Mqtt)
    → let x : Stored = record { uuid = uuid; count = count; expires = expires } in
      on_message later (topic c uuid) (some (count, expires)) c
      ≡ (if ltb later expires then record c { store = set x c.store } else c)
unfolding on_message
on_message-own later uuid count expires c =
    rw (starts_with-own c.queue uuid, key-own c.queue uuid) refl

empty_all-fields :
    (xs : List Stored) (c : Mqtt)
    → ((empty_all xs c).queue ≡ c.queue) × ((empty_all xs c).interval ≡ c.interval)
unfolding empty_all
empty_all-fields [] c = (refl, refl)
empty_all-fields (x ∷ xs) c = empty_all-fields xs (ask (publish (topic c x.uuid) none) c)

-- The broker sends an instance its own messages too. The message of an increment changes nothing if
-- it comes back right after it, and so is not counted twice. After a reset, which has emptied the
-- store, it is stored again unless it has expired, so that what the reset cleared counts again.
pub on_message-increment :
    (now later : ℕ) (uuid : String) (count : ℕ) (c : Mqtt)
    → c.connected ≡ true
    → let c' = (increment now uuid count c).1 in
      let back : Mqtt → Mqtt = on_message later (topic c uuid) (some (count, now + c.interval)) in
      (back c' ≡ c')
      × ((reset c').store ≡ [])
      × ((back (reset c')).store
          ≡ (if ltb later (now + c.interval) then stored c uuid count now ∷ [] else []))
unfolding increment reset
on_message-increment now later uuid count c h =
    let c' : Mqtt = (increment now uuid count c).1 in
    let same : c'.queue ≡ c.queue = ground (arith, h) in
    let x = stored c uuid count now in
    let kept_fields = empty_all-fields c'.store c' in
    let emptied : Mqtt = reset c' in
    let queue : emptied.queue ≡ c.queue = kept_fields.0 ∙ same in
    (
      ap
            (λ q.
              on_message later (record { queue = q; uuid = uuid }) (some (count, now + c.interval))
                c')
            (sym same)
          ∙ on_message-own later uuid count (now + c.interval) c'
          ∙ ground (arith, h, set-set x c.store),
      refl,
      ap
            (λ q.
              (on_message later (record { queue = q; uuid = uuid }) (some (count, now + c.interval))
                emptied).store)
            (sym queue)
          ∙ ap (λ m. m.store) (on_message-own later uuid count (now + c.interval) emptied)
          ∙ unfold set in ground arith,
    )

-- What is left of a quota, as a connected client reads it.
abbrev pub left : ℕ → Mqtt → ℕ
left now c = c.max_batch - sum now c.store

-- Reading the balance deletes what has expired, and no later read can tell: it gives what it would
-- have given without the first.
pub get_balance-again :
    (now later : ℕ) (c : Mqtt)
    → now ≤ later
    → c.connected ≡ true
    → c.client_connected ≡ true
    → let (r, c') = get_balance true now c in
      (r ≡ ok (left now c)) × ((get_balance true later c').0 ≡ (get_balance true later c).0)
get_balance-again now later c h k l =
    let first = balance_of now c k l in
    let c' : Mqtt = record c { store = kept now c.store } in
    let unread : (get_balance true later c').0 ≡ ok (c.max_batch - sum later (kept now c.store)) =
      ap (λ p. p.0) (balance_of later c' k l) in
    let second : (get_balance true later c).0 ≡ ok (left later c) =
      ap (λ p. p.0) (balance_of later c k l) in
    (
      ap (λ p. p.0) first,
      ap (λ p. (get_balance true later p.1).0) first
          ∙ unread
          ∙ ap (λ (n : ℕ). ok (c.max_batch - n)) (sum-kept now later c.store h)
          ∙ sym second,
    )

-- An increment under a new uuid takes its count off the balance until its interval has passed, and
-- from then on has no effect on it.
pub get_balance-increment :
    (now later : ℕ) (uuid : String) (count : ℕ) (c : Mqtt)
    → c.connected ≡ true
    → c.client_connected ≡ true
    → has uuid c.store ≡ false
    → let c' = (increment now uuid count c).1 in
      (get_balance true later c').0
      ≡ ok (c.max_batch - (sum later c.store + (if ltb (now + c.interval) later then 0 else count)))
unfolding increment get_balance
get_balance-increment now later uuid count c h k fresh =
    ground (arith, h, k, sum-set later (stored c uuid count now) c.store fresh)
