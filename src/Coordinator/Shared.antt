-- ===== src/Coordinator/Shared.antt =====
-- A coordinator whose instances share their counts, as a driver of one instance, while time passes
-- between its calls, other instances and the network act, and calls fail. The database, Redis and
-- MQTT coordinators are three of them.
use rabbitmqtobucketqueue.Common.{
  ℕ, ◌+◌, ◌-◌, ◌≤◌, ◌≡◌, Bool, true, String, List, [], ◌∷◌, Result, ok, Unit₀, some,
}
use rabbitmqtobucketqueue.Coordinator.{Driver, Number}

-- The calls of one instance, on its state together with what it shares, at a time in milliseconds;
-- `X` is what others do. A call is told whether it is answered, a read of the balance how long it
-- takes, and an increment which uuid it draws.
pub record Store (E D X : Type 0) : Type 0 where
  pub get_balance : ℕ → ℕ → Bool → D → Result E Number × D
  pub increment : ℕ → Bool → String → ℕ → D → Result E Unit₀ × D
  pub reset : ℕ → Bool → D → Result E Unit₀ × D
  pub shutdown : D → Result E Unit₀ × D
  pub foreign : ℕ → X → D → D

-- A call to come: how long after the one before, what others do before it, whether it is answered,
-- how long it takes, and the uuid that is drawn, one of those that only this instance draws.
pub record Visit (mine : String → Bool) (X : Type 0) : Type 0 where
  pub passed : ℕ
  pub others : List X
  pub answers : Bool
  pub lasts : ℕ
  pub uuid : String
  pub drawn : mine uuid ≡ true

-- The calls after those that are foreseen are made at once, and `idle` says how.
pub record Timed (mine : String → Bool) (D X : Type 0) : Type 0 where
  pub store : D
  pub now : ℕ
  pub visits : List (Visit mine X)
  pub idle : Visit mine X

unfoldable pub all_foreign : {E D X : Type 0} → Store E D X → ℕ → List X → D → D
all_foreign store now [] d = d
all_foreign store now (x ∷ xs) d = all_foreign store now xs (store.foreign now x d)

module _ {mine : String → Bool} {E D X : Type 0} (store : Store E D X) where
  abbrev pub visited : Visit mine X → List (Visit mine X) → Timed mine D X → Timed mine D X
  visited v vs s = record s {
    now = s.now + v.passed;
    store = all_foreign store (s.now + v.passed) v.others s.store;
    visits = vs;
  }

  abbrev pub visit : List (Visit mine X) → Visit mine X → Visit mine X
  visit [] idle = idle
  visit (v ∷ vs) idle = v

  abbrev pub rest : List (Visit mine X) → List (Visit mine X)
  rest [] = []
  rest (v ∷ vs) = vs

  abbrev pub next : Timed mine D X → Visit mine X
  next s = visit s.visits s.idle

  -- The state when the next call is made.
  unfoldable pub arrive : Timed mine D X → Timed mine D X
  unfolding all_foreign
  arrive s = visited (next s) (rest s.visits) s

  -- What a call gives, as a state.
  abbrev pub answered :
      {A : Type 0} → Timed mine D X → ℕ → Result E A × D → Result E A × Timed mine D X
  answered s lasts (r, d) = (r, record s { store = d; now = s.now + lasts })

  unfoldable pub shared_driver : Driver E (Timed mine D X)
  unfolding arrive
  shared_driver = record {
    balance = λ s.
        let s' = arrive s in
        let v = next s in answered s' v.lasts (store.get_balance s'.now v.lasts v.answers s'.store);
    increment = λ n s.
        let s' = arrive s in
        let v = next s in answered s' v.lasts (store.increment s'.now v.answers v.uuid n s'.store);
    reset = λ s.
        let s' = arrive s in
        let v = next s in answered s' v.lasts (store.reset s'.now v.answers s'.store);
    shutdown = λ s. answered s 0 (store.shutdown s.store);
  }

-- The store counts what this instance has used, at a time, of a limit: with time it forgets some of
-- it, others add nothing to it, and a balance that is read is no more than what is left.
pub record Counts (mine : String → Bool) {E D X : Type 0} (store : Store E D X) (used : ℕ → D → ℕ)
    (limit : D → ℕ) : Type 0 where
  pub later : (now passed : ℕ) (d : D) → used (now + passed) d ≤ used now d
  pub foreign_used :
      (t now : ℕ) (x : X) (d : D)
      → (used now (store.foreign t x d) ≤ used now d) × (limit (store.foreign t x d) ≡ limit d)
  pub balance_left :
      (now lasts b : ℕ) (a : Bool) (d : D)
      → (store.get_balance now lasts a d).0 ≡ ok (some b)
      → b ≤ limit d - used now d
  pub balance_used :
      (now lasts : ℕ) (a : Bool) (d : D)
      → let d' = (store.get_balance now lasts a d).1 in
        (used now d' ≤ used now d) × (limit d' ≡ limit d)
  pub increment_used :
      (now n : ℕ) (a : Bool) (uuid : String) (d : D)
      → mine uuid ≡ true
      → let d' = (store.increment now a uuid n d).1 in
        (used now d' ≤ used now d + n) × (limit d' ≡ limit d)
  pub reset_used :
      (now : ℕ) (a : Bool) (d : D)
      → let d' = (store.reset now a d).1 in (used now d' ≤ used now d) × (limit d' ≡ limit d)
  pub shutdown_used :
      (now : ℕ) (d : D)
      → let d' = (store.shutdown d).1 in (used now d' ≤ used now d) × (limit d' ≡ limit d)
