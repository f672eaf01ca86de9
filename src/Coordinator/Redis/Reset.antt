-- ===== src/Coordinator/Redis/Reset.antt =====
-- A reset forgets the keys of a queue.
use rabbitmqtobucketqueue.Common.{ℕ, ◌≡◌, true, List, [], ◌∷◌, String}
use rabbitmqtobucketqueue.Coordinator.Redis.{Entry, has_key, is_live, Redis}

module _ {D : Type 0} (redis : Redis D) where
  -- Every entry that is live is among the keys.
  abbrev Covers : String → ℕ → List Entry → List Entry → Type 0
  Covers q now keys [] = Unit {0}
  Covers q now keys (e ∷ es) =
      (is_live q now e ≡ true → has_key e keys ≡ true) × Covers q now keys es
