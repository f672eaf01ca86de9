-- ===== src/Coordinator/Mqtt/Store.antt =====
-- The store as a map.
use rabbitmqtobucketqueue.Common.{
  ℕ, ◌+◌, ◌≤◌, ◌≡◌, refl, Bool, false, ◌||◌, if◌then◌else◌, ltb, List, [], ◌∷◌, String, str_eq,
  eq_iff, arith,
}
use rabbitmqtobucketqueue.Coordinator.Mqtt.{Stored, set, kept, sum}

abbrev pub has : String → List Stored → Bool
has u [] = false
has u (x ∷ xs) = str_eq x.uuid u || has u xs

pub set-set : (x : Stored) (xs : List Stored) → set x (set x xs) ≡ set x xs
unfolding set
set-set x [] = ground (arith, eq_iff x.uuid x.uuid)
set-set x (y ∷ ys) = ground (arith, eq_iff x.uuid x.uuid, set-set x ys)

pub sum-set :
    (now : ℕ) (x : Stored) (xs : List Stored)
    → has x.uuid xs ≡ false
    → sum now (set x xs) ≡ sum now xs + (if ltb x.expires now then 0 else x.count)
unfolding set sum
sum-set now x [] h = ground arith
sum-set now x (y ∷ ys) h = ground (arith, sum-set now x ys, h)

pub sum-kept :
    (now later : ℕ) (xs : List Stored) → now ≤ later → sum later (kept now xs) ≡ sum later xs
unfolding sum kept
sum-kept now later [] h = refl
sum-kept now later (x ∷ xs) h = ground (arith, h, sum-kept now later xs h)
