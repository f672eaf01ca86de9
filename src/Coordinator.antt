-- ===== src/Coordinator.antt =====
-- contracts/CoordinatorDriver.ts and abstracts/CoordinatorDriverBase.ts: what a coordination driver
-- offers, and the static methods that a driver inherits.
pub mod Memory
pub mod Database
pub mod Redis
pub mod Mqtt
pub mod Shared
use rabbitmqtobucketqueue.Common.{
  ℕ, Bool, true, false, not, ◌&&◌, if◌then◌else◌, Option, String, Result, ok, err, Unit₀, ◌≡◌, refl,
}

-- A number of JavaScript that a balance may be; `none` is NaN.
abbrev pub Number : Type 0
Number = Option ℕ

-- The methods of `CoordinatorDriver` that the consumer calls, over a driver's state `C`; a promise
-- that rejects is an `err`. A read of the balance may change the state, as it does for MQTT.
pub record Driver (E C : Type 0) : Type 0 where
  pub balance : C → Result E Number × C
  pub increment : ℕ → C → Result E Unit₀ × C
  pub reset : C → Result E Unit₀ × C
  pub shutdown : C → Result E Unit₀ × C

-- CoordinatorTestFailedError.ts, with its cause.
pub data TestFailed (E : Type 0) : Type 0 where
  coordinator_test_failed : E → TestFailed E

-- A test that wraps the error of the call that it makes.
abbrev pub tested : {E A : Type 0} → Result E A → Result (TestFailed E) Unit₀
tested (ok a) = ok tt
tested (err e) = err (coordinator_test_failed e)

-- The static `prepared` of the base class; a driver may have its own.
pub prepared : {O : Type 0} → O → Bool
prepared options = false

-- `prepare` and `cleanup` call the `prepared` of the class that they are called on.
pub prepare : {O : Type 0} → (O → Bool) → O → Bool → Result String Unit₀
prepare prepared options expect_clean =
    let dirty = prepared options in
    if dirty && expect_clean then err "Coordinator is not clean" else ok tt

pub cleanup : {O : Type 0} → (O → Bool) → O → Bool → Result String Unit₀
cleanup prepared options expect_dirty =
    let dirty = prepared options in
    if not dirty && expect_dirty then err "Coordinator is clean" else ok tt

-- For a driver that keeps the inherited `prepared`, `prepare` never fails, and `cleanup` fails
-- exactly when it is told to expect something to clean up.
pub base_lifecycle :
    {O : Type 0} (options : O) (expect : Bool)
    → (prepare prepared options expect ≡ ok tt)
      × (cleanup prepared options expect ≡ (if expect then err "Coordinator is clean" else ok tt))
unfolding prepare cleanup prepared
base_lifecycle options true = (refl, refl)
base_lifecycle options false = (refl, refl)
