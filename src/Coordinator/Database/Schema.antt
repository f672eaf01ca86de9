-- ===== src/Coordinator/Database/Schema.antt =====
-- database.ts, the static methods: the coordinator's table is created, dropped and looked for.
use rabbitmqtobucketqueue.Common.{
  ◌≡◌, refl, Bool, true, false, not, ◌||◌, if◌then◌else◌, List, [], ◌∷◌, String, str_eq, Result, ok,
  err, Unit₀, arith, eq_iff,
}

abbrev pub contains : String → List String → Bool
contains c [] = false
contains c (x ∷ xs) = str_eq x c || contains c xs

-- The schema part of knex over a database `D`: which tables there are and which columns they have.
pub record Schema (D : Type 0) : Type 0 where
  pub has_table : String → D → Bool
  pub has_column : String → String → D → Bool
  pub create_table : String → List String → D → D
  pub drop_table : String → D → D
  pub has_table-create :
      (t : String) (cs : List String) (d : D) → has_table t (create_table t cs d) ≡ true
  pub has_table-drop : (t : String) (d : D) → has_table t (drop_table t d) ≡ false
  -- A new table has the columns that it was created with.
  pub has_column-create :
      (t c : String) (cs : List String) (d : D)
      → has_column t c (create_table t cs d) ≡ contains c cs

pub data Error : Type 0 where
  already_exists : String → Error
  does_not_exist : String → Error
  expected_column : String → String → Error

abbrev pub columns : List String
columns = "id" ∷ "uuid" ∷ "queue" ∷ "count" ∷ "expires_at" ∷ []

module _ {D : Type 0} (sql : Schema D) where
  pub prepare : String → Bool → D → Result Error Unit₀ × D
  prepare table expect_clean d =
      if not (sql.has_table table d)
      then (ok tt, sql.create_table table columns d)
      else if expect_clean
      then (err (already_exists table), d)
      else (ok tt, d)

  pub cleanup : String → Bool → D → Result Error Unit₀ × D
  cleanup table expect_dirty d =
      if sql.has_table table d
      then (ok tt, sql.drop_table table d)
      else if expect_dirty
      then (err (does_not_exist table), d)
      else (ok tt, d)

  -- The loop over the expected columns.
  check_columns : String → List String → D → Result Error Bool
  check_columns table [] d = ok true
  check_columns table (col ∷ cols) d =
      let rest = check_columns table cols d in
      if not (sql.has_column table col d) then err (expected_column table col) else rest

  pub prepared : String → D → Result Error Bool
  prepared table d = if not (sql.has_table table d) then ok false else check_columns table columns d

  check_columns-create :
      (table : String) (cs ds : List String) (d : D)
      → ((c : String) → contains c ds ≡ true → contains c cs ≡ true)
      → check_columns table ds (sql.create_table table cs d) ≡ ok true
  unfolding check_columns
  check_columns-create table cs [] d h = refl
  check_columns-create table cs (c ∷ ds) d h = ground (
    arith,
    sql.has_column-create table c cs d,
    h c,
    eq_iff c c,
    check_columns-create table cs ds d (λ x k. h x (ground (arith, k))),
  )

  -- Preparing a database that has no such table makes it prepared, and cleaning it up undoes that;
  -- the `expect` flags turn the case in which there is nothing to do into an error that changes
  -- nothing.
  pub prepare-cleanup :
      (table : String) (e f : Bool) (d : D)
      → sql.has_table table d ≡ false
      → let d' = (prepare table e d).1 in
        let d'' = (cleanup table f d').1 in
        ((prepare table e d).0 ≡ ok tt)
        × (prepared table d' ≡ ok true)
        × (prepare table true d' ≡ (err (already_exists table), d'))
        × ((cleanup table f d').0 ≡ ok tt)
        × (prepared table d'' ≡ ok false)
        × (cleanup table true d'' ≡ (err (does_not_exist table), d''))
  unfolding prepare cleanup prepared
  prepare-cleanup table e f d h =
      let there = sql.has_table-create table columns d in
      let gone = sql.has_table-drop table (sql.create_table table columns d) in
      let whole = check_columns-create table columns columns d (λ c k. k) in
      rw h (rw (there, gone) (refl, whole, refl, refl, refl, refl))
