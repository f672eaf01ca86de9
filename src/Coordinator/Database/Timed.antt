-- ===== src/Coordinator/Database/Timed.antt =====
-- The database coordinator of one instance, over a table that other instances change, and a
-- database that may fail to answer.
use rabbitmqtobucketqueue.Common.{
  ℕ, ◌+◌, ◌-◌, ◌≤◌, ◌≡◌, refl, Bool, true, false, ◌&&◌, if◌then◌else◌, List, [], ◌∷◌, some, filter,
  String, Result, Unit₀, ok, err, arith,
}
use rabbitmqtobucketqueue.Coordinator.{Number}
use rabbitmqtobucketqueue.Coordinator.Shared.{Store, Counts}
use rabbitmqtobucketqueue.Coordinator.Database.{
  Row, sum, Sql, Database, is_live, increment, reset, declutter, get_balance, get_balance-sum,
}

-- A call of another instance at a time of its own clock: it draws no uuid that this instance draws.
pub data Foreign (mine : String → Bool) : Type 0 where
  increments : Database → ℕ → (uuid : String) → ℕ → mine uuid ≡ false → Foreign mine
  resets : Database → Foreign mine
  declutters : ℕ → Foreign mine

-- A coordinator and the table.
pub record Held (D : Type 0) : Type 0 where
  pub database : Database
  pub table : D

module _ (mine : String → Bool) {D : Type 0} (sql : Sql D) where
  abbrev pub foreign : Foreign mine → D → D
  foreign (increments c t uuid n other) d = increment sql c t uuid n d
  foreign (resets c) d = reset sql c d
  foreign (declutters t) d = declutter sql t d

  module _ {E : Type 0} (failure : E) where
    -- A call that is not answered rejects, and changes nothing.
    abbrev pub balance_with : Bool → ℕ → Held D → Result E Number
    balance_with answers now s =
        if answers then ok (some (get_balance sql s.database now s.table)) else err failure

    abbrev pub increment_with : Bool → ℕ → String → ℕ → Held D → Result E Unit₀ × Held D
    increment_with answers now uuid n s =
        if answers
        then (ok tt, record s { table = increment sql s.database now uuid n s.table })
        else (err failure, s)

    abbrev pub reset_with : Bool → Held D → Result E Unit₀ × Held D
    reset_with answers s =
        if answers
        then (ok tt, record s { table = reset sql s.database s.table })
        else (err failure, s)

    -- `shutdown` is inherited, and does nothing.
    unfoldable pub database_store : Store E (Held D) (Foreign mine)
    database_store = record {
      get_balance = λ now lasts answers s. (balance_with answers now s, s);
      increment = λ now answers uuid n s. increment_with answers now uuid n s;
      reset = λ now answers s. reset_with answers s;
      shutdown = λ s. (ok tt, s);
      foreign = λ t x s. record s { table = foreign x s.table };
    }

  -- What this instance has counted for the queue and has not expired, and the quota.
  abbrev pub counted : ℕ → Held D → ℕ
  counted now s =
      sum (filter (λ r. mine r.uuid && is_live s.database.queue now r) (sql.rows s.table))

  abbrev pub quota : Held D → ℕ
  quota s = s.database.max_batch

sum-filter : (p f : Row → Bool) (rs : List Row) → sum (filter p (filter f rs)) ≤ sum (filter p rs)
sum-filter p f [] = omega arith
sum-filter p f (r ∷ rs) = let later = sum-filter p f rs in ground (arith, later)

module _ (mine : String → Bool) where
  -- The count of an instance among rows, at a time.
  own : String → ℕ → List Row → ℕ
  own q now rs = sum (filter (λ r. mine r.uuid && is_live q now r) rs)

  -- Later no more rows are live, and those of one instance are some of all.
  own-later : (q : String) (now passed : ℕ) (rs : List Row) → own q (now + passed) rs ≤ own q now rs
  unfolding own
  own-later q now passed [] = omega arith
  own-later q now passed (r ∷ rs) = let later = own-later q now passed rs in ground (arith, later)

  own-all : (q : String) (now : ℕ) (rs : List Row) → own q now rs ≤ sum (filter (is_live q now) rs)
  unfolding own
  own-all q now [] = omega arith
  own-all q now (r ∷ rs) = let later = own-all q now rs in ground (arith, later)

  module _ {D : Type 0} (sql : Sql D) where
    foreign-own :
        (q : String) (now : ℕ) (x : Foreign mine) (d : D)
        → own q now (sql.rows (foreign mine sql x d)) ≤ own q now (sql.rows d)
    unfolding own increment reset declutter
    foreign-own q now (increments c t uuid n other) d = rw (sql.rows-insert) (ground (arith, other))
    foreign-own q now (resets c) d = rw (sql.rows-del_where) (sum-filter _ _ (sql.rows d))
    foreign-own q now (declutters t) d = rw (sql.rows-del_where) (sum-filter _ _ (sql.rows d))

    -- A row adds at most its count.
    increment-own :
        (c : Database) (now n : ℕ) (uuid : String) (d : D)
        → own c.queue now (sql.rows (increment sql c now uuid n d))
          ≤ own c.queue now (sql.rows d) + n
    unfolding own increment
    increment-own c now n uuid d = rw (sql.rows-insert) (ground arith)

    balance-own :
        (c : Database) (now : ℕ) (d : D)
        → get_balance sql c now d ≤ c.max_batch - own c.queue now (sql.rows d)
    balance-own c now d =
        let all = own-all c.queue now (sql.rows d) in
        let read = get_balance-sum sql c now d in omega (arith, all, read)

    module _ {E : Type 0} (failure : E) where
      balance_with-left :
          (answers : Bool) (now b : ℕ) (s : Held D)
          → balance_with mine sql failure answers now s ≡ ok (some b)
          → b ≤ quota mine sql s - own s.database.queue now (sql.rows s.table)
      balance_with-left false now b s e = absurd (ground (arith, e))
      balance_with-left true now b s e =
          let read = balance-own s.database now s.table in ground (arith, e, read)

      increment_with-used :
          (answers : Bool) (now n : ℕ) (uuid : String) (s : Held D)
          → let s' = (increment_with mine sql failure answers now uuid n s).1 in
            (counted mine sql now s' ≤ counted mine sql now s + n)
            × (quota mine sql s' ≡ quota mine sql s)
      increment_with-used false now n uuid s = (omega arith, refl)
      increment_with-used true now n uuid s =
          (unfold own in increment-own s.database now n uuid s.table, refl)

      reset_with-used :
          (answers : Bool) (now : ℕ) (s : Held D)
          → let s' = (reset_with mine sql failure answers s).1 in
            (counted mine sql now s' ≤ counted mine sql now s)
            × (quota mine sql s' ≡ quota mine sql s)
      reset_with-used false now s = (omega arith, refl)
      reset_with-used true now s =
          let less = foreign-own s.database.queue now (resets s.database) s.table in
          (unfold own in less, refl)

      pub database-Counts :
          Counts mine (database_store mine sql failure) (counted mine sql) (quota mine sql)
      unfolding database_store own
      database-Counts = record {
        later = λ now passed s. own-later s.database.queue now passed (sql.rows s.table);
        foreign_used = λ t now x s. (foreign-own s.database.queue now x s.table, refl);
        balance_left = λ now lasts b a s e. balance_with-left a now b s e;
        balance_used = λ now lasts a s. (omega arith, refl);
        increment_used = λ now n a uuid s drawn. increment_with-used a now n uuid s;
        reset_used = λ now a s. reset_with-used a now s;
        shutdown_used = λ now s. (omega arith, refl);
      }
