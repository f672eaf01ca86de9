-- ===== src/Coordinator/Database.antt =====
-- src/coordinators/database.ts: one row for each increment, in a table that the instances share.
-- The SQL database (knex) is the parameter `Sql`: its rows, and what the statements do to them.
pub mod History
pub mod Schema
pub mod Timed
use rabbitmqtobucketqueue.Common.{
  ℕ, ◌+◌, ◌-◌, ◌≤◌, ◌<◌, ◌≡◌, refl, Bool, true, false, not, ◌&&◌, if◌then◌else◌, ltb, leb, List, [],
  ◌∷◌, filter, map, String, str_eq, Result, ok, Unit₀, arith,
}
use rabbitmqtobucketqueue.Coordinator.{TestFailed, tested}
use rabbitmqtobucketqueue.Common.Int.{ℤ, sub_ℕ, is_at_most_zero, pos_part}

-- Times are milliseconds.
pub record Row : Type 0 where
  pub uuid : String
  pub queue : String
  pub count : ℕ
  pub expires_at : ℕ

abbrev pub sum : List Row → ℕ
sum [] = 0
sum (r ∷ rs) = r.count + sum rs

-- What `SUM(count)` comes back as: a number, a text (bigint sums of some drivers), or null.
pub data Count : Type 0 where
  number : ℕ → Count
  text : String → Count
  missing : Count

-- A count that denotes the sum of the rows; the sum of no rows may be null.
pub data Denotes (parse_int : String → ℕ) (rows : List Row) : Count → Type 0 where
  as_number : Denotes parse_int rows (number (sum rows))
  as_text : (s : String) → parse_int s ≡ sum rows → Denotes parse_int rows (text s)
  as_null : sum rows ≡ 0 → Denotes parse_int rows missing

-- A table `D` behind knex: what its statements do to the rows, as SQL documents it.
pub record Sql (D : Type 0) : Type 0 where
  pub rows : D → List Row
  pub insert : Row → D → D
  pub del_where : (Row → Bool) → D → D
  pub sum_where : (Row → Bool) → D → Count
  pub parse_int : String → ℕ
  pub rows-insert : (r : Row) (d : D) → rows (insert r d) ≡ r ∷ rows d
  pub rows-del_where :
      (p : Row → Bool) (d : D) → rows (del_where p d) ≡ filter (λ r. not (p r)) (rows d)
  pub sum_where_lem :
      (p : Row → Bool) (d : D) → Denotes parse_int (filter p (rows d)) (sum_where p d)

pub record Database : Type 0 where
  pub queue : String
  pub max_batch : ℕ
  pub interval : ℕ

-- The row is of this queue and has not expired.
abbrev pub is_live : String → ℕ → Row → Bool
is_live queue now r = str_eq r.queue queue && ltb now r.expires_at

-- `raw` is what the database answers to `select 1+1 as result`.
abbrev pub test : {E A : Type 0} → Result E A → Result (TestFailed E) Unit₀
test raw = tested raw

module _ {D : Type 0} (sql : Sql D) where
  unfoldable pub increment : Database → ℕ → String → ℕ → D → D
  increment c now uuid count d = sql.insert to_insert d
    where
      to_insert : Row
      to_insert = record {
        uuid = uuid;
        queue = c.queue;
        count = count;
        expires_at = now + c.interval;
      }

  unfoldable pub reset : Database → D → D
  reset c d = sql.del_where (λ r. str_eq r.queue c.queue) d

  unfoldable pub declutter : ℕ → D → D
  declutter now d = sql.del_where (λ r. leb r.expires_at now) d

  -- The `switch` on the type of the sum.
  unfoldable pub difference : ℕ → Count → ℤ
  difference max_batch (number count) = sub_ℕ max_batch count
  difference max_batch (text count) = sub_ℕ max_batch (sql.parse_int count)
  difference max_batch missing = ℤ.pos max_batch

  unfoldable pub get_balance : Database → ℕ → D → ℕ
  unfolding difference
  get_balance c now d =
      let balance = difference c.max_batch (sql.sum_where (is_live c.queue now) d) in
      if is_at_most_zero balance then 0 else pos_part balance

  difference_lem :
      (m : ℕ) (rs : List Row) (n : Count)
      → Denotes sql.parse_int rs n
      → (if is_at_most_zero (difference m n) then 0 else pos_part (difference m n)) ≡ m - sum rs
  unfolding difference
  difference_lem m rs _ as_number = ground arith
  difference_lem m rs _ (as_text s e) = ground arith
  difference_lem m rs _ (as_null e) = ground arith

  -- The balance is the quota less the counts of the queue's rows that have not expired, and 0 once
  -- these reach the quota, whatever type the driver gives the sum.
  pub get_balance-sum :
      (c : Database) (now : ℕ) (d : D)
      → get_balance c now d ≡ c.max_batch - sum (filter (is_live c.queue now) (sql.rows d))
  unfolding get_balance
  get_balance-sum c now d =
      difference_lem c.max_batch _ _ (sql.sum_where_lem (is_live c.queue now) d)
