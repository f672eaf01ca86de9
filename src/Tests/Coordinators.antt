-- ===== src/Tests/Coordinators.antt =====
-- The coordination drivers: a table that is a list of rows, and a database that is a list of
-- tables with their columns.
use rabbitmqtobucketqueue.Common.{
  ℕ, ◌≡◌, refl, Bool, true, false, not, ◌&&◌, List, [], ◌∷◌, filter, String, str_eq, eq_iff, ok,
  err, arith,
}
use rabbitmqtobucketqueue.Coordinator.Database.{
  Row, sum, number, as_number, Sql, Database, get_balance,
}
use rabbitmqtobucketqueue.Coordinator.Database
use rabbitmqtobucketqueue.Coordinator.{coordinator_test_failed}
use rabbitmqtobucketqueue.Coordinator.Database.History
use rabbitmqtobucketqueue.Coordinator.Database.History.{replay, get_balance-replay, NoneAhead}
use rabbitmqtobucketqueue.Coordinator.Database.Schema
use rabbitmqtobucketqueue.Coordinator.Database.Schema.{
  Schema, columns, contains, prepare-cleanup, already_exists, does_not_exist,
}

database_test_tested :
    (Database.test {E = String} {A = ℕ} (ok 2) ≡ ok tt)
    × (Database.test {E = String} {A = ℕ} (err "gone") ≡ err (coordinator_test_failed "gone"))
database_test_tested = (refl, refl)

abbrev rows_sql : Sql (List Row)
rows_sql = record {
  rows = λ d. d;
  insert = λ r d. r ∷ d;
  del_where = λ p d. filter (λ r. not (p r)) d;
  sum_where = λ p d. number (sum (filter p d));
  parse_int = λ s. 0;
  rows-insert = λ r d. refl;
  rows-del_where = λ p d. refl;
  sum_where_lem = λ p d. as_number;
}

abbrev jobs : Database
jobs = record { queue = "jobs"; max_batch = 9; interval = 10 }

abbrev mails : Database
mails = record { queue = "mails"; max_batch = 5; interval = 10 }

-- At time 14 the call at time 2 has expired; the one for the other queue does not count.
abbrev calls : List History.Call
calls =
    History.declutters 12
    ∷ History.increments jobs 7 "c" 3
    ∷ History.increments mails 6 "b" 1
    ∷ History.increments jobs 2 "a" 4
    ∷ []

get_balance-replay_example : get_balance rows_sql jobs 14 (replay rows_sql [] calls) ≡ 6
get_balance-replay_example = get_balance-replay rows_sql jobs 14 [] calls refl (omega arith, tt)

abbrev table : List Row
table =
    record { uuid = "a"; queue = "jobs"; count = 4; expires_at = 20 }
    ∷ record { uuid = "b"; queue = "mails"; count = 1; expires_at = 20 }
    ∷ []

-- A database with at most one table.
data Tables : Type 0 where
  empty : Tables
  table_of : String → List String → Tables

has_table : String → Tables → Bool
has_table t empty = false
has_table t (table_of n cs) = str_eq n t

has_column : String → String → Tables → Bool
has_column t c empty = false
has_column t c (table_of n cs) = str_eq n t && contains c cs

has_column-contains :
    (t c : String) (cs : List String) → has_column t c (table_of t cs) ≡ contains c cs
unfolding has_column
has_column-contains t c cs = ground (arith, eq_iff t t)

abbrev tables_schema : Schema Tables
tables_schema = record {
  has_table = has_table;
  has_column = has_column;
  create_table = λ t cs d. table_of t cs;
  drop_table = λ t d. empty;
  has_table-create = λ t cs d. unfold has_table in (eq_iff t t).1 refl;
  has_table-drop = λ t d. unfold has_table in refl;
  has_column-create = λ t c cs d. has_column-contains t c cs;
}

abbrev no_table : has_table "balance" empty ≡ false
no_table = unfold has_table in refl

prepare-cleanup_example :
    let d = (Schema.prepare tables_schema "balance" true empty).1 in
    let d' = (Schema.cleanup tables_schema "balance" false d).1 in
    ((Schema.prepare tables_schema "balance" true empty).0 ≡ ok tt)
    × (Schema.prepared tables_schema "balance" d ≡ ok true)
    × (Schema.prepare tables_schema "balance" true d ≡ (err (already_exists "balance"), d))
    × ((Schema.cleanup tables_schema "balance" false d).0 ≡ ok tt)
    × (Schema.prepared tables_schema "balance" d' ≡ ok false)
    × (Schema.cleanup tables_schema "balance" true d' ≡ (err (does_not_exist "balance"), d'))
prepare-cleanup_example = prepare-cleanup tables_schema "balance" true false empty no_table
