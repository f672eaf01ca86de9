-- ===== src/Coordinator/Database/History.antt =====
-- The shared table against the history of the calls that the instances made.
use rabbitmqtobucketqueue.Common.{
  ℕ, ◌+◌, ◌-◌, ◌≤◌, ◌≡◌, refl, not, ◌&&◌, if◌then◌else◌, ltb, leb, List, [], ◌∷◌, filter, String,
  str_eq, eq_iff, arith, ap, ◌∙◌,
}
use rabbitmqtobucketqueue.Coordinator.Database.{
  Row, sum, Sql, Database, is_live, increment, reset, declutter, get_balance, get_balance-sum,
}

-- One call, with the instance that makes it and its time.
pub data Call : Type 0 where
  increments : Database → ℕ → String → ℕ → Call
  resets : Database → Call
  declutters : ℕ → Call

-- No call of the history decluttered by a clock that is ahead of `now`.
abbrev pub NoneAhead : ℕ → List Call → Type 0
NoneAhead now [] = Unit {0}
NoneAhead now (declutters t ∷ h) = (t ≤ now) × NoneAhead now h
NoneAhead now (_ ∷ h) = NoneAhead now h

-- What the history, newest call first, has counted for a queue within the calls' intervals, since
-- the queue was last reset.
abbrev pub spent : String → ℕ → List Call → ℕ
spent q now [] = 0
spent q now (increments c t uuid n ∷ h) =
    (if str_eq c.queue q && ltb now (t + c.interval) then n else 0) + spent q now h
spent q now (resets c ∷ h) = let rest = spent q now h in if str_eq c.queue q then 0 else rest
spent q now (declutters t ∷ h) = spent q now h

-- The three ways in which the rows change.
used : String → ℕ → List Row → ℕ
used q now rs = sum (filter (is_live q now) rs)

used-cons :
    (q : String) (now : ℕ) (r : Row) (rs : List Row)
    → used q now (r ∷ rs) ≡ (if is_live q now r then r.count else 0) + used q now rs
unfolding used
used-cons q now r rs = ground arith

used-reset :
    (q p : String) (now : ℕ) (rs : List Row)
    → used q now (filter (λ r. not (str_eq r.queue p)) rs)
      ≡ (if str_eq p q then 0 else used q now rs)
unfolding used
used-reset q p now [] = ground arith
used-reset q p now (r ∷ rs) =
    ground (arith, used-reset q p now rs, eq_iff r.queue p, eq_iff r.queue q, eq_iff p q)

used-declutter :
    (q : String) (t now : ℕ) (rs : List Row)
    → t ≤ now
    → used q now (filter (λ r. not (leb r.expires_at t)) rs) ≡ used q now rs
unfolding used
used-declutter q t now [] h = refl
used-declutter q t now (r ∷ rs) h = ground (arith, used-declutter q t now rs h)

module _ {D : Type 0} (sql : Sql D) where
  pub step : D → Call → D
  step d (increments c t uuid n) = increment sql c t uuid n d
  step d (resets c) = reset sql c d
  step d (declutters t) = declutter sql t d

  pub replay : D → List Call → D
  unfolding step
  replay d [] = d
  replay d (x ∷ h) = step (replay d h) x

  used-replay :
      (d : D)
      → sql.rows d ≡ []
      → (q : String) (now : ℕ) (h : List Call) → NoneAhead now h
      → used q now (sql.rows (replay d h)) ≡ spent q now h
  unfolding replay increment reset declutter
  used-replay d e q now [] b = rw e (unfold used in refl)
  used-replay d e q now (increments c t uuid n ∷ h) b =
      rw (sql.rows-insert, used-cons, used-replay d e q now h b) refl
  used-replay d e q now (resets c ∷ h) b =
      rw (sql.rows-del_where, used-reset q c.queue now, used-replay d e q now h b) refl
  used-replay d e q now (declutters t ∷ h) b =
      rw sql.rows-del_where (used-declutter q t now _ b.0 ∙ used-replay d e q now h b.1)

  -- In a table that starts empty and that any number of instances share, an instance reads as its
  -- balance its quota less what was counted for its queue by calls whose interval has not passed,
  -- since the queue was last reset, and 0 once that reaches the quota. Calls for other queues do
  -- not matter, nor does decluttering by a clock that is not ahead of the reader's.
  pub get_balance-replay :
      (c : Database) (now : ℕ) (d : D) (h : List Call)
      → sql.rows d ≡ []
      → NoneAhead now h
      → get_balance sql c now (replay d h) ≡ c.max_batch - spent c.queue now h
  get_balance-replay c now d h e b =
      get_balance-sum sql c now (replay d h)
      ∙ ap (λ (t : ℕ). c.max_batch - t) (unfold used in used-replay d e c.queue now h b)
