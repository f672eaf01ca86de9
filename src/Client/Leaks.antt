-- ===== src/Client/Leaks.antt =====
-- The listeners at the socket of a client after a number of calls.
use rabbitmqtobucketqueue.Common.{
  ℕ, suc, ◌<◌, ◌≡◌, refl, ap, ◌∙◌, Bool, true, false, not, ◌&&◌, if◌then◌else◌, ltb, Option, List,
  [], ◌∷◌, ◌++◌, length, String, Result, Unit₀, arith,
}
use rabbitmqtobucketqueue.Server.{Value}
use rabbitmqtobucketqueue.Client.{
  Function, literal, bound, Listener, updates, pongs, Client, is_settled, remove, off_any, without,
  is_awaiting, start, test, resume, on_disconnect, shutdown, emit,
}
use rabbitmqtobucketqueue.Client.Frame.{Same, Same-refl, if-either}

-- Listeners that are bound functions, and numbers of calls, which begin at 1.
abbrev pub all_bound : List (Function × Listener) → Bool
all_bound [] = true
all_bound ((literal n, l) ∷ ls) = false
all_bound ((bound n, l) ∷ ls) = all_bound ls

abbrev all_positive : List ℕ → Bool
all_positive [] = true
all_positive (p ∷ ps) = ltb 0 p && all_positive ps

-- After a number of calls: the listener of the constructor, and one for each call.
pub record Leaks (asked : ℕ) (up : Bool) (c : Client) : Type 0 where
  pub rest : List (Function × Listener)
  pub kept : c.listeners ≡ (literal 0, updates) ∷ rest
  pub are_bound : all_bound rest ≡ true
  pub counted : length rest ≡ asked
  pub waiting : all_positive c.awaiting ≡ true
  pub made : 0 < c.functions
  pub is_up : c.connected ≡ up

pub Same-Leaks : (n : ℕ) (b : Bool) (c c' : Client) → Same c c' → Leaks n b c → Leaks n b c'
Same-Leaks n b c c' s h = record {
  rest = h.rest;
  kept = s.0 ∙ h.kept;
  are_bound = h.are_bound;
  counted = h.counted;
  waiting = ap all_positive s.2 ∙ h.waiting;
  made = rw (s.3) h.made;
  is_up = s.1 ∙ h.is_up;
}

all_bound-append :
    (ls : List (Function × Listener)) (n : ℕ) (l : Listener)
    → all_bound ls ≡ true
    → all_bound (ls ++ (bound n, l) ∷ []) ≡ true
all_bound-append [] n l h = refl
all_bound-append ((bound m, k) ∷ ls) n l h = all_bound-append ls n l h
all_bound-append ((literal m, k) ∷ ls) n l h = absurd (ground (arith, h))

length-append_one : {A : Type 0} (xs : List A) (x : A) → length (xs ++ x ∷ []) ≡ suc (length xs)
length-append_one [] x = refl
length-append_one (y ∷ xs) x = ap suc (length-append_one xs x)

positive-and : (n : ℕ) (b : Bool) → 0 < n → b ≡ true → (ltb 0 n && b) ≡ true
positive-and n b pos h = ground (arith, pos, h)

pub start-Leaks :
    (n : ℕ) (b : Bool) (f : ℕ → Listener) (e : String) (args : List Value) (c : Client)
    → Leaks n b c
    → Leaks (suc n) b (start f e args c)
start-Leaks n b f e args c h = record {
  rest = h.rest ++ (bound c.functions, f c.functions) ∷ [];
  kept = ap (λ ls. ls ++ (bound c.functions, f c.functions) ∷ []) h.kept;
  are_bound = all_bound-append h.rest c.functions (f c.functions) h.are_bound;
  counted = length-append_one h.rest (bound c.functions, f c.functions) ∙ ap suc h.counted;
  waiting = positive-and c.functions (all_positive c.awaiting) h.made h.waiting;
  made = omega arith;
  is_up = h.is_up;
}

-- What is removed by a function itself is no bound function.
remove-bound :
    (p : ℕ) (ls : List (Function × Listener)) → all_bound ls ≡ true → remove (literal p) ls ≡ ls
unfolding remove
remove-bound p [] h = refl
remove-bound p ((bound n, l) ∷ ls) h = ap (λ r. (bound n, l) ∷ r) (remove-bound p ls h)
remove-bound p ((literal n, l) ∷ ls) h = absurd (ground (arith, h))

remove-kept :
    (p : ℕ) (ls : List (Function × Listener))
    → 0 < p
    → all_bound ls ≡ true
    → remove (literal p) ((literal 0, updates) ∷ ls) ≡ (literal 0, updates) ∷ ls
unfolding remove
remove-kept p ls pos h = let rest = remove-bound p ls h in ground (arith, rest)

is_awaiting-positive :
    (p : ℕ) (ps : List ℕ) → all_positive ps ≡ true → is_awaiting p ps ≡ true → 0 < p
is_awaiting-positive p [] h e = absurd (ground (arith, e))
is_awaiting-positive p (r ∷ ps) h e =
    let later = is_awaiting-positive p ps in ground (arith, later, h, e)

without-positive :
    (p : ℕ) (ps : List ℕ) → all_positive ps ≡ true → all_positive (without p ps) ≡ true
without-positive p [] h = refl
without-positive p (r ∷ ps) h = let later = without-positive p ps in ground (arith, later, h)

pub resume-Leaks : (n : ℕ) (b : Bool) (p : ℕ) (c : Client) → Leaks n b c → Leaks n b (resume p c)
unfolding resume off_any
resume-Leaks n b p c h = of (is_awaiting p c.awaiting && is_settled p c.settled) refl
  where
    of :
        (t : Bool)
        → (is_awaiting p c.awaiting && is_settled p c.settled) ≡ t
        → Leaks n b
            (if t then off_any (literal p) (record c { awaiting = without p c.awaiting }) else c)
    of false e = h
    of true e =
        let pos = is_awaiting-positive p c.awaiting h.waiting (ground (arith, e)) in
        record {
          rest = h.rest;
          kept = ap (remove (literal p)) h.kept ∙ remove-kept p h.rest pos h.are_bound;
          are_bound = h.are_bound;
          counted = h.counted;
          waiting = without-positive p c.awaiting h.waiting;
          made = h.made;
          is_up = h.is_up;
        }

-- A call that sends nothing.
silent-Leaks :
    (n : ℕ) (b : Bool) (c : Client) (s : List (ℕ × Bool))
    → Leaks n b c
    → Leaks n b (record c { functions = suc c.functions; settled = s })
silent-Leaks n b c s h = record {
  rest = h.rest;
  kept = h.kept;
  are_bound = h.are_bound;
  counted = h.counted;
  waiting = h.waiting;
  made = omega arith;
  is_up = h.is_up;
}

pub test-Leaks :
    (n : ℕ) (b : Bool) (c : Client) → Leaks n b c → Leaks (if b then suc n else n) b (test c)
unfolding test
test-Leaks n true c h =
    if-either (Leaks (suc n) true) (not c.connected) _ _ (λ e. absurd (ground (arith, e, h.is_up)))
      (λ e. start-Leaks n true pongs "ping" [] c h)
test-Leaks n false c h =
    if-either (Leaks n false) (not c.connected) _ _ (λ e. silent-Leaks n false c _ h)
      (λ e. absurd (ground (arith, e, h.is_up)))

-- A client whose connection or whose promise `ready` changes.
pub connection-Leaks :
    (n : ℕ) (b b' : Bool) (r : Option (Result String Unit₀)) (c : Client)
    → Leaks n b c
    → Leaks n b' (record c { connected = b'; ready = r })
connection-Leaks n b b' r c h = record {
  rest = h.rest;
  kept = h.kept;
  are_bound = h.are_bound;
  counted = h.counted;
  waiting = h.waiting;
  made = h.made;
  is_up = refl;
}

pub emit-Leaks :
    (n : ℕ) (b : Bool) (e : String) (args : List Value) (c : Client)
    → Leaks n b c
    → Leaks n b (emit e args c)
emit-Leaks n b e args c h = Same-Leaks n b c (emit e args c) (Same-refl c) h

down-Leaks : (n : ℕ) (b : Bool) (c : Client) → Leaks n b c → c.connected ≡ false → Leaks n false c
down-Leaks n b c h e = record {
  rest = h.rest;
  kept = h.kept;
  are_bound = h.are_bound;
  counted = h.counted;
  waiting = h.waiting;
  made = h.made;
  is_up = e;
}

pub shutdown-Leaks : (n : ℕ) (b : Bool) (c : Client) → Leaks n b c → Leaks n false (shutdown c)
unfolding shutdown on_disconnect
shutdown-Leaks n b c h =
    if-either (Leaks n false) c.connected _ _ (λ e. connection-Leaks n b false _ c h)
      (λ e. down-Leaks n b c h e)
