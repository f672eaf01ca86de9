-- ===== src/Client/Balance.antt =====
-- The balance of a client, and the calls that a message with a balance ends.
use rabbitmqtobucketqueue.Common.{
  ℕ, ◌≡◌, refl, ap, ◌∙◌, sym, Bool, true, false, not, ◌&&◌, if◌then◌else◌, Option, none, some, List,
  [], ◌∷◌, String, arith,
}
use rabbitmqtobucketqueue.Common.Int.{pos}
use rabbitmqtobucketqueue.Server.{Value, number, text, at}
use rabbitmqtobucketqueue.Client.{
  Function, literal, Listener, updates, confirms, pongs, Client, balance_key, is_event,
  decrypt_args, is_settled, resolve, hears, hear, receive, off_any, is_awaiting, increment, reset,
  test, time_out, resume, on_connect, on_disconnect, shutdown, Happening, connects, resets, tests,
  shuts_down, disconnects, receives, increments, times_out, resumes, happen, live, new,
}
use rabbitmqtobucketqueue.Client.Frame.{receive-Same, if-either}
use rabbitmqtobucketqueue.Client.Listeners.{live-Leaks}

-- What a message makes of a balance: its first argument, if it is for the balance of the queue and
-- all its arguments can be decrypted.
abbrev pub told : Bool → Option (List Value) → Value → Value
told true (some args) old = at 0 args
told false (some args) old = old
told _ none old = old

resolve-balance : (p : ℕ) (b : Bool) (c : Client) → (resolve p b c).balance ≡ c.balance
resolve-balance p b c =
    if-either (λ d. d.balance ≡ c.balance) (is_settled p c.settled) c _ (λ e. refl) (λ e. refl)

resolve-queue : (p : ℕ) (b : Bool) (c : Client) → (resolve p b c).queue ≡ c.queue
resolve-queue p b c =
    if-either (λ d. d.queue ≡ c.queue) (is_settled p c.settled) c _ (λ e. refl) (λ e. refl)

-- A listener at a message that is for the balance, or is not.
hears-told :
    (e : Value) (args : List Value) (l : Listener) (c : Client) (k : String) (b : Bool)
    → c.queue ≡ k
    → is_event (balance_key k) e ≡ b
    → (b ≡ true → c.balance ≡ at 0 args)
    → ((hears e args l c).balance ≡ c.balance) × ((hears e args l c).queue ≡ k)
hears-told e args updates c k b q h t =
    if-either (λ d. (d.balance ≡ c.balance) × (d.queue ≡ k)) (is_event (balance_key c.queue) e) _ c
      (λ e'. (sym (t (sym h ∙ ap (λ x. is_event (balance_key x) e) (sym q) ∙ e')), q))
      (λ e'. (refl, q))
hears-told e args (confirms p) c k b q h t =
    if-either (λ d. (d.balance ≡ c.balance) × (d.queue ≡ k)) (is_event (balance_key c.queue) e) _ c
      (λ e'. (
        resolve-balance p true (record c { balance = at 0 args })
            ∙ sym (t (sym h ∙ ap (λ x. is_event (balance_key x) e) (sym q) ∙ e')),
        resolve-queue p true (record c { balance = at 0 args }) ∙ q,
      ))
      (λ e'. (refl, q))
hears-told e args (pongs p) c k b q h t =
    if-either (λ d. (d.balance ≡ c.balance) × (d.queue ≡ k)) (is_event "pong" e) _ c
      (λ e'. (resolve-balance p true c, resolve-queue p true c ∙ q)) (λ e'. (refl, q))

hear-told :
    (e : Value) (args : List Value) (ls : List (Function × Listener)) (c : Client) (k : String)
    (b : Bool)
    → c.queue ≡ k
    → is_event (balance_key k) e ≡ b
    → (b ≡ true → c.balance ≡ at 0 args)
    → (hear e (some args) ls c).1.balance ≡ c.balance
hear-told e args [] c k b q h t = refl
hear-told e args ((f, l) ∷ ls) c k b q h t =
    let (same, q') = hears-told e args l c k b q h t in
    hear-told e args ls (hears e args l c) k b q' h (λ e'. same ∙ t e') ∙ same

-- The first listener, that of the constructor, sets the balance.
first-told :
    (e : Value) (args : Option (List Value)) (ls : List (Function × Listener)) (c : Client)
    → (hear e args ((literal 0, updates) ∷ ls) c).1.balance
      ≡ told (is_event (balance_key c.queue) e) args c.balance
first-told e none ls c = ground (arith)
first-told e (some args) ls c = of (is_event (balance_key c.queue) e) refl
  where
    of :
        (b : Bool)
        → is_event (balance_key c.queue) e ≡ b
        → (hear e (some args) ls (if b then record c { balance = at 0 args } else c)).1.balance
          ≡ told b (some args) c.balance
    of true h =
        hear-told e args ls (record c { balance = at 0 args }) c.queue true refl h (λ e'. refl)
    of false h = hear-told e args ls c c.queue false refl h (λ e'. absurd (ground (arith, e')))

-- The calls, their ends and a shutdown leave the balance and the queue.
abbrev Still : Client → Client → Type 0
Still c d = (d.balance ≡ c.balance) × (d.queue ≡ c.queue)

test-Still : (c : Client) → Still c (test c)
unfolding test
test-Still c = if-either (Still c) (not c.connected) _ _ (λ e. (refl, refl)) (λ e. (refl, refl))

resume-Still : (p : ℕ) (c : Client) → Still c (resume p c)
unfolding resume off_any
resume-Still p c =
    if-either (Still c) (is_awaiting p c.awaiting && is_settled p c.settled) _ _ (λ e. (refl, refl))
      (λ e. (refl, refl))

shutdown-Still : (c : Client) → Still c (shutdown c)
unfolding shutdown on_disconnect
shutdown-Still c = if-either (Still c) c.connected _ _ (λ e. (refl, refl)) (λ e. (refl, refl))

module _ (decrypt : String → Value → Value) (queue : String) (max_batch interval : ℕ) where
  abbrev pub after : List Happening → Client
  after h = live decrypt h (new queue max_batch interval)

  pub live-queue : (h : List Happening) → (after h).queue ≡ queue
  unfolding live happen new on_connect on_disconnect increment reset time_out
  live-queue [] = refl
  live-queue (connects ∷ h) = live-queue h
  live-queue (disconnects reason ∷ h) = live-queue h
  live-queue (receives event args ∷ h) =
      (receive-Same decrypt event args (after h)).4 ∙ live-queue h
  live-queue (increments n ∷ h) = live-queue h
  live-queue (resets ∷ h) = live-queue h
  live-queue (tests ∷ h) = (test-Still (after h)).1 ∙ live-queue h
  live-queue (times_out p ∷ h) = resolve-queue p false (after h) ∙ live-queue h
  live-queue (resumes p ∷ h) = (resume-Still p (after h)).1 ∙ live-queue h
  live-queue (shuts_down ∷ h) = (shutdown-Still (after h)).1 ∙ live-queue h

  -- The balance from the messages alone.
  abbrev pub balance_told : List Happening → Value
  balance_told [] = number (pos 0)
  balance_told (receives event args ∷ h) =
      told (is_event (balance_key queue) (decrypt event (text "event")))
        (decrypt_args decrypt (decrypt event (text "event")) args) (balance_told h)
  balance_told (_ ∷ h) = balance_told h

  receive-told :
      (event : String) (args : List Value) (c : Client) (ls : List (Function × Listener))
      → c.listeners ≡ (literal 0, updates) ∷ ls
      → (receive decrypt event args c).1.balance
        ≡ told
            (is_event (balance_key c.queue) (decrypt event (text "event")))
            (decrypt_args decrypt (decrypt event (text "event")) args)
            c.balance
  unfolding receive
  receive-told event args c ls kept =
      let e = decrypt event (text "event") in
      ap (λ l. (hear e (decrypt_args decrypt e args) l c).1.balance) kept
      ∙ first-told e (decrypt_args decrypt e args) ls c

  -- After any history the balance is the first argument of the newest message for the balance of the
  -- queue that can be decrypted, and 0 before the first: whatever calls have been made, and whatever
  -- listeners they have left.
  pub live-balance_told : (h : List Happening) → (after h).balance ≡ balance_told h
  unfolding live happen new on_connect on_disconnect increment reset time_out
  live-balance_told [] = refl
  live-balance_told (connects ∷ h) = live-balance_told h
  live-balance_told (disconnects reason ∷ h) = live-balance_told h
  live-balance_told (receives event args ∷ h) =
      let l = live-Leaks decrypt queue max_batch interval h in
      let e = decrypt event (text "event") in
      receive-told event args (after h) l.rest l.kept
      ∙ ap (λ q. told (is_event (balance_key q) e) (decrypt_args decrypt e args) (after h).balance)
          (live-queue h)
      ∙ ap (told (is_event (balance_key queue) e) (decrypt_args decrypt e args))
          (live-balance_told h)
  live-balance_told (increments n ∷ h) = live-balance_told h
  live-balance_told (resets ∷ h) = live-balance_told h
  live-balance_told (tests ∷ h) = (test-Still (after h)).0 ∙ live-balance_told h
  live-balance_told (times_out p ∷ h) = resolve-balance p false (after h) ∙ live-balance_told h
  live-balance_told (resumes p ∷ h) = (resume-Still p (after h)).0 ∙ live-balance_told h
  live-balance_told (shuts_down ∷ h) = (shutdown-Still (after h)).0 ∙ live-balance_told h
