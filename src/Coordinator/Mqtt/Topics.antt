-- ===== src/Coordinator/Mqtt/Topics.antt =====
-- The topic of an instance's own queue gives the uuid back.
use rabbitmqtobucketqueue.Common.{◌≡◌, refl, true, ap, sym, ◌∙◌, String, ◌<>◌}
use Prim.Native.String.append
use text.Mathlib.Text.{starts_with}
use text.Mathlib.TextPositions.{starts_with-append}
use text.Mathlib.TextLemmas as Texts
use rabbitmqtobucketqueue.Coordinator.Mqtt.{prefix, text_of, drop_text, remove_first, key}

drop_text-append : (p s : String) → drop_text p (p <> s) ≡ s
unfolding drop_text
drop_text-append String.[] s = append.nil s
drop_text-append (String.◌∷◌ c p) s = rw (append.cons c p s) (drop_text-append p s)

remove_first-nil : (s : String) → remove_first String.[] s ≡ s
unfolding remove_first drop_text
remove_first-nil String.[] = refl
remove_first-nil (String.◌∷◌ c s) =
    let starts = ap (λ t. starts_with t String.[]) (sym (append.nil (String.◌∷◌ c s))) in
    rw (starts ∙ starts_with-append String.[] (String.◌∷◌ c s)) refl

remove_first-append : (p s : String) → remove_first p (p <> s) ≡ s
unfolding remove_first
remove_first-append String.[] s = rw (append.nil s) (remove_first-nil s)
remove_first-append (String.◌∷◌ c p) s =
    let whole = append.cons c p s in
    let starts : starts_with (String.◌∷◌ c (p <> s)) (String.◌∷◌ c p) ≡ true =
      ap (λ t. starts_with t (String.◌∷◌ c p)) (sym whole)
      ∙ starts_with-append (String.◌∷◌ c p) s in
    let dropped : drop_text (String.◌∷◌ c p) (String.◌∷◌ c (p <> s)) ≡ s =
      ap (drop_text (String.◌∷◌ c p)) (sym whole) ∙ drop_text-append (String.◌∷◌ c p) s in
    rw whole (rw starts dropped)

-- A message of the own queue passes the test of its topic.
pub starts_with-own :
    (q u : String) → starts_with (text_of (record { queue = q; uuid = u })) (prefix q) ≡ true
starts_with-own q u =
    ap (λ t. starts_with t (prefix q)) (Texts.append_assoc (prefix q) "/" u)
    ∙ starts_with-append (prefix q) ("/" <> u)

pub key-own : (q u : String) → key q (record { queue = q; uuid = u }) ≡ u
key-own q u = remove_first-append (prefix q <> "/") u
