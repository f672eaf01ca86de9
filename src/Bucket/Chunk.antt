-- ===== src/Bucket/Chunk.antt =====
-- `#chunk`: a list cut into pieces of a given size.
use native.Mathlib.Nat.{mul-zero, mul-suc}
use rabbitmqtobucketqueue.Common.{
  ℕ, zero, suc, ◌+◌, ◌-◌, ◌*◌, ◌≤◌, ◌<◌, ◌≡◌, refl, sym, ◌∙◌, ◌||◌, false, if◌then◌else◌, ltb, ◌==◌,
  List, [], ◌∷◌, ◌++◌, length, drop, slice, take-append-drop, length-take, length-drop, drop_past,
  drop-drop, arith, Bool-cases, inl, inr, ltb→lt,
}

module _ {A : Type 0} where
  -- The `while` loop, on fuel: `index` grows by the size in every round.
  unfoldable pub chunk_loop : ℕ → List A → ℕ → ℕ → List (List A)
  chunk_loop zero array size index = []
  chunk_loop (suc fuel) array size index =
      let rest = chunk_loop fuel array size (index + size) in
      if ltb index (length array) then slice array index (index + size) ∷ rest else []

  -- The size is a natural number, which `Math.round` and `Math.max` leave as it is.
  unfoldable pub chunk : List A → ℕ → List (List A)
  chunk array size =
      if length array == 0 || ltb size 1 then [] else chunk_loop (length array) array size 0

  abbrev pub concat : List (List A) → List A
  concat [] = []
  concat (x ∷ xs) = x ++ concat xs

  -- Every piece has at least one item and at most `size`.
  abbrev pub AllFit : ℕ → List (List A) → Type 0
  AllFit size [] = Unit {0}
  AllFit size (x ∷ xs) = (0 < length x) × (length x ≤ size) × AllFit size xs

  slice-append-drop :
      (xs : List A) (index size : ℕ)
      → slice xs index (index + size) ++ drop (index + size) xs ≡ drop index xs
  slice-append-drop xs index size =
      let e : index + size - index ≡ size = omega arith in
      let c : index + size ≡ size + index = omega arith in
      rw (e, c, ← drop-drop index size xs) (take-append-drop size (drop index xs))

  concat-chunk_loop :
      (fuel : ℕ) (xs : List A) (size index : ℕ)
      → 0 < size
      → length xs ≤ fuel + index
      → concat (chunk_loop fuel xs size index) ≡ drop index xs
  unfolding chunk_loop
  concat-chunk_loop zero xs size index pos h = rw (drop_past index xs (omega arith)) refl
  concat-chunk_loop (suc fuel) xs size index pos h = elim (Bool-cases (ltb index (length xs))) [
    | inl more ↦
        rw (more, concat-chunk_loop fuel xs size (index + size) pos (omega arith))
          (slice-append-drop xs index size)
    | inr done ↦ rw (done, drop_past index xs (ground arith)) refl
  ]

  AllFit-chunk_loop :
      (fuel : ℕ) (xs : List A) (size index : ℕ)
      → 0 < size
      → AllFit size (chunk_loop fuel xs size index)
  unfolding chunk_loop
  AllFit-chunk_loop zero xs size index pos = tt
  AllFit-chunk_loop (suc fuel) xs size index pos = elim (Bool-cases (ltb index (length xs))) [
    | inl more ↦ rw more (
      omega (
        arith,
        ltb→lt index (length xs),
        length-take (index + size - index) (drop index xs),
        length-drop index xs,
      ),
      omega (arith, length-take (index + size - index) (drop index xs)),
      AllFit-chunk_loop fuel xs size (index + size) pos,
    )
    | inr done ↦ rw done tt
  ]

  -- For a size of at least 1 the pieces are, in order, the whole list, and each has between 1 and
  -- `size` items: the loop ends by its test, and drops, repeats or reorders nothing.
  pub chunk_partition :
      (xs : List A) (size : ℕ)
      → 0 < size
      → (concat (chunk xs size) ≡ xs) × AllFit size (chunk xs size)
  unfolding chunk
  chunk_partition [] size pos = (refl, tt)
  chunk_partition (x ∷ xs) size pos =
      let some_items : (suc (length xs) == 0) ≡ false = ground arith in
      let large : ltb size 1 ≡ false = ground arith in
      rw (some_items, large)
        (
          concat-chunk_loop (suc (length xs)) (x ∷ xs) size 0 pos (omega arith),
          AllFit-chunk_loop (suc (length xs)) (x ∷ xs) size 0 pos,
        )

  -- With enough fuel the loop ends by its test: more fuel changes nothing.
  chunk_loop-fuel :
      (f g : ℕ) (xs : List A) (size index : ℕ)
      → 0 < size
      → length xs ≤ f + index
      → length xs ≤ g + index
      → chunk_loop f xs size index ≡ chunk_loop g xs size index
  unfolding chunk_loop
  chunk_loop-fuel zero zero xs size index pos hf hg = refl
  chunk_loop-fuel zero (suc g) xs size index pos hf hg =
      let done : ltb index (length xs) ≡ false = ground (arith, hf) in rw done refl
  chunk_loop-fuel (suc f) zero xs size index pos hf hg =
      let done : ltb index (length xs) ≡ false = ground (arith, hg) in rw done refl
  chunk_loop-fuel (suc f) (suc g) xs size index pos hf hg =
      elim (Bool-cases (ltb index (length xs))) [
        | inl more ↦
            rw (more, chunk_loop-fuel f g xs size (index + size) pos (omega arith) (omega arith))
              refl
        | inr done ↦ rw done refl
      ]

  -- The pieces cover the rest of the list, and without the last they do not.
  length-chunk_loop :
      (fuel : ℕ) (xs : List A) (size index : ℕ)
      → 0 < size
      → length xs ≤ fuel + index
      → index < length xs + size
      → (length xs ≤ size * length (chunk_loop fuel xs size index) + index)
        × (size * length (chunk_loop fuel xs size index) + index < length xs + size)
  unfolding chunk_loop
  length-chunk_loop zero xs size index pos h i =
      let none = mul-zero size in (omega arith, omega arith)
  length-chunk_loop (suc fuel) xs size index pos h i = elim (Bool-cases (ltb index (length xs))) [
    | inl more ↦
        let (low, high) =
          length-chunk_loop fuel xs size (index + size) pos (omega arith)
            (omega (arith, ltb→lt index (length xs) more)) in
        let one = mul-suc size (length (chunk_loop fuel xs size (index + size))) in
        rw more (omega (arith, low, one), omega (arith, high, one))
    | inr done ↦
        let none = mul-zero size in rw done (ground (arith, none, done), ground (arith, none, i))
  ]

  chunk-loop :
      (xs : List A) (size : ℕ) → 0 < size → chunk xs size ≡ chunk_loop (length xs) xs size 0
  unfolding chunk chunk_loop
  chunk-loop [] size pos = refl
  chunk-loop (x ∷ xs) size pos =
      let some_items : (suc (length xs) == 0) ≡ false = ground arith in
      let large : ltb size 1 ≡ false = ground arith in rw (some_items, large) refl

  -- For a size of at least 1 the loop ends after as many rounds as pieces of that size are needed for
  -- the list, the last one perhaps not full: any fuel from the length of the list on gives the same.
  pub chunk-ends :
      (xs : List A) (size fuel : ℕ)
      → 0 < size
      → length xs ≤ fuel
      → (chunk_loop fuel xs size 0 ≡ chunk xs size)
        × (length xs ≤ size * length (chunk xs size))
        × (size * length (chunk xs size) < length xs + size)
  chunk-ends xs size fuel pos h =
      let whole = chunk-loop xs size pos in
      let (low, high) = length-chunk_loop (length xs) xs size 0 pos (omega arith) (omega arith) in
      (
        chunk_loop-fuel fuel (length xs) xs size 0 pos (omega arith) (omega arith) ∙ sym whole,
        rw whole (omega (arith, low)),
        rw whole (omega (arith, high)),
      )
