-- ===== src/Json/Chunk.antt =====
-- cmd/mq_json/exporter.go: chunk, for points of any type. A step of the loop advances by at least
-- one, so one more round than there are points is fuel enough.
use mq_metric_samples.Prelude.{
  ℕ, zero, suc, ◌+◌, ◌-◌, ◌<◌, ◌≤◌, min, List, [], ◌∷◌, ◌++◌, Option, none, some, length, take,
  drop, take-append-drop, length-take, length-drop, All, ltb, if◌then◌else◌, Bool-cases, inl, inr,
  ◌≡◌, refl, ◌∙◌, sym, ap, append_assoc, append-nil, arith,
}
use native.Mathlib.Nat.{suc-add}
use mq_metric_samples.Prelude.Int.{ℤ, pos, negsuc, pos_part, ltb_ℤ}

module _ {ℓ} {A : Type ℓ} where
  -- `slice[i:end]`.
  abbrev pub slice : ℕ → ℕ → List A → List A
  slice i e xs = take (e - i) (drop i xs)

  -- The loop with its variable i; `none` is that the fuel ran out.
  unfoldable pub chunk_from : ℕ → ℕ → List A → ℕ → List (List A) → Option (List (List A))
  chunk_from zero size xs i chunks = none
  chunk_from (suc fuel) size xs i chunks =
      let e = if ltb (length xs) (i + size) then length xs else i + size in
      let rest = chunk_from fuel size xs (i + size) (chunks ++ slice i e xs ∷ []) in
      if ltb i (length xs) then rest else some chunks

  -- A size of 0 or less is no limit.
  abbrev pub chunk_size : List A → ℤ → ℕ
  chunk_size xs size = if ltb_ℤ (pos 0) size then pos_part size else length xs

  unfoldable pub chunk : List A → ℤ → Option (List (List A))
  unfolding chunk_from
  chunk xs size = chunk_from (suc (length xs)) (chunk_size xs size) xs 0 []

  abbrev pub flat : List (List A) → List A
  flat [] = []
  flat (c ∷ cs) = c ++ flat cs

  -- What the loop adds from position i on.
  record Chunks (size : ℕ) (rest : List A) (cs : List (List A)) : Type ℓ where
    joined : flat cs ≡ rest
    sizes : All (λ c. (0 < length c) × (length c ≤ size)) cs

  drop_nil : (n : ℕ) → drop {A = A} n [] ≡ []
  drop_nil zero = refl
  drop_nil (suc n) = refl

  drop-drop : (i n : ℕ) (xs : List A) → drop n (drop i xs) ≡ drop (i + n) xs
  drop-drop zero n xs = ground arith
  drop-drop (suc i) n [] = drop_nil n ∙ sym (drop_nil (suc i + n))
  drop-drop (suc i) n (x ∷ xs) = rw suc-add (drop-drop i n xs)

  drop_all : (n : ℕ) (xs : List A) → length xs ≤ n → drop n xs ≡ []
  drop_all n [] h = drop_nil n
  drop_all zero (x ∷ xs) h = absurd (omega arith)
  drop_all (suc n) (x ∷ xs) h = drop_all n xs (omega arith)

  take_all : (n : ℕ) (xs : List A) → length xs ≤ n → take n xs ≡ xs
  take_all zero [] h = refl
  take_all (suc n) [] h = refl
  take_all zero (x ∷ xs) h = absurd (omega arith)
  take_all (suc n) (x ∷ xs) h = ap (◌∷◌ x) (take_all n xs (omega arith))

  -- One round's slice and what follows it.
  slice-append-drop :
      (i size : ℕ) (xs : List A)
      → i < length xs
      → slice i (if ltb (length xs) (i + size) then length xs else i + size) xs
          ++ drop (i + size) xs
        ≡ drop i xs
  slice-append-drop i size xs h = elim (Bool-cases (ltb (length xs) (i + size))) [
    | inl past ↦ rw past (
        rw (drop_all (i + size) xs (ground arith)) (
          append-nil _
          ∙ take_all (length xs - i) (drop i xs) (omega (arith, length-drop {ℓ} i xs))))
    | inr within ↦
        let e : i + size - i ≡ size = omega arith in
        rw within (rw (e, ← drop-drop i size xs) (take-append-drop size (drop i xs)))
  ]

  slice_bounds :
      (i size : ℕ) (xs : List A)
      → 0 < size
      → i < length xs
      → (0 < length (slice i (if ltb (length xs) (i + size) then length xs else i + size) xs))
        × (length (slice i (if ltb (length xs) (i + size) then length xs else i + size) xs) ≤ size)
  slice_bounds i size xs s h =
      let e = if ltb (length xs) (i + size) then length xs else i + size in
      let l : length (slice i e xs) ≡ min (e - i) (length xs - i) =
        length-take (e - i) (drop i xs) ∙ ap (λ (k : ℕ). min (e - i) k) (length-drop i xs) in
      (ground (arith, l), ground (arith, l))

  chunk_from-Chunks :
      (fuel size : ℕ) (xs : List A) (i : ℕ) (chunks : List (List A))
      → 0 < size
      → length xs - i < fuel
      → (cs : List (List A)) × (chunk_from fuel size xs i chunks ≡ some (chunks ++ cs))
        × Chunks size (drop i xs) cs
  unfolding chunk_from
  chunk_from-Chunks zero size xs i chunks s f = elim f [ ]
  chunk_from-Chunks (suc fuel) size xs i chunks s f = elim (Bool-cases (ltb i (length xs))) [
    | inl more ↦
        let e = if ltb (length xs) (i + size) then length xs else i + size in
        let piece = slice i e xs in
        let (cs, ran, c) =
          chunk_from-Chunks fuel size xs (i + size) (chunks ++ piece ∷ []) s (ground arith) in
        (
          piece ∷ cs,
          rw more (ran ∙ ap some (append_assoc chunks (piece ∷ []) cs)),
          record {
            joined =
                ap (λ (r : List A). piece ++ r) c.joined
                ∙ slice-append-drop i size xs (ground arith);
            sizes = (slice_bounds i size xs s (ground arith), c.sizes);
          },
        )
    | inr done ↦ (
      [],
      rw done (ap some (sym (append-nil chunks))),
      record { joined = sym (drop_all i xs (ground arith)); sizes = tt },
    )
  ]

  size_pos : (x : A) (xs : List A) (size : ℤ) → 0 < chunk_size (x ∷ xs) size
  size_pos x xs (pos n) = ground arith
  size_pos x xs (negsuc n) = ground arith

  -- The points come in chunks that are not empty, hold at most the size asked for, if it is a
  -- limit, and joined give the points in their order.
  pub chunk-Chunks :
      (xs : List A) (size : ℤ)
      → (cs : List (List A)) × (chunk xs size ≡ some cs)
        × (flat cs ≡ xs)
        × All (λ c. (0 < length c) × (length c ≤ chunk_size xs size)) cs
  unfolding chunk
  chunk-Chunks [] size = ([], refl, refl, tt)
  chunk-Chunks (x ∷ xs) size =
      let (cs, ran, c) =
        chunk_from-Chunks (suc (length (x ∷ xs))) (chunk_size (x ∷ xs) size) (x ∷ xs) 0 []
          (size_pos x xs size) (omega arith) in
      (cs, ran, c.joined, c.sizes)
