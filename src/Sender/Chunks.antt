-- ===== src/Sender/Chunks.antt =====
-- sender_manager.py, `send_batch`: how the results are cut into chunks.
use zabbig.Prelude.{
  ℕ, zero, suc, ◌+◌, ◌-◌, ◌≤◌, ◌≡◌, refl, sym, ap, ◌∙◌, List, [], ◌∷◌, map, length, take, drop,
  length-take, length-drop, take-append-drop, ltb, Bool-cases, inl, inr, All, ok, arith,
}
use mathlib.Core.List.{flatten}
use zabbig.Prelude.Float.{pos}
use zabbig.Sender.{range_from, chunks}

module _ {ℓ} {A : Type ℓ} where
  drop-nil : (n : ℕ) → drop n (let e : List A = [] in e) ≡ []
  drop-nil zero = refl
  drop-nil (suc n) = refl

  drop-drop : (i n : ℕ) (xs : List A) → drop n (drop i xs) ≡ drop (i + n) xs
  drop-drop zero n xs = ap (λ (k : ℕ). drop k xs) (omega arith)
  drop-drop (suc i) n [] = ground (arith, drop-nil n, drop-nil (suc i + n))
  drop-drop (suc i) n (x ∷ xs) =
      let next : suc (i + n) ≡ suc i + n = omega arith in
      drop-drop i n xs ∙ ap (λ (k : ℕ). drop k (x ∷ xs)) next

  drop-all : (i : ℕ) (xs : List A) → length xs ≤ i → drop i xs ≡ []
  drop-all zero [] h = refl
  drop-all zero (x ∷ xs) h = absurd (omega arith)
  drop-all (suc i) [] h = refl
  drop-all (suc i) (x ∷ xs) h = drop-all i xs (omega arith)

  slices : (xs : List A) (n fuel i : ℕ) → List (List A)
  slices xs n fuel i = map (λ k. take n (drop k xs)) (range_from fuel i (length xs) n)

  flatten-slices :
      (xs : List A) (n fuel i : ℕ)
      → 1 ≤ n
      → length xs - i ≤ fuel
      → flatten (slices xs n fuel i) ≡ drop i xs
  unfolding slices range_from flatten
  flatten-slices xs n zero i h f = sym (drop-all i xs (omega arith))
  flatten-slices xs n (suc fuel) i h f = elim (Bool-cases (ltb i (length xs))) [
    | inl more ↦
        rw (more, flatten-slices xs n fuel (i + n) h (ground arith))
          (rw (← drop-drop) (take-append-drop n (drop i xs)))
    | inr done ↦ rw done (sym (drop-all i xs (ground arith)))
  ]

  sizes-slices :
      (xs : List A) (n fuel i : ℕ)
      → 1 ≤ n
      → All (λ c. (1 ≤ length c) × (length c ≤ n)) (slices xs n fuel i)
  unfolding slices range_from
  sizes-slices xs n zero i h = tt
  sizes-slices xs n (suc fuel) i h = elim (Bool-cases (ltb i (length xs))) [
    | inl more ↦ rw more (
      (
        ground (arith, length-take n (drop i xs), length-drop i xs),
        ground (arith, length-take n (drop i xs)),
      ),
      sizes-slices xs n fuel (i + n) h,
    )
    | inr done ↦ rw done tt
  ]

  -- For a positive maximal size, the chunks put together are the results in their order, none is
  -- empty and none is larger than the maximum.
  pub chunks_lem :
      (n : ℕ) (xs : List A)
      → 1 ≤ n
      → (cs : List (List A)) × (chunks (pos n) xs ≡ ok cs)
        × (flatten cs ≡ xs)
        × All (λ c. (1 ≤ length c) × (length c ≤ n)) cs
  unfolding chunks slices
  chunks_lem zero xs h = absurd (omega arith)
  chunks_lem (suc n) xs h = (
    slices xs (suc n) (length xs) 0,
    refl,
    flatten-slices xs (suc n) (length xs) 0 h (omega arith),
    sizes-slices xs (suc n) (length xs) 0 h,
  )
