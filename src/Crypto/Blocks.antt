-- ===== src/Crypto/Blocks.antt =====
-- _dbcrypto.py, the loops over the blocks of 16 bytes.
use zabbig.Prelude.{
  ℕ, zero, suc, ◌+◌, ◌*◌, ◌/◌, ◌%◌, ◌≤◌, ◌≡◌, refl, sym, ap, ◌∙◌, Bool, true, List, [], ◌∷◌, ◌++◌,
  append_assoc, All, length, length-append, length-take, length-drop, take, drop, take-append-drop,
  ltb, arith,
}
use zabbig.Crypto.{Bytes, iv_len, blocks_from, blocks}
use zabbig.Crypto.Padding.{take-length-append, drop-length-append}

abbrev pub joined : List Bytes → Bytes
joined [] = []
joined (c ∷ cs) = c ++ joined cs

abbrev pub AreWhole : List Bytes → Type 0
AreWhole = All (λ (c : Bytes). length c ≡ iv_len)

pub length-joined : (cs : List Bytes) → AreWhole cs → length (joined cs) ≡ length cs * iv_len
length-joined [] h = refl
length-joined (c ∷ cs) (h, hs) = omega (arith, h, length-append c (joined cs), length-joined cs hs)

blocks_from-joined :
    (fuel : ℕ) (done : Bytes) (cs : List Bytes)
    → length (joined cs) ≤ fuel
    → AreWhole cs
    → blocks_from fuel (length done) (done ++ joined cs) ≡ cs
unfolding blocks_from
blocks_from-joined zero done [] enough h = refl
blocks_from-joined zero done (c ∷ cs) enough (h, hs) =
    absurd (omega (arith, enough, h, length-append c (joined cs)))
blocks_from-joined (suc fuel) done [] enough h =
    let over : ltb (length done) (length (done ++ [])) ≡ Bool.false =
      ground (arith, length-append done []) in
    rw over refl
blocks_from-joined (suc fuel) done (c ∷ cs) enough (h, hs) =
    let within : ltb (length done) (length (done ++ (c ++ joined cs))) ≡ true =
      ground (arith, length-append done (c ++ joined cs), length-append c (joined cs), h) in
    let here : take iv_len (drop (length done) (done ++ (c ++ joined cs))) ≡ c =
      ap (take iv_len) (drop-length-append done (c ++ joined cs) _ refl)
      ∙ take-length-append c (joined cs) _ h in
    let moved : length (done ++ c) ≡ length done + iv_len =
      omega (arith, h, length-append done c) in
    let rest : blocks_from fuel (length done + iv_len) (done ++ (c ++ joined cs)) ≡ cs =
      ap (λ (i : ℕ). blocks_from fuel i (done ++ (c ++ joined cs))) (sym moved)
      ∙ ap (blocks_from fuel (length (done ++ c))) (sym (append_assoc done c (joined cs)))
      ∙ blocks_from-joined fuel (done ++ c) cs
          (omega (arith, enough, h, length-append c (joined cs))) hs in
    rw (within, here, rest) refl

-- The slices of whole blocks are the blocks.
pub blocks-joined : (cs : List Bytes) → AreWhole cs → blocks (joined cs) ≡ cs
unfolding blocks
blocks-joined cs h = blocks_from-joined (length (joined cs)) [] cs (omega arith) h

split_blocks :
    (n : ℕ) (bytes : Bytes)
    → length bytes ≡ n * iv_len
    → (cs : List Bytes) × AreWhole cs × (joined cs ≡ bytes)
split_blocks zero [] e = ([], tt, refl)
split_blocks zero (b ∷ bytes) e = absurd (omega (arith, e))
split_blocks (suc n) bytes e =
    let (cs, whole, same) =
      split_blocks n (drop iv_len bytes) (omega (arith, e, length-drop iv_len bytes)) in
    (
      take iv_len bytes ∷ cs,
      (omega (arith, e, length-take iv_len bytes), whole),
      ap (λ (r : Bytes). take iv_len bytes ++ r) same ∙ take-append-drop iv_len bytes,
    )

-- A text whose length is a multiple of 16 is whole blocks.
pub whole_blocks :
    (bytes : Bytes)
    → length bytes % iv_len ≡ 0
    → (cs : List Bytes) × AreWhole cs × (joined cs ≡ bytes)
whole_blocks bytes h = split_blocks (length bytes / iv_len) bytes (omega (arith, h))
