-- ===== src/Crypto/Padding.antt =====
-- _dbcrypto.py, `_pad` and `_unpad`: PKCS7 padding is put on and taken off.
use zabbig.Prelude.{
  ℕ, zero, suc, ◌-◌, ◌%◌, ◌≤◌, ◌≡◌, refl, sym, ap, ◌∙◌, true, false, Bool-cases, inl, inr, ◌||◌, [],
  ◌∷◌, ◌++◌, length, length-append, take, drop, length-take, take-append-drop, ltb, nat_eq, ok,
  ok-ne-err, ok-injective, arith,
}
use mathlib.Core.Bool.{true≢false}
use zabbig.Crypto.{Bytes, same_bytes, iv_len, repeat_byte, pad, last_from, unpad}

pub length-repeat_byte : (b n : ℕ) → length (repeat_byte b n) ≡ n
length-repeat_byte b zero = refl
length-repeat_byte b (suc n) = ap suc (length-repeat_byte b n)

pub take-length-append : (xs ys : Bytes) (n : ℕ) → length xs ≡ n → take n (xs ++ ys) ≡ xs
take-length-append [] ys zero h = refl
take-length-append [] ys (suc n) h = absurd (omega (arith, h))
take-length-append (x ∷ xs) ys zero h = absurd (omega (arith, h))
take-length-append (x ∷ xs) ys (suc n) h =
    ap (λ r. x ∷ r) (take-length-append xs ys n (omega (arith, h)))

pub drop-length-append : (xs ys : Bytes) (n : ℕ) → length xs ≡ n → drop n (xs ++ ys) ≡ ys
drop-length-append [] ys zero h = refl
drop-length-append [] ys (suc n) h = absurd (omega (arith, h))
drop-length-append (x ∷ xs) ys zero h = absurd (omega (arith, h))
drop-length-append (x ∷ xs) ys (suc n) h = drop-length-append xs ys n (omega (arith, h))

last_from-append : (c : ℕ) (xs : Bytes) (b n : ℕ) → last_from c (xs ++ repeat_byte b (suc n)) ≡ b
last_from-append c [] b zero = refl
last_from-append c [] b (suc n) = last_from-append b [] b n
last_from-append c (x ∷ xs) b n = last_from-append x xs b n

-- The length of the padding.
abbrev pad_len : Bytes → ℕ
pad_len bytes = iv_len - length bytes % iv_len

pad_len-bounds : (bytes : Bytes) → (1 ≤ pad_len bytes) × (pad_len bytes ≤ iv_len)
pad_len-bounds bytes = (omega arith, omega arith)

-- A padded text is never empty, and its length is a multiple of the block's.
pub length-pad : (bytes : Bytes) → (length (pad bytes) % iv_len ≡ 0) × (1 ≤ length (pad bytes))
unfolding pad
length-pad bytes =
    let n = pad_len bytes in
    (
      omega (arith, length-append bytes (repeat_byte n n), length-repeat_byte n n),
      omega (arith, length-append bytes (repeat_byte n n), length-repeat_byte n n),
    )

pub same_bytes-true : (a b : Bytes) → a ≡ b → same_bytes a b ≡ true
same_bytes-true [] b e = ap (same_bytes []) (sym e)
same_bytes-true (x ∷ xs) b e =
    ap (same_bytes (x ∷ xs)) (sym e) ∙ ground (arith, same_bytes-true xs xs refl)

pub same_bytes-equal : (a b : Bytes) → same_bytes a b ≡ true → a ≡ b
same_bytes-equal [] [] e = refl
same_bytes-equal [] (y ∷ ys) e = absurd (true≢false (sym e))
same_bytes-equal (x ∷ xs) [] e = absurd (true≢false (sym e))
same_bytes-equal (x ∷ xs) (y ∷ ys) e =
    let same : x ≡ y = ground arith in
    let rest : xs ≡ ys = same_bytes-equal xs ys (ground arith) in
    ap (λ (z : ℕ). z ∷ xs) same ∙ ap (λ (zs : Bytes). y ∷ zs) rest

pad_len_in_range : (n : ℕ) → 1 ≤ n → n ≤ iv_len → (ltb n 1 || ltb iv_len n) ≡ false
pad_len_in_range n low high = ground arith

unpad_lem :
    (b : ℕ) (rest xs : Bytes) (n : ℕ)
    → b ∷ rest ≡ xs ++ repeat_byte n n
    → 1 ≤ n
    → n ≤ iv_len
    → unpad (b ∷ rest) ≡ ok xs
unfolding unpad
unpad_lem b rest xs zero e low high = absurd (omega (arith, low))
unpad_lem b rest xs (suc k) e low high =
    let n = suc k in
    let last : last_from b rest ≡ n = ap (last_from 0) e ∙ last_from-append 0 xs n k in
    let size : length xs ≡ length (b ∷ rest) - n =
      omega (arith, ap length e, length-append xs (repeat_byte n n), length-repeat_byte n n) in
    let tail : drop (length (b ∷ rest) - n) (b ∷ rest) ≡ repeat_byte n n =
      ap (drop (length (b ∷ rest) - n)) e ∙ drop-length-append xs (repeat_byte n n) _ size in
    let head : take (length (b ∷ rest) - n) (b ∷ rest) ≡ xs =
      ap (take (length (b ∷ rest) - n)) e ∙ take-length-append xs (repeat_byte n n) _ size in
    rw (last, pad_len_in_range n low high, same_bytes-true _ _ tail, head) refl

-- What is padded is unpadded again.
pub unpad-pad : (bytes : Bytes) → unpad (pad bytes) ≡ ok bytes
unfolding pad
unpad-pad bytes = nonempty (bytes ++ repeat_byte n n) refl
  where
    n : ℕ
    n = pad_len bytes

    nonempty : (padded : Bytes) → padded ≡ bytes ++ repeat_byte n n → unpad padded ≡ ok bytes
    nonempty [] e =
        absurd (
          omega (arith, ap length e, length-append bytes (repeat_byte n n), length-repeat_byte n n))
    nonempty (b ∷ rest) e =
        unpad_lem b rest bytes n e (pad_len-bounds bytes).0 (pad_len-bounds bytes).1

-- What the checks of `unpad` let through.
unpadded :
    (b : ℕ) (rest xs : Bytes)
    → unpad (b ∷ rest) ≡ ok xs
    → (n : ℕ) × (1 ≤ n)
      × (n ≤ iv_len)
      × (drop (length (b ∷ rest) - n) (b ∷ rest) ≡ repeat_byte n n)
      × (take (length (b ∷ rest) - n) (b ∷ rest) ≡ xs)
unfolding unpad
unpadded b rest xs e =
    let n = last_from b rest in
    let start = length (b ∷ rest) - n in
    elim (Bool-cases (ltb n 1 || ltb iv_len n)) [
      | inl out ↦ absurd (ok-ne-err xs _ (sym (rw out at e)))
      | inr fits ↦ elim (Bool-cases (same_bytes (drop start (b ∷ rest)) (repeat_byte n n))) [
        | inr differ ↦ absurd (ok-ne-err xs _ (sym (rw (fits, differ) at e)))
        | inl same ↦ (
          n,
          ground (arith, fits),
          ground (arith, fits),
          same_bytes-equal _ _ same,
          ok-injective _ _ (rw (fits, same) at e),
        )
      ]
    ]

unpad-nil : (bytes : Bytes) → unpad [] ≡ ok bytes → ⊥
unfolding unpad
unpad-nil bytes e = ok-ne-err bytes _ (sym e)

-- The padding is the only one: what is unpadded to a text, of whole blocks, is the text padded.
pub pad-unpad :
    (padded bytes : Bytes)
    → length padded % iv_len ≡ 0
    → unpad padded ≡ ok bytes
    → pad bytes ≡ padded
unfolding pad
pad-unpad [] bytes whole e = absurd (unpad-nil bytes e)
pad-unpad (b ∷ rest) bytes whole e =
    let (n, low, high, tail, head) = unpadded b rest bytes e in
    let padded = b ∷ rest in
    let start = length padded - n in
    let size : length bytes ≡ start =
      ap length (sym head) ∙ length-take start padded ∙ omega arith in
    let same : pad_len bytes ≡ n = omega (arith, size, whole, low, high) in
    ap (λ (k : ℕ). bytes ++ repeat_byte k k) same
    ∙ ap (λ (x : Bytes). x ++ repeat_byte n n) (sym head)
    ∙ ap (λ (y : Bytes). take start padded ++ y) (sym tail)
    ∙ take-append-drop start padded
