-- ===== src/Crypto/Token.antt =====
-- _dbcrypto.py, `encrypt` and `decrypt`: a token gives back its text, and only an authentic one is opened.
use zabbig.Prelude.{
  ℕ, ◌+◌, ◌-◌, ◌%◌, ◌≤◌, ◌≡◌, refl, sym, ap, ◌∙◌, String, true, false, Bool-cases, inl, inr, List,
  [], ◌∷◌, ◌++◌, append_assoc, length, length-append, take, drop, take-append-drop, zero, suc, ltb,
  ◌==◌, nat_eq, ok, ◌>>=◌, invert, ok-ne-err, arith,
}
use zabbig.Prelude.Affix.{
  append, repeat_char, starts_with-append, skip-append, rstrip-append, codes-append,
  length-codes-repeat_char,
}
use zabbig.Prelude.Text.{codes}
use zabbig.Crypto.{
  Bytes, same_bytes, Primitives, iv_len, hmac_len, enc_prefix, pad, blocks, each_block,
  with_padding, without_padding, is_encrypted, encrypt, payload_of, open_payload, decrypt,
}
use zabbig.Crypto.Padding.{
  take-length-append, drop-length-append, length-pad, unpad-pad, same_bytes-true, same_bytes-equal,
}
use zabbig.Crypto.Blocks.{joined, AreWhole, length-joined, blocks-joined, whole_blocks}
use zabbig.Crypto.Contract.{IsCbc, IsBase64, IsSha256}

without_padding-append :
    (s : String) (n : ℕ) → without_padding (append s (repeat_char "=" n)) ≡ without_padding s
unfolding without_padding
without_padding-append s n = rstrip-append (λ c. c == b'=') s "=" n (ground arith)

drop-drop : (m n k : ℕ) (xs : Bytes) → k ≡ m + n → drop k xs ≡ drop n (drop m xs)
drop-drop zero n k xs e = ap (λ (i : ℕ). drop i xs) (omega (arith, e))
drop-drop (suc m) n zero xs e = absurd (omega (arith, e))
drop-drop (suc m) zero (suc k) [] e = refl
drop-drop (suc m) (suc n) (suc k) [] e = refl
drop-drop (suc m) n (suc k) (x ∷ xs) e = drop-drop m n k xs (omega (arith, e))

module _ (p : Primitives) where
  module _ (key iv : Bytes) (cbc : IsCbc p key iv) where
    -- What one cipher encrypts the other decrypts, block after block.
    each_block-inverse :
        (cs : List Bytes) (e d : p.Cipher)
        → AreWhole cs
        → cbc.Paired e d
        → (out : List Bytes) × AreWhole out
          × (length out ≡ length cs)
          × (each_block p.encrypt_block e cs ≡ ok (joined out))
          × (each_block p.decrypt_block d out ≡ ok (joined cs))
    unfolding each_block
    each_block-inverse [] e d h paired = ([], tt, refl, refl, refl)
    each_block-inverse (b ∷ cs) e d (h, hs) paired =
        let (c, e', d', encrypted, size, decrypted, paired') = cbc.step e d b paired h in
        let (out, whole, same, enc, dec) = each_block-inverse cs e' d' hs paired' in
        (c ∷ out, (size, whole), ap ℕ.suc same, rw (encrypted, enc) refl, rw (decrypted, dec) refl)

  pub without_padding-b64encode :
      (b64 : IsBase64 p) (b : Bytes) → without_padding (p.b64encode b) ≡ b64.body b
  without_padding-b64encode b64 b =
      ap without_padding (b64.shape b)
      ∙ without_padding-append (b64.body b) (b64.padding b)
      ∙ b64.bare b

  -- Stripping the `=` and putting back as many as are missing to a multiple of four.
  pub with_padding-without_padding :
      (b64 : IsBase64 p) (b : Bytes)
      → with_padding (without_padding (p.b64encode b)) ≡ p.b64encode b
  unfolding with_padding
  with_padding-without_padding b64 b =
      let count : (4 - length (codes (b64.body b)) % 4) % 4 ≡ b64.padding b = omega (
        arith,
        b64.few b,
        sym (b64.fours b) ∙ ap (λ (s : String). length (codes s) % 4) (b64.shape b),
        ap length (codes-append (b64.body b) (repeat_char "=" (b64.padding b))),
        length-append (codes (b64.body b)) (codes (repeat_char "=" (b64.padding b))),
        length-codes-repeat_char "=" (b64.padding b),
      ) in
      rw (without_padding-b64encode b64 b, count) (sym (b64.shape b))

  module _ (b64 : IsBase64 p) where
    -- The payload that a token was made of.
    payload_of-token :
        (payload : Bytes)
        → payload_of p (append enc_prefix (without_padding (p.b64encode payload))) ≡ ok payload
    unfolding payload_of is_encrypted
    payload_of-token payload =
        let text = without_padding (p.b64encode payload) in
        rw
          (
            starts_with-append enc_prefix text,
            skip-append enc_prefix text,
            with_padding-without_padding b64 payload,
            b64.inverse payload,
          )
          refl

  module _ (key iv : Bytes) (cbc : IsCbc p key iv) (sha : IsSha256 p)
      (iv_size : length iv ≡ iv_len) where
    open_payload-blocks :
        (out : List Bytes) (text : Bytes) (plaintext : String)
        → AreWhole out
        → 1 ≤ length out
        → each_block p.decrypt_block cbc.aes out ≡ ok (pad text)
        → p.decode text ≡ ok plaintext
        → open_payload p (p.digest key (iv ++ joined out) ++ (iv ++ joined out)) key ≡ ok plaintext
    unfolding open_payload
    open_payload-blocks out text plaintext whole some decrypted decoded =
        let mac = p.digest key (iv ++ joined out) in
        let payload = mac ++ (iv ++ joined out) in
        let long : ltb (length payload) (hmac_len + iv_len + iv_len) ≡ false = ground (
          arith,
          length-append mac (iv ++ joined out),
          length-append iv (joined out),
          sha.size key (iv ++ joined out),
          iv_size,
          length-joined out whole,
          some,
        ) in
        let first : take hmac_len payload ≡ mac = take-length-append mac _ _ (sha.size key _) in
        let second : drop hmac_len payload ≡ iv ++ joined out =
          drop-length-append mac _ _ (sha.size key _) in
        let vector : take iv_len (iv ++ joined out) ≡ iv = take-length-append iv _ _ iv_size in
        let rest : drop (hmac_len + iv_len) payload ≡ joined out =
          ap (drop (hmac_len + iv_len)) (sym (append_assoc mac iv (joined out)))
          ∙ drop-length-append (mac ++ iv) (joined out) (hmac_len + iv_len)
              (omega (arith, length-append mac iv, sha.size key (iv ++ joined out), iv_size)) in
        rw
          (
            long,
            first,
            second,
            vector,
            rest,
            same_bytes-true mac mac refl,
            cbc.started,
            blocks-joined out whole,
            decrypted,
            unpad-pad text,
          )
          decoded

  -- Whatever the text, and for every initialisation vector of 16 bytes that encryption draws, a token is
  -- made and decrypting it with the same key gives back the text: with a block cipher in CBC mode, a
  -- base64 and a SHA-256 that do what they are documented to do, and a text that survives UTF-8.
  pub decrypt-encrypt :
      (key iv : Bytes) (plaintext : String)
      → IsCbc p key iv
      → IsBase64 p
      → p.decode (p.encode plaintext) ≡ ok plaintext
      → IsSha256 p
      → length iv ≡ iv_len
      → (encrypt p iv plaintext key >>= λ token. decrypt p token key) ≡ ok plaintext
  unfolding encrypt decrypt
  decrypt-encrypt key iv plaintext cbc b64 utf8 sha iv_size =
      let text = p.encode plaintext in
      let (cs, whole, same) = whole_blocks (pad text) (length-pad text).0 in
      let (out, whole_out, count, encrypted, decrypted) =
        each_block-inverse key iv cbc cs cbc.aes cbc.aes whole cbc.fresh in
      let sliced : blocks (pad text) ≡ cs = ap blocks (sym same) ∙ blocks-joined cs whole in
      let some : 1 ≤ length out =
        omega (arith, count, length-joined cs whole, ap length same, (length-pad text).1) in
      rw
        (
          cbc.started,
          sliced,
          encrypted,
          payload_of-token b64 (p.digest key (iv ++ joined out) ++ (iv ++ joined out)),
        )
        (open_payload-blocks key iv cbc sha iv_size out text plaintext whole_out some
          (decrypted ∙ ap ok same) utf8)

  payload_of-is_encrypted :
      (token : String) (payload : Bytes)
      → payload_of p token ≡ ok payload
      → is_encrypted token ≡ true
  unfolding payload_of
  payload_of-is_encrypted token payload e = elim (Bool-cases (is_encrypted token)) [
    | inl known ↦ known
    | inr other ↦ absurd (ok-ne-err payload _ (sym (rw other at e)))
  ]

  iv_ciphertext :
      (payload : Bytes)
      → take iv_len (drop hmac_len payload) ++ drop (hmac_len + iv_len) payload
        ≡ drop hmac_len payload
  iv_ciphertext payload =
      ap (λ (c : Bytes). take iv_len (drop hmac_len payload) ++ c)
        (drop-drop hmac_len iv_len (hmac_len + iv_len) payload refl)
      ∙ take-append-drop iv_len (drop hmac_len payload)

  open_payload-authentic :
      (payload key : Bytes) (plaintext : String)
      → open_payload p payload key ≡ ok plaintext
      → (hmac_len + iv_len + iv_len ≤ length payload)
        × (take hmac_len payload ≡ p.digest key (drop hmac_len payload))
  unfolding open_payload
  open_payload-authentic payload key plaintext e =
      let signed = take iv_len (drop hmac_len payload) ++ drop (hmac_len + iv_len) payload in
      elim (Bool-cases (ltb (length payload) (hmac_len + iv_len + iv_len))) [
        | inl short ↦ absurd (ok-ne-err plaintext _ (sym (rw short at e)))
        | inr long ↦ elim (Bool-cases (same_bytes (take hmac_len payload) (p.digest key signed))) [
          | inr differ ↦ absurd (ok-ne-err plaintext _ (sym (rw (long, differ) at e)))
          | inl same ↦ (
            ground (arith, long),
            same_bytes-equal _ _ same ∙ ap (p.digest key) (iv_ciphertext payload),
          )
        ]
      ]

  -- Only an authentic token is opened, whatever the libraries do: it says `ENC:`, its payload has a digest,
  -- an initialisation vector and at least one block, and the digest is that of the rest under this key.
  pub decrypt-authentic :
      (token : String) (key : Bytes) (plaintext : String)
      → decrypt p token key ≡ ok plaintext
      → (is_encrypted token ≡ true)
        × ((payload : Bytes) × (payload_of p token ≡ ok payload)
            × (hmac_len + iv_len + iv_len ≤ length payload)
            × (take hmac_len payload ≡ p.digest key (drop hmac_len payload)))
  unfolding decrypt
  decrypt-authentic token key plaintext e =
      let (payload, found, opened) =
        invert (payload_of p token) (λ x. open_payload p x key) plaintext e in
      let (long, signed) = open_payload-authentic payload key plaintext opened in
      (payload_of-is_encrypted token payload found, (payload, found, long, signed))
