-- ===== src/Crypto/Script/Recovered.antt =====
-- encrypt_password.py: a run that encrypts and a later one that decrypts.
use mathlib.Core.Path.{subst}
use zabbig.Prelude.{
  ◌≡◌, refl, ap, String, true, false, Bool-cases, inl, inr, some, length, ◌==◌, string_eq, ok,
  ok-injective, invert, arith,
}
use zabbig.Prelude.Text.{codes}
use zabbig.Prelude.Affix.{append}
use zabbig.Crypto.{
  Bytes, Primitives, iv_len, key_len, enc_prefix, encrypt, decrypt, each_block, blocks, pad,
}
use zabbig.Crypto.Contract.{IsCbc, IsBase64, IsSha256}
use zabbig.Crypto.Token.{decrypt-encrypt}
use zabbig.Crypto.Keys.{KeyStore, load_or_create_key, load_key-size, load_key-load_or_create_key}
use zabbig.Crypto.Script.{is_given, main, to_encrypt, to_decrypt}

is_given-append : (s : String) → is_given (some (append enc_prefix s)) ≡ true
unfolding is_given
is_given-append s = elim (Bool-cases (append enc_prefix s == "")) [
  | inr filled ↦ rw filled refl
  | inl none_left ↦
      let same : append enc_prefix s ≡ "" = ground (arith, none_left) in
      absurd (omega (arith, ap (λ (t : String). length (codes t)) same))
]

is_given-filled : (s : String) → (s == "") ≡ false → is_given (some s) ≡ true
unfolding is_given
is_given-filled s h = rw h refl

module _ (p : Primitives) where
  -- A token is not empty.
  is_given-encrypt :
      (iv : Bytes) (plaintext : String) (key : Bytes) (token : String)
      → encrypt p iv plaintext key ≡ ok token
      → is_given (some token) ≡ true
  unfolding encrypt
  is_given-encrypt iv plaintext key token e =
      let (aes, _, e1) = invert (p.new key iv) _ token e in
      let (ciphertext, _, e2) =
        invert (each_block p.encrypt_block aes (blocks (pad (p.encode plaintext)))) _ token e1 in
      subst (λ (t : String). is_given (some t) ≡ true) (ok-injective _ _ e2) (is_given-append _)

  -- If the script can find or make a key, then for every password that is not empty and survives UTF-8
  -- it prints a token and exits with 0, and from then on `--decrypt` with that token prints the
  -- password and exits with 0. AES with keys of 32 bytes, base64 and SHA-256 do what they are documented
  -- to do, and new keys and initialisation vectors have their sizes.
  pub main-recovers :
      (new_key iv iv' other_key found : Bytes) (password : String) (store store' : KeyStore)
      → ((key : Bytes) → length key ≡ key_len → IsCbc p key iv)
      → IsBase64 p
      → IsSha256 p
      → length iv ≡ iv_len
      → length new_key ≡ key_len
      → p.decode (p.encode password) ≡ ok password
      → (password == "") ≡ false
      → load_or_create_key p new_key store ≡ (ok found, store')
      → (token : String) × (main p new_key iv (to_encrypt password) store
          ≡ (ok (0, some token), store'))
        × (main p other_key iv' (to_decrypt token) store' ≡ (ok (0, some password), store'))
  unfolding main
  main-recovers new_key iv iv' other_key found password store store' cbc b64 sha iv_size key_size
        utf8 filled creates =
      let again = load_key-load_or_create_key p b64 new_key store store' found key_size creates in
      let size : length found ≡ key_len = load_key-size p b64 store' found again in
      let (token, made, back) =
        invert (encrypt p iv password found) (λ token. decrypt p token found) password
          (decrypt-encrypt p found iv password (cbc found size) b64 utf8 sha iv_size) in
      let given : is_given (some password) ≡ true = is_given-filled password filled in
      let token_given = is_given-encrypt iv password found token made in
      (token, rw (given, creates, made) refl, rw (token_given, again, back) refl)
