-- ===== src/Crypto/Contract.antt =====
-- What _dbcrypto.py relies on in its libraries, as they are documented.
use zabbig.Prelude.{ℕ, ◌%◌, ◌<◌, ◌≡◌, String, ok, err, Exc, value_error, length}
use zabbig.Prelude.Affix.{append, repeat_char, strip}
use zabbig.Prelude.Text.{codes}
use zabbig.Crypto.{Bytes, Primitives, iv_len, hmac_len, without_padding}

-- CBC: a cipher that encrypts and a fresh one that decrypts go through the same states, so that the
-- second gives back the blocks that the first was given. A block keeps its length.
pub record IsCbc (p : Primitives) (key iv : Bytes) : Type 1 where
  pub Paired : p.Cipher → p.Cipher → Type 0
  pub aes : p.Cipher
  pub started : p.new key iv ≡ ok aes
  pub fresh : Paired aes aes
  pub step :
      (e d : p.Cipher) (block : Bytes)
      → Paired e d
      → length block ≡ iv_len
      → (c : Bytes) × (e' : p.Cipher) × (d' : p.Cipher) × (p.encrypt_block e block ≡ ok (c, e'))
        × (length c ≡ iv_len)
        × (p.decrypt_block d c ≡ ok (block, d'))
        × Paired e' d'

-- Base64: at most three `=` bring the text to a multiple of four characters, the rest of it does
-- not end with `=` and neither starts nor ends with white space, and decoding is the inverse,
-- which refuses other texts with a ValueError.
pub record IsBase64 (p : Primitives) : Type 0 where
  pub body : Bytes → String
  pub padding : Bytes → ℕ
  pub shape : (b : Bytes) → p.b64encode b ≡ append (body b) (repeat_char "=" (padding b))
  pub few : (b : Bytes) → padding b < 4
  pub fours : (b : Bytes) → length (codes (p.b64encode b)) % 4 ≡ 0
  pub bare : (b : Bytes) → without_padding (body b) ≡ body b
  pub solid : (b : Bytes) → strip (append (body b) "\n") ≡ body b
  pub solid_alone : (b : Bytes) → strip (body b) ≡ body b
  pub inverse : (b : Bytes) → p.b64decode (p.b64encode b) ≡ ok b
  pub refuses : (s : String) (e : Exc) → p.b64decode s ≡ err e → e.kind ≡ value_error

-- A digest of SHA-256 has 32 bytes.
pub record IsSha256 (p : Primitives) : Type 0 where
  pub size : (key message : Bytes) → length (p.digest key message) ≡ hmac_len
