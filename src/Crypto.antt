-- ===== src/Crypto.antt =====
-- zabbig_client/src/zabbig_client/_dbcrypto.py: the encryption of database passwords. The block cipher
-- (pyaes), HMAC-SHA256, base64 and UTF-8 are libraries, the record `Primitives`. Bytes are numbers.
-- What `os.urandom` gives is an argument.
pub mod Script
pub mod Padding
pub mod Blocks
pub mod Contract
pub mod Token
pub mod Keys
use zabbig.Prelude.{
  ℕ, zero, suc, ◌+◌, ◌-◌, ◌%◌, String, Bool, true, false, not, ◌&&◌, ◌||◌, Option, none, some, List,
  [], ◌∷◌, ◌++◌, map, length, take, drop, ltb, ◌==◌, Eq, nat_eq, string_eq, if◌then◌else◌, Result,
  ok, err, raise, Exc, ExcKind, value_error, runtime_error, os_error, ◌>>=◌,
}
use zabbig.Prelude.Affix.{append, repeat_char, starts_with, skip, rstrip, strip}
use zabbig.Prelude.Text.{codes}

abbrev pub Bytes : Type 0
Bytes = List ℕ

-- `a == b`, and `hmac.compare_digest(a, b)`
abbrev pub same_bytes : Bytes → Bytes → Bool
same_bytes [] [] = true
same_bytes [] (y ∷ ys) = false
same_bytes (x ∷ xs) [] = false
same_bytes (x ∷ xs) (y ∷ ys) = x == y && same_bytes xs ys

-- `pyaes.AESModeOfOperationCBC(key, iv)` and its two methods, `hmac.new(key, msg, sha256).digest()`,
-- the base64 of `base64.urlsafe_b64encode` as text, and its inverse, and the two of UTF-8.
pub record Primitives : Type 1 where
  pub Cipher : Type 0
  pub new : Bytes → Bytes → Result Cipher
  pub encrypt_block : Cipher → Bytes → Result (Bytes × Cipher)
  pub decrypt_block : Cipher → Bytes → Result (Bytes × Cipher)
  pub digest : Bytes → Bytes → Bytes
  pub b64encode : Bytes → String
  pub b64decode : String → Result Bytes
  pub encode : String → Bytes
  pub decode : Bytes → Result String

abbrev pub iv_len : ℕ
iv_len = 16

abbrev pub key_len : ℕ
key_len = 32

abbrev pub hmac_len : ℕ
hmac_len = 32

abbrev pub enc_prefix : String
enc_prefix = "ENC:"

-- `bytes([b] * n)`
abbrev pub repeat_byte : ℕ → ℕ → Bytes
repeat_byte b zero = []
repeat_byte b (suc n) = b ∷ repeat_byte b n

-- `_pad`
unfoldable pub pad : Bytes → Bytes
pad bytes = let pad_len = iv_len - length bytes % iv_len in bytes ++ repeat_byte pad_len pad_len

-- `data[-1]` of the bytes `b` and more.
abbrev pub last_from : ℕ → Bytes → ℕ
last_from b [] = b
last_from b (c ∷ bytes) = last_from c bytes

-- `_unpad`. `data[-n:]` and `data[:-n]` are the whole and nothing if `n` is too large.
unfoldable pub unpad : Bytes → Result Bytes
unpad [] = raise value_error "Empty bytes after decryption"
unpad (b ∷ rest) =
    let bytes = b ∷ rest in
    let pad_len = last_from b rest in
    let start = length bytes - pad_len in
    if ltb pad_len 1 || ltb iv_len pad_len
    then raise value_error "Invalid PKCS7 padding byte"
    else if not (same_bytes (drop start bytes) (repeat_byte pad_len pad_len))
    then raise value_error "PKCS7 padding verification failed"
    else ok (take start bytes)

-- The slices `data[i:i + 16]` for `i in range(0, len(data), 16)`; fuel `len(data)` is enough.
unfoldable pub blocks_from : ℕ → ℕ → Bytes → List Bytes
blocks_from zero i bytes = []
blocks_from (suc fuel) i bytes =
    let rest = blocks_from fuel (i + iv_len) bytes in
    if ltb i (length bytes) then take iv_len (drop i bytes) ∷ rest else []

unfoldable pub blocks : Bytes → List Bytes
unfolding blocks_from
blocks bytes = blocks_from (length bytes) 0 bytes

-- The loop over the blocks, by one of the two methods.
unfoldable pub each_block :
    {Cipher : Type 0}
    → (Cipher → Bytes → Result (Bytes × Cipher))
    → Cipher
    → List Bytes
    → Result Bytes
each_block method aes [] = ok []
each_block method aes (block ∷ rest) = do
  done ← method aes block
  others ← each_block method done.1 rest
  ok (done.0 ++ others)

-- `(-len(s)) % 4` times `=` after `s`
unfoldable pub with_padding : String → String
with_padding s = append s (repeat_char "=" ((4 - length (codes s) % 4) % 4))

-- `.rstrip(b"=")`
unfoldable pub without_padding : String → String
without_padding s = rstrip (λ c. c == b'=') s

-- `is_encrypted`
unfoldable pub is_encrypted : String → Bool
unfolding starts_with
is_encrypted value = starts_with enc_prefix value

module _ (p : Primitives) where
  -- `key_to_str`
  unfoldable pub key_to_str : Bytes → String
  key_to_str key = without_padding (p.b64encode key)

  checked_key : Bytes → Result Bytes
  checked_key raw = if length raw == key_len then ok raw else raise value_error "Invalid key length"

  -- `key_from_str`
  unfoldable pub key_from_str : String → Result Bytes
  unfolding checked_key
  key_from_str s = p.b64decode (with_padding (strip s)) >>= checked_key

  -- `encrypt`, with the random bytes `iv`
  unfoldable pub encrypt : Bytes → String → Bytes → Result String
  encrypt iv plaintext key = do
    aes ← p.new key iv
    ciphertext ← each_block p.encrypt_block aes (blocks (pad (p.encode plaintext)))
    ok (
        append enc_prefix
          (without_padding (p.b64encode (p.digest key (iv ++ ciphertext) ++ (iv ++ ciphertext)))))

  -- `except Exception as exc: raise ValueError`
  abbrev as_value_error : {A : Type 0} → Result A → Result A
  as_value_error (ok a) = ok a
  as_value_error (err e) = raise value_error "Invalid base64 in token"

  -- The payload of a token.
  unfoldable pub payload_of : String → Result Bytes
  payload_of token =
      if not (is_encrypted token)
      then raise value_error "Token does not start with 'ENC:'"
      else as_value_error (p.b64decode (with_padding (skip (length (codes enc_prefix)) token)))

  unfoldable pub open_payload : Bytes → Bytes → Result String
  open_payload payload key =
      let iv = take iv_len (drop hmac_len payload) in
      let ciphertext = drop (hmac_len + iv_len) payload in
      let opened = (do
        aes ← p.new key iv
        padded ← each_block p.decrypt_block aes (blocks ciphertext)
        text ← unpad padded
        p.decode text) in
      if ltb (length payload) (hmac_len + iv_len + iv_len)
      then raise value_error "Token too short"
      else if not (same_bytes (take hmac_len payload) (p.digest key (iv ++ ciphertext)))
      then raise value_error "HMAC verification failed"
      else opened

  -- `decrypt`
  unfoldable pub decrypt : String → Bytes → Result String
  decrypt token key = do payload ← payload_of token; open_payload payload key

  -- `decrypt_if_encrypted`
  unfoldable pub decrypt_if_encrypted : String → Bytes → Result String
  decrypt_if_encrypted value key = if is_encrypted value then decrypt value key else ok value
