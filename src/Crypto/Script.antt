-- ===== src/Crypto/Script.antt =====
-- zabbig_client/scripts/encrypt_password.py: the script that encrypts and decrypts passwords. The state
-- is the key in the environment and in the key file; argparse has filled in the arguments. The value of
-- a run is its exit code, with what it prints on the standard output.
pub mod Recovered
use zabbig.Prelude.{
  ℕ, ◌≡◌, refl, sym, ap, ◌∙◌, String, Bool, true, false, Option, none, some, List, length, ◌==◌,
  string_eq, if◌then◌else◌, Result, ok, err, Exc, ExcKind, runtime_error, value_error, ok-injective,
  invert, ◌>>=◌, arith,
}
use zabbig.Prelude.State.{Action}
use zabbig.Prelude.Affix.{append}
use zabbig.Crypto.{
  Bytes, Primitives, iv_len, key_len, key_to_str, enc_prefix, encrypt, decrypt, each_block, blocks,
  pad, without_padding,
}
use zabbig.Crypto.Contract.{IsCbc, IsBase64, IsSha256}
use zabbig.Crypto.Token.{decrypt-encrypt}
use zabbig.Crypto.Keys.{KeyStore, load_key, load_or_create_key, load_key-load_or_create_key}

pub record Args : Type 0 where
  -- `args.decrypt`
  pub decrypting : Bool
  pub generate_key : Bool
  pub show_key : Bool
  pub value : Option String

abbrev pub Outcome : Type 0
Outcome = ℕ × Option String

-- `except RuntimeError` and `except ValueError`, which print the error and return 1
failed_key : ExcKind → Exc → Result Outcome
failed_key runtime_error e = ok (1, none)
failed_key kind e = err e

failed_token : ExcKind → Exc → Result Outcome
failed_token value_error e = ok (1, none)
failed_token kind e = err e

-- `if not args.value`
unfoldable pub is_given : Option String → Bool
is_given none = false
is_given (some s) = if s == "" then false else true

module _ (p : Primitives) where
  show_loaded : Result Bytes → Result Outcome
  show_loaded (ok key) = ok (0, some (key_to_str p key))
  show_loaded (err e) = failed_key e.kind e

  decrypted_text : Result String → Result Outcome
  decrypted_text (ok plaintext) = ok (0, some plaintext)
  decrypted_text (err e) = failed_token e.kind e

  decrypt_with : String → Result Bytes → Result Outcome
  decrypt_with value (ok key) = decrypted_text (decrypt p value key)
  decrypt_with value (err e) = failed_key e.kind e

  encrypt_with : Bytes → String → Result Bytes → Result Outcome
  encrypt_with iv value (ok key) = do token ← encrypt p iv value key; ok (0, some token)
  encrypt_with iv value (err e) = err e

  with_value : Bytes → Bytes → Bool → Option String → Action KeyStore Outcome
  with_value new_key iv decrypting none store = (ok (1, none), store)
  with_value new_key iv true (some value) store = (decrypt_with value (load_key p store), store)
  with_value new_key iv false (some value) store =
      let (key, after) = load_or_create_key p new_key store in (encrypt_with iv value key, after)

  -- `main`, with the random bytes that a new key and a new initialisation vector would have
  unfoldable pub main : Bytes → Bytes → Args → Action KeyStore Outcome
  unfolding with_value encrypt_with decrypt_with decrypted_text show_loaded failed_key failed_token
  main new_key iv args store =
      if args.generate_key
      then (ok (0, some (key_to_str p new_key)), store)
      else if args.show_key
      then (show_loaded (load_key p store), store)
      else if is_given args.value
      then with_value new_key iv args.decrypting args.value store
      else (ok (1, none), store)

-- The arguments of `encrypt_password.py VALUE` and of `encrypt_password.py --decrypt VALUE`.
abbrev pub to_encrypt : String → Args
to_encrypt value = record {
  decrypting = false;
  generate_key = false;
  show_key = false;
  value = some value;
}

abbrev pub to_decrypt : String → Args
to_decrypt value = record (to_encrypt value) { decrypting = true }
