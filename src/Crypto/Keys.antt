-- ===== src/Crypto/Keys.antt =====
-- _dbcrypto.py, `load_key` and `load_or_create_key`: the environment variable ZABBIG_DB_KEY and the file
-- secret.key are the state. Making the directory and `os.chmod` are taken to work where writing does.
use mathlib.Core.Path.{subst}
use zabbig.Prelude.{
  err-injective, ok-injective, invert, ◌≡◌, refl, sym, ap, ◌∙◌, String, Bool, true, false,
  Bool-cases, inl, inr, Option, none, some, length, ◌==◌, string_eq, nat_eq, if◌then◌else◌, Result,
  ok, err, raise, Exc, ◌>>=◌, ok-ne-err, ExcKind, value_error, runtime_error, os_error, arith,
}
use zabbig.Prelude.Affix.{append, strip}
use zabbig.Prelude.State.{Action}
use zabbig.Crypto.{Bytes, Primitives, key_len, key_to_str, key_from_str, checked_key, with_padding}
use zabbig.Crypto.Contract.{IsBase64}
use zabbig.Crypto.Token.{with_padding-without_padding, without_padding-b64encode}

other_kinds : value_error ≡ runtime_error → ⊥
other_kinds e = cc

-- `ZABBIG_DB_KEY`, the content of the key file if it is there, and whether it can be written.
pub record KeyStore : Type 0 where
  pub variable : Option String
  pub key_file : Option String
  pub can_write : Bool

-- `os.environ.get("ZABBIG_DB_KEY", "")`
abbrev env_text : Option String → String
env_text none = ""
env_text (some s) = s

module _ (p : Primitives) where
  key_of_file : Option String → Result Bytes
  key_of_file (some content) = key_from_str p (strip content)
  key_of_file none = raise runtime_error "No encryption key found."

  -- `load_key`
  unfoldable pub load_key : KeyStore → Result Bytes
  unfolding key_of_file
  load_key store =
      let env_val = strip (env_text store.variable) in
      if env_val == "" then key_of_file store.key_file else key_from_str p env_val

  unfoldable pub save_key : Bytes → Action KeyStore Bytes
  save_key key store =
      if store.can_write
      then (ok key, record store { key_file = some (append (key_to_str p key) "\n") })
      else (raise os_error "cannot write the key file", store)

  -- `except RuntimeError`
  abbrev on_error : Bytes → ExcKind → Exc → Action KeyStore Bytes
  on_error key runtime_error e store = save_key key store
  on_error key kind e store = (err e, store)

  or_create : Bytes → Result Bytes → Action KeyStore Bytes
  or_create key (ok found) store = (ok found, store)
  or_create key (err e) store = on_error key e.kind e store

  -- `load_or_create_key`, with the random bytes of `generate_key`
  unfoldable pub load_or_create_key : Bytes → Action KeyStore Bytes
  unfolding or_create
  load_or_create_key key store = or_create key (load_key store) store

module _ (p : Primitives) (b64 : IsBase64 p) where
  key_to_str-body : (key : Bytes) → key_to_str p key ≡ b64.body key
  unfolding key_to_str
  key_to_str-body key = without_padding-b64encode p b64 key

  -- The text of a key, with white space around it or without, gives back the key.
  key_from_str-body :
      (key : Bytes) (s : String)
      → length key ≡ key_len
      → strip s ≡ b64.body key
      → key_from_str p s ≡ ok key
  unfolding key_from_str checked_key
  key_from_str-body key s size e =
      let text : with_padding (strip s) ≡ p.b64encode key =
        ap with_padding (e ∙ sym (without_padding-b64encode p b64 key))
        ∙ with_padding-without_padding p b64 key in
      let right : (length key == key_len) ≡ true = ground (arith, size) in
      rw (text, b64.inverse key, right) refl

  -- A key survives being written as text: with or without the line break that ends the key file.
  pub key_from_str-key_to_str :
      (key : Bytes)
      → length key ≡ key_len
      → (key_from_str p (key_to_str p key) ≡ ok key)
        × (key_from_str p (append (key_to_str p key) "\n") ≡ ok key)
  key_from_str-key_to_str key size = (
    key_from_str-body key _ size (ap strip (key_to_str-body key) ∙ b64.solid_alone key),
    key_from_str-body key _ size
        (ap (λ (s : String). strip (append s "\n")) (key_to_str-body key) ∙ b64.solid key),
  )

  key_from_str-kind : (s : String) (e : Exc) → key_from_str p s ≡ err e → e.kind ≡ value_error
  unfolding key_from_str checked_key
  key_from_str-kind s e h = by_decoding (p.b64decode (with_padding (strip s))) refl h
    where
      by_length :
          (same : Bool) (raw : Bytes)
          → (if same then ok raw else raise value_error "Invalid key length") ≡ err e
          → e.kind ≡ value_error
      by_length true raw h = absurd (ok-ne-err raw e h)
      by_length false raw h = ap Exc.kind (sym (err-injective _ e h))

      by_decoding :
          (r : Result Bytes)
          → p.b64decode (with_padding (strip s)) ≡ r
          → (r >>= checked_key p) ≡ err e
          → e.kind ≡ value_error
      by_decoding (ok raw) known h = by_length (length raw == key_len) raw h
      by_decoding (err x) known h = ap Exc.kind (sym (err-injective x e h)) ∙ b64.refuses _ x known

  key_from_str-size : (s : String) (key : Bytes) → key_from_str p s ≡ ok key → length key ≡ key_len
  unfolding key_from_str checked_key
  key_from_str-size s key h =
      let (raw, _, h1) = invert (p.b64decode (with_padding (strip s))) _ key h in checked raw key h1
    where
      checked :
          (raw key : Bytes)
          → (if length raw == key_len then ok raw else raise value_error "Invalid key length")
            ≡ ok key
          → length key ≡ key_len
      checked raw key h = elim (Bool-cases (length raw == key_len)) [
        | inl right ↦
            subst (λ (k : Bytes). length k ≡ key_len) (ok-injective raw key (rw right at h))
              (ground (arith, right))
        | inr wrong ↦ absurd (ok-ne-err key _ (sym (rw wrong at h)))
      ]

  pub load_key-size :
      (store : KeyStore) (key : Bytes) → load_key p store ≡ ok key → length key ≡ key_len
  unfolding load_key
  load_key-size store key h = elim (Bool-cases (strip (env_text store.variable) == "")) [
    | inr is_set ↦ key_from_str-size _ key (rw is_set at h)
    | inl unset ↦ by_file store.key_file (rw unset at h)
  ]
    where
      by_file : (f : Option String) → key_of_file p f ≡ ok key → length key ≡ key_len
      by_file none e = absurd (ok-ne-err key _ (sym e))
      by_file (some content) e = key_from_str-size (strip content) key e

  save_key-lem :
      (key : Bytes) (store store' : KeyStore) (found : Bytes)
      → length key ≡ key_len
      → (strip (env_text store.variable) == "") ≡ true
      → save_key p key store ≡ (ok found, store')
      → load_key p store' ≡ ok found
  unfolding save_key load_key key_of_file
  save_key-lem key store store' found size unset h = by_write store.can_write h
    where
      saved_store : KeyStore
      saved_store = record store { key_file = some (append (key_to_str p key) "\n") }

      again : load_key p saved_store ≡ ok key
      again = rw unset (
          key_from_str-body key _ size (
            ap (λ (s : String). strip (strip (append s "\n"))) (key_to_str-body key)
            ∙ ap strip (b64.solid key)
            ∙ b64.solid_alone key))

      by_write :
          (can_write : Bool)
          → Path
              (Result Bytes × KeyStore)
              (if can_write
                then (ok key, saved_store)
                else (raise os_error "cannot write the key file", store))
              (ok found, store')
          → load_key p store' ≡ ok found
      by_write true saved =
          ap (λ (x : Result Bytes × KeyStore). load_key p x.1) (sym saved)
          ∙ again
          ∙ ap (λ (x : Result Bytes × KeyStore). x.0) saved
      by_write false saved =
          absurd (ok-ne-err found _ (ap (λ (x : Result Bytes × KeyStore). x.0) (sym saved)))

  load_key-runtime_error :
      (store : KeyStore) (e : Exc)
      → load_key p store ≡ err e
      → e.kind ≡ runtime_error
      → (strip (env_text store.variable) == "") ≡ true
  unfolding load_key
  load_key-runtime_error store e h kind =
      elim (Bool-cases (strip (env_text store.variable) == "")) [
        | inl unset ↦ unset
        | inr is_set ↦ absurd (other_kinds (sym (key_from_str-kind _ e (rw is_set at h)) ∙ kind))
      ]

  created :
      (kind : ExcKind) (e : Exc) (key : Bytes) (store store' : KeyStore) (found : Bytes)
      → length key ≡ key_len
      → e.kind ≡ kind
      → load_key p store ≡ err e
      → on_error p key kind e store ≡ (ok found, store')
      → load_key p store' ≡ ok found
  created runtime_error e key store store' found size is known h =
      save_key-lem key store store' found size (load_key-runtime_error store e known is) h
  created _ e key store store' found size is known h =
      absurd (ok-ne-err found e (ap (λ (x : Result Bytes × KeyStore). x.0) (sym h)))

  -- The key that `load_or_create_key` returns, found or made, is the one that `load_key` gives from then
  -- on: what encrypts a password in one process decrypts it in the next.
  pub load_key-load_or_create_key :
      (key : Bytes) (store store' : KeyStore) (found : Bytes)
      → length key ≡ key_len
      → load_or_create_key p key store ≡ (ok found, store')
      → load_key p store' ≡ ok found
  unfolding load_or_create_key or_create
  load_key-load_or_create_key key store store' found size h = by_load (load_key p store) refl h
    where
      by_load :
          (r : Result Bytes)
          → load_key p store ≡ r
          → or_create p key r store ≡ (ok found, store')
          → load_key p store' ≡ ok found
      by_load (ok k) known h =
          ap (λ (x : Result Bytes × KeyStore). load_key p x.1) (sym h)
          ∙ known
          ∙ ap (λ (x : Result Bytes × KeyStore). x.0) h
      by_load (err e) known h = created e.kind e key store store' found size refl known h
