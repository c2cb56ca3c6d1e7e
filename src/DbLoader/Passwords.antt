-- ===== src/DbLoader/Passwords.antt =====
-- db_loader.py: the entries of the registry can be connected to, and their passwords were encrypted.
use zabbig.Prelude.{
  some-injective, some-ne-none, ◌≡◌, ◌⊎◌, refl, sym, ap, ◌∙◌, String, Bool, true, Bool-cases, inl,
  inr, Option, none, some, All, ◌==◌, string_eq, Result, ok, err, ExcKind, value_error, invert,
  ok-injective, ok-ne-err, arith,
}
use zabbig.Prelude.Dict.{Dict, lookup}
use zabbig.Prelude.Float.{pos}
use zabbig.Models.Dynamic.{null, int, str, dict, Fields, end, get, Casts}
use zabbig.Config.Yaml.{ConfigFiles}
use zabbig.Crypto.{Bytes, Primitives, is_encrypted, decrypt}
use zabbig.Crypto.Keys.{KeyStore, load_key}
use zabbig.DbLoader.{
  DbConfig, db_error, connect_kwargs, connect_postgres, connect_handlers, by_handler,
  get_connection, key_or_none, try_load_key, failed_to_decrypt, decrypted, with_key, plain,
  resolve_password, int_or_default, parse_port, required_text, password_text, parse_options,
  parse_database, load_databases_config,
}
use zabbig.DbLoader.Registered.{load_databases_config-All}

-- A password is empty, or a key was loaded and the password is what an ENC: token decrypts to with it.
abbrev pub IsProtected : Primitives → KeyStore → String → Type 0
IsProtected p store password =
    (password ≡ "")
    ⊎ ((key : Bytes) × (token : String) × (load_key p store ≡ ok key)
        × (is_encrypted token ≡ true)
        × (decrypt p token key ≡ ok password))

module _ (p : Primitives) (c : Casts) (strict_passwords strict : Bool) (key : Option Bytes) where
  -- What is kept of the name, the type and the password.
  parse_database-fields :
      (name db_type : String) (entry : Fields) (db : DbConfig)
      → parse_database p c strict_passwords strict key name db_type entry ≡ ok db
      → (db.name ≡ name)
        × (db.db_type ≡ db_type)
        × (resolve_password p c strict_passwords strict key
              (password_text p c strict_passwords strict (get "password" entry (str "")))
            ≡ ok db.password)
  unfolding parse_database
  parse_database-fields name db_type entry db e =
      let (port, _, e1) =
        invert (parse_port p c strict_passwords strict (get "port" entry null)) _ db e in
      let (dbname, _, e2) =
        invert (required_text p c strict_passwords strict (get "dbname" entry null)) _ db e1 in
      let (user, _, e3) =
        invert (required_text p c strict_passwords strict (get "username" entry null)) _ db e2 in
      let (password, q, e4) =
        invert
          (resolve_password p c strict_passwords strict key
            (password_text p c strict_passwords strict (get "password" entry (str ""))))
          _ db e3 in
      let (timeout, _, e5) =
        invert
          (int_or_default p c strict_passwords strict (pos 10)
            (c.to_int (get "connect_timeout" entry (int (pos 10)))))
          _ db e4 in
      let (options, _, e6) =
        invert (parse_options p c strict_passwords strict (get "options" entry (dict end))) _ db
          e5 in
      let same = ok-injective _ _ e6 in
      (
        ap (λ (x : DbConfig). x.name) (sym same),
        ap (λ (x : DbConfig). x.db_type) (sym same),
        q ∙ ap (λ (x : DbConfig). ok x.password) same,
      )

module _ {Connection : Type 0} (driver : Fields → Result Connection) where
  get_connection-postgres :
      (db : DbConfig)
      → db.db_type ≡ "postgres"
      → get_connection driver db ≡ driver (connect_kwargs db)
  unfolding get_connection connect_postgres connect_handlers by_handler lookup
  get_connection-postgres db e = rw e (ground arith)

  -- Every entry of a loaded registry, strict or not, stands under its own name, and a connection to it is
  -- opened by the PostgreSQL driver with its own settings: no entry is left without a handler.
  pub get_connection-load_databases_config :
      (p : Primitives) (c : Casts) (strict_passwords strict : Bool) (files : ConfigFiles)
      (store : KeyStore) (path : String) (registry : Dict DbConfig)
      → load_databases_config p c strict_passwords strict files store path ≡ ok registry
      → All
          (λ (entry : String × DbConfig).
            (entry.1.name ≡ entry.0)
            × (get_connection driver entry.1 ≡ driver (connect_kwargs entry.1)))
          registry
  get_connection-load_databases_config p c strict_passwords strict files store path registry e =
      load_databases_config-All p c strict_passwords strict store _
        (λ name db_type entry db supported parsed.
          let (named, typed, _) =
            parse_database-fields p c strict_passwords strict (try_load_key p store) name db_type
              entry db parsed in
          let postgres : db_type ≡ "postgres" = ground (arith, supported) in
          (named, get_connection-postgres db (typed ∙ postgres)))
        files path registry e

module _ (p : Primitives) (c : Casts) (store : KeyStore) where
  decrypted-ok :
      (r : Result String) (password : String)
      → decrypted p c true true r ≡ ok password
      → r ≡ ok password
  unfolding decrypted failed_to_decrypt
  decrypted-ok (ok text) password e = e
  decrypted-ok (err x) password e = by_kind x.kind e
    where
      by_kind :
          (kind : ExcKind)
          → failed_to_decrypt p c true true kind x ≡ ok password
          → err x ≡ ok password
      by_kind value_error e = absurd (ok-ne-err password _ (sym e))
      by_kind _ e = e

  loaded : (r : Result Bytes) (key : Bytes) → key_or_none r ≡ some key → r ≡ ok key
  unfolding key_or_none
  loaded (ok k) key e = ap ok (some-injective k key e)
  loaded (err x) key e = absurd (some-ne-none key (sym e))

  with_key-IsProtected :
      (found : Option Bytes) (raw password : String)
      → try_load_key p store ≡ found
      → is_encrypted raw ≡ true
      → with_key p c true true found raw ≡ ok password
      → IsProtected p store password
  unfolding with_key try_load_key
  with_key-IsProtected none raw password known enc e = absurd (ok-ne-err password _ (sym e))
  with_key-IsProtected (some key) raw password known enc e = inr (
    key,
    raw,
    loaded (load_key p store) key known,
    enc,
    decrypted-ok (decrypt p raw key) password e,
  )

  plain-empty : (raw password : String) → plain p c true true raw ≡ ok password → password ≡ ""
  unfolding plain db_error
  plain-empty raw password e = elim (Bool-cases (raw == "")) [
    | inl empty ↦ sym (ok-injective _ _ (rw empty at e)) ∙ ground (arith, empty)
    | inr filled ↦ absurd (ok-ne-err password _ (sym (rw filled at e)))
  ]

  resolve_password-IsProtected :
      (raw password : String)
      → resolve_password p c true true (try_load_key p store) raw ≡ ok password
      → IsProtected p store password
  unfolding resolve_password
  resolve_password-IsProtected raw password e = elim (Bool-cases (is_encrypted raw)) [
    | inl enc ↦ with_key-IsProtected (try_load_key p store) raw password refl enc (rw enc at e)
    | inr bare ↦ inl (plain-empty raw password (rw bare at e))
  ]

  -- A strict load that also wants encrypted passwords passes no plain text on: the password of
  -- every database is empty, or an ENC: token decrypts to it under the loaded key.
  pub load_databases_config-IsProtected :
      (files : ConfigFiles) (path : String) (registry : Dict DbConfig)
      → load_databases_config p c true true files store path ≡ ok registry
      → All (λ (entry : String × DbConfig). IsProtected p store entry.1.password) registry
  load_databases_config-IsProtected files path registry e =
      load_databases_config-All p c true true store _
        (λ name db_type entry db supported parsed.
          let (_, _, resolved) =
            parse_database-fields p c true true (try_load_key p store) name db_type entry db
              parsed in
          resolve_password-IsProtected _ db.password resolved)
        files path registry e
