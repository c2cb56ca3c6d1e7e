-- ===== src/DbLoader.antt =====
-- zabbig_client/src/zabbig_client/db_loader.py: databases.yaml becomes the registry of the databases, with
-- their passwords decrypted, and a connection is opened by type. The driver pg8000 is a parameter. A
-- warning of a lenient load is only logged.
pub mod Registered
pub mod Passwords
use zabbig.Prelude.{
  String, Bool, true, false, not, ◌&&◌, Option, none, some, List, [], ◌∷◌, map, ◌==◌, string_eq,
  contains, if◌then◌else◌, Result, ok, err, raise, Exc, ExcKind, db_config_error, value_error,
  type_error, key_error, attribute_error, ◌>>=◌,
}
use zabbig.Prelude.Affix.{starts_with}
use zabbig.Prelude.Dict.{Dict, lookup, insert}
use zabbig.Prelude.Float.{ℤ, pos}
use zabbig.Models.Dynamic.{
  Value, null, int, str, list, nil, dict, Fields, end, field, find, get, items, truthy, merged,
  Casts,
}
use zabbig.Config.Yaml.{ConfigFiles, read_mapping}
use zabbig.Config.Load.{is_one}
use zabbig.Crypto.{Bytes, Primitives, is_encrypted, decrypt}
use zabbig.Crypto.Keys.{KeyStore, load_key}

-- One entry of the registry.
pub record DbConfig : Type 0 where
  pub name : String
  pub db_type : String
  pub host : String
  pub port : ℤ
  pub dbname : String
  pub username : String
  pub password : String
  pub connect_timeout : ℤ
  pub options : Fields

-- The registry so far, and `seen_names`.
pub record Seen : Type 0 where
  pub names : List String
  pub registry : Dict DbConfig

-- `_db_error(message, strict)`
unfoldable pub db_error : Bool → String → Result (Unit {0})
db_error strict message = if strict then raise db_config_error message else ok tt

-- `_read_yaml`
unfoldable pub read_databases : ConfigFiles → String → Result Fields
read_databases files path = read_mapping files db_config_error path

-- The keyword arguments of a PostgreSQL connection: the options come last, and win.
unfoldable pub connect_kwargs : DbConfig → Fields
connect_kwargs db =
    merged
      (field "host" (str db.host) (
        field "port" (int db.port) (
          field "database" (str db.dbname) (
            field "user" (str db.username) (
              field "password" (str db.password) (field "timeout" (int db.connect_timeout) end))))))
      db.options

module _ {Connection : Type 0} (driver : Fields → Result Connection) where
  -- `_connect_postgres`
  unfoldable pub connect_postgres : DbConfig → Result Connection
  connect_postgres db = driver (connect_kwargs db)

  -- `_CONNECT_HANDLERS`
  unfoldable pub connect_handlers : Dict (DbConfig → Result Connection)
  connect_handlers = ("postgres", connect_postgres) ∷ []

  by_handler : DbConfig → Option (DbConfig → Result Connection) → Result Connection
  by_handler db none = raise db_config_error "No handler registered for database type"
  by_handler db (some handler) = handler db

  -- `get_connection`
  unfoldable pub get_connection : DbConfig → Result Connection
  unfolding by_handler
  get_connection db = by_handler db (lookup db.db_type connect_handlers)

-- The keys of `_CONNECT_HANDLERS`.
abbrev pub supported_types : List String
supported_types = "postgres" ∷ []

-- `_try_load_key`
key_or_none : Result Bytes → Option Bytes
key_or_none (ok key) = some key
key_or_none (err e) = none

unfoldable pub try_load_key : Primitives → KeyStore → Option Bytes
unfolding key_or_none
try_load_key p store = key_or_none (load_key p store)

module _ (p : Primitives) (c : Casts) (strict_passwords strict : Bool) where
  -- `except ValueError`, to which DatabaseConfigError belongs too.
  failed_to_decrypt : ExcKind → Exc → Result String
  failed_to_decrypt value_error e = raise db_config_error "failed to decrypt password"
  failed_to_decrypt kind e = err e

  decrypted : Result String → Result String
  unfolding failed_to_decrypt
  decrypted (ok password) = ok password
  decrypted (err e) = failed_to_decrypt e.kind e

  with_key : Option Bytes → String → Result String
  unfolding decrypted
  with_key none raw =
      raise db_config_error "password is encrypted (ENC:) but no decryption key is available"
  with_key (some key) raw = decrypted (decrypt p raw key)

  plain : String → Result String
  plain raw =
      let checked =
        if not (raw == "") && strict_passwords
        then db_error strict "password is stored as plain text"
        else ok tt in
      (do warned ← checked; ok raw)

  -- `_resolve_password`
  unfoldable pub resolve_password : Option Bytes → String → Result String
  unfolding with_key plain
  resolve_password key raw = if is_encrypted raw then with_key key raw else plain raw

  -- `except (TypeError, ValueError)` around `int(v)`.
  not_an_int : ℤ → ExcKind → Exc → Result ℤ
  not_an_int default value_error e = do warned ← db_error strict "must be an integer"; ok default
  not_an_int default type_error e = do warned ← db_error strict "must be an integer"; ok default
  not_an_int default kind e = err e

  unfoldable pub int_or_default : ℤ → Result ℤ → Result ℤ
  unfolding not_an_int
  int_or_default default (ok i) = ok i
  int_or_default default (err e) = not_an_int default e.kind e

  unfoldable pub parse_port : Value → Result ℤ
  parse_port null = ok (pos 5432)
  parse_port v = int_or_default (pos 5432) (c.to_int v)

  -- A field that may not be missing or empty.
  unfoldable pub required_text : Value → Result String
  required_text v =
      let missing = (do warned ← db_error strict "missing required field"; ok "") in
      if truthy v then ok (c.to_str v) else missing

  abbrev pub password_text : Value → String
  password_text null = ""
  password_text v = c.to_str v

  options_of : Value → Result Fields
  options_of (dict d) = ok d
  options_of v = do warned ← db_error strict "'options' must be a mapping"; ok end

  unfoldable pub parse_options : Value → Result Fields
  unfolding options_of
  parse_options v = if truthy v then options_of v else ok end

  -- The fields of an entry whose name and type are accepted.
  unfoldable pub parse_database : Option Bytes → String → String → Fields → Result DbConfig
  parse_database key name db_type entry = do
    port ← parse_port (get "port" entry null)
    dbname ← required_text (get "dbname" entry null)
    username ← required_text (get "username" entry null)
    password ← resolve_password key (password_text (get "password" entry (str "")))
    connect_timeout ←
        int_or_default (pos 10) (c.to_int (get "connect_timeout" entry (int (pos 10))))
    options ← parse_options (get "options" entry (dict end))
    ok (record {
      name = name;
      db_type = db_type;
      host = c.to_str (get "host" entry (str "127.0.0.1"));
      port = port;
      dbname = dbname;
      username = username;
      password = password;
      connect_timeout = connect_timeout;
      options = options;
    })

  -- An entry with a new name, whose type is checked.
  unfoldable pub add_named : Option Bytes → String → String → Fields → Seen → Result Seen
  add_named key name db_type entry seen =
      let added = (do
        db ← parse_database key name db_type entry
        ok (record { names = name ∷ seen.names; registry = insert name db seen.registry })) in
      let left_out = (do
        warned ← db_error strict "missing or unsupported type"
        ok (record { names = name ∷ seen.names; registry = seen.registry })) in
      if not (db_type == "") && contains supported_types db_type then added else left_out

  -- One round of the loop. A name counts as seen also if the entry is then left out.
  unfoldable pub add_entry : Option Bytes → Value → Seen → Result Seen
  add_entry key (dict entry) seen =
      let name = c.to_str (get "name" entry null) in
      let nameless = (do warned ← db_error strict "missing required field 'name'"; ok seen) in
      let duplicate = (do warned ← db_error strict "Duplicate database name"; ok seen) in
      let new = add_named key name (c.lower (c.to_str (get "type" entry (str "")))) entry seen in
      if not (truthy (get "name" entry null))
      then nameless
      else if contains seen.names name
      then duplicate
      else new
  add_entry key v seen = do warned ← db_error strict "must be a mapping"; ok seen

  unfoldable pub add_entries : Option Bytes → List Value → Seen → Result Seen
  add_entries key [] seen = ok seen
  add_entries key (v ∷ entries) seen = do next ← add_entry key v seen; add_entries key entries next

  unfoldable pub entries_list : Value → Result (List Value)
  entries_list (list vs) = ok (items vs)
  entries_list v = do warned ← db_error strict "'databases' must be a list"; ok []

  abbrev pub version_checked : Fields → Result (Unit {0})
  version_checked raw =
      if is_one (get "version" raw (int (pos 1)))
      then ok tt
      else db_error strict "Unsupported version"

  -- `load_databases_config`
  unfoldable pub load_databases_config : ConfigFiles → KeyStore → String → Result (Dict DbConfig)
  load_databases_config files store path = do
    raw ← read_databases files path
    supported ← version_checked raw
    entries ← entries_list (get "databases" raw (list nil))
    seen ← add_entries (try_load_key p store) entries (record { names = []; registry = [] })
    ok seen.registry
