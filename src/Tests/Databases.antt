-- ===== src/Tests/Databases.antt =====
-- db_loader.py on a small file with an encrypted password, and database.py on a small driver.
use native.Mathlib.Decide.{ℕ_discrete}
use zabbig.Prelude.{
  ◌≤◌, length, take, ◌≡◌, ◌++◌, refl, String, true, [], ◌∷◌, All, nat_eq, string_eq, ok,
}
use zabbig.Prelude.Affix.{append, starts_with, skip, rstrip, lstrip, is_space, strip}
use zabbig.Prelude.Dict.{Dict, insert}
use zabbig.Prelude.Float.{pos}
use zabbig.Models.Dynamic.{str, list, cons, nil, dict, Fields, end, field, find, get, items, truthy}
use zabbig.Config.Yaml.{ConfigFiles, read_mapping}
use zabbig.Config.Load.{is_one}
use zabbig.Crypto.{
  Bytes, repeat_byte, unpad, blocks_from, blocks, each_block, with_padding, is_encrypted,
  payload_of, open_payload, decrypt, key_from_str,
}
use zabbig.Crypto.Keys.{load_key}
use zabbig.Crypto.Token.{decrypt-authentic}
use zabbig.Models.{MetricDef}
use zabbig.Models.Dynamic.{int, Builtins}
use zabbig.Tests.Configs.{to_text, to_real}
use zabbig.Prelude.{
  ℕ, Result, suc, ltb, ◌<◌, ◌≢◌, ap, raise, runtime_error, none, if◌then◌else◌, ok-injective, arith,
}
use zabbig.Prelude.Dict.{erase, lookup, get_or}
use zabbig.Database.{Driver, Pool, connection, run_query, target, find_database, fetch, query}
use zabbig.Database.Reuse.{IsDriver, run_queries, connection-run_queries}
use zabbig.Tests.Data.{cpu_metric}
use zabbig.DbLoader.{
  DbConfig, db_error, read_databases, connect_kwargs, get_connection, try_load_key,
  resolve_password, int_or_default, parse_port, required_text, parse_options, parse_database,
  add_named, add_entry, add_entries, entries_list, load_databases_config,
}
use zabbig.DbLoader.Passwords.{
  IsProtected, get_connection-load_databases_config, load_databases_config-IsProtected,
}
use zabbig.Tests.Configs.{casts, to_number}
use zabbig.Tests.Crypto.{toy, toy_encode, toy_key, filled_store}

abbrev token : String
token = append "ENC:" (toy_encode (repeat_byte 7 32 ++ (repeat_byte 3 16 ++ repeat_byte 16 16)))

abbrev entry : Fields
entry = field "name" (str "stock") (
    field "type" (str "postgres") (
      field "dbname" (str "stock")
        (field "username" (str "reader") (field "password" (str token) end))))

abbrev database_files : ConfigFiles
database_files = record {
  is_file = λ path. true;
  safe_load = λ path. ok (dict (field "databases" (list (cons (dict entry) nil)) end));
  glob = λ pattern. [];
  sorted = λ paths. paths;
  base_dir = λ path. path;
  isabs = λ path. true;
  join = λ base path. path;
}

abbrev stock : DbConfig
stock = record {
  name = "stock";
  db_type = "postgres";
  host = "127.0.0.1";
  port = pos 5432;
  dbname = "stock";
  username = "reader";
  password = "hi";
  connect_timeout = pos 10;
  options = end;
}

abbrev registry : Dict DbConfig
registry = ("stock", stock) ∷ []

reads_key : load_key toy filled_store ≡ ok toy_key
unfolding load_key key_from_str with_padding strip rstrip lstrip is_space string_eq nat_eq
    ℕ_discrete
reads_key = refl

loads_databases :
    load_databases_config toy casts true true database_files filled_store "databases.yaml"
    ≡ ok registry
unfolding load_databases_config entries_list add_entries add_entry add_named parse_database
    parse_options required_text parse_port int_or_default resolve_password try_load_key
    read_databases db_error load_key key_from_str with_padding strip rstrip lstrip is_space
    string_eq nat_eq ℕ_discrete decrypt payload_of open_payload each_block blocks blocks_from unpad
    is_encrypted starts_with skip find get items truthy insert read_mapping is_one
loads_databases = refl

get_connection-load_databases_config_example :
    All
      (λ (e : String × DbConfig).
        (e.1.name ≡ e.0)
        × (get_connection {Connection = Fields} (λ kwargs. ok kwargs) e.1
            ≡ ok (connect_kwargs e.1)))
      registry
get_connection-load_databases_config_example =
    get_connection-load_databases_config (λ kwargs. ok kwargs) toy casts true true database_files
      filled_store "databases.yaml" registry loads_databases

load_databases_config-IsProtected_example :
    All (λ (e : String × DbConfig). IsProtected toy filled_store e.1.password) registry
load_databases_config-IsProtected_example =
    load_databases_config-IsProtected toy casts filled_store database_files "databases.yaml"
      registry loads_databases

opens : decrypt toy token toy_key ≡ ok "hi"
unfolding decrypt payload_of open_payload each_block blocks blocks_from unpad with_padding
    is_encrypted starts_with skip nat_eq ℕ_discrete
opens = refl

decrypt-authentic_example :
    (is_encrypted token ≡ true)
    × ((payload : Bytes) × (payload_of toy token ≡ ok payload)
        × (64 ≤ length payload)
        × (take 32 payload ≡ repeat_byte 7 32))
decrypt-authentic_example = decrypt-authentic toy token toy_key "hi" opens

abbrev builtins : Builtins
builtins = record { to_str = to_text; to_float = to_real; search = λ pattern line. ok none }

-- The connections are numbered as they are opened; a query on the first one fails.
abbrev numbered : Driver
numbered = record {
  Connection = ℕ;
  Servers = ℕ;
  connect = λ config w. (ok w, suc w);
  execute = λ c sql w.
      (if ltb c 1 then raise runtime_error "broken" else ok ((int (pos 7) ∷ []) ∷ []), w);
  close = λ c w. w;
}

opens_next :
    (config : DbConfig) (w w' c : ℕ)
    → Path (Result ℕ × ℕ) (ok w, suc w) (ok c, w')
    → (c < w') × ((d : ℕ) → d < w → c ≢ d)
opens_next config w w' c e =
    let id : w ≡ c = ok-injective w c (ap (λ (x : Result ℕ × ℕ). x.0) e) in
    let next : suc w ≡ w' = ap (λ (x : Result ℕ × ℕ). x.1) e in
    (omega (arith, id, next), λ d o same. omega (arith, id, same, o))

abbrev numbered_laws : IsDriver numbered
numbered_laws = record {
  Open = λ c w. c < w;
  opens = opens_next;
  connect_keeps = λ config w d o. omega (arith, o);
  execute_keeps = λ c sql w d o. o;
  close_keeps = λ c w d differ o. o;
}

abbrev query_metric : MetricDef
query_metric = record cpu_metric {
  collector = "database";
  params = ("database", str "stock") ∷ ("sql", str "SELECT 7") ∷ [];
}

abbrev after_failure : Pool numbered
after_failure = record { cache = ("stock", 1) ∷ []; servers = 2 }

reconnects :
    Path
      (Result ℕ × Pool numbered)
      (connection numbered "stock" stock
        (run_queries numbered to_number builtins 7 registry
          (query_metric ∷ [])
          (record { cache = []; servers = 0 })).1)
      (ok 1, after_failure)
unfolding run_queries run_query target find_database fetch query connection lookup insert erase
    get_or string_eq
reconnects = refl

connection-run_queries_example : 1 < 2
connection-run_queries_example =
    connection-run_queries numbered numbered_laws to_number builtins 7 registry (query_metric ∷ [])
      0 "stock" stock 1 after_failure reconnects
