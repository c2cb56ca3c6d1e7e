-- ===== src/Database.antt =====
-- zabbig_client/src/zabbig_client/collectors/database.py: a query on a cached connection, and the rows
-- that become one result. The driver is a parameter, over a state that stands for the servers. The
-- registry and the cache, which main.py puts into the params, are arguments. Database/Rows.antt makes the
-- result.
pub mod Rows
pub mod Entries
pub mod Reuse
use zabbig.Prelude.{
  ℕ, zero, suc, ◌-◌, String, Bool, true, false, not, Option, none, some, List, [], ◌∷◌, length,
  get_elem?, ltb, ◌==◌, string_eq, if◌then◌else◌, Result, ok, err, raise, Exc, ExcKind, key_error,
  index_error, type_error, value_error, attribute_error, ◌>>=◌,
}
use zabbig.Prelude.Dict.{Dict, lookup, insert, erase, get_or}
use zabbig.Prelude.Float.{ℤ, pos, negsuc}
use zabbig.Models.{MetricDef, MetricResult, Status}
use zabbig.Models.Dynamic.{Value, null, int, str, list, nil, dict, Fields, items, truthy, Builtins}
use zabbig.Log.{Entry, eval_conditions, resolve_result_with_host}
use zabbig.Log.Plain.{resolve_result}
use zabbig.Log.Collect.{chosen_host}
use zabbig.Prelude.Float.{zero_float}
use zabbig.DbLoader.{DbConfig}
use zabbig.Database.Rows.{Row, handle_mode}

-- `get_connection` and what it gives: `_execute_query` and `close`, whose exceptions are ignored.
pub record Driver : Type 1 where
  pub Connection : Type 0
  pub Servers : Type 0
  pub connect : DbConfig → Servers → Result Connection × Servers
  pub execute : Connection → Value → Servers → Result (List Row) × Servers
  pub close : Connection → Servers → Servers

-- The cache of a run, `_db_conn_cache`, and the servers.
pub record Pool (driver : Driver) : Type 0 where
  pub cache : Dict driver.Connection
  pub servers : driver.Servers

module _ (driver : Driver) where
  opened :
      String
      → Pool driver
      → Result driver.Connection × driver.Servers
      → Result driver.Connection × Pool driver
  opened name pool (ok conn, servers) =
      (ok conn, record { cache = insert name conn pool.cache; servers = servers })
  opened name pool (err e, servers) = (err e, record { cache = pool.cache; servers = servers })

  -- The cached connection of a database, or a new one.
  unfoldable pub connection :
      String → DbConfig → Pool driver → Result driver.Connection × Pool driver
  unfolding opened
  connection name config pool = elim (lookup name pool.cache) [
    | some conn ↦ (ok conn, pool)
    | none ↦ opened name pool (driver.connect config pool.servers)
  ]

  -- After the query: a connection on which it failed is forgotten and closed.
  after_query :
      String
      → driver.Connection
      → Pool driver
      → Result (List Row) × driver.Servers
      → Result (List Row) × Pool driver
  after_query name conn pool (ok rows, servers) =
      (ok rows, record { cache = pool.cache; servers = servers })
  after_query name conn pool (err e, servers) =
      (err e, record { cache = erase name pool.cache; servers = driver.close conn servers })

  unfoldable pub query :
      String → Value → driver.Connection → Pool driver → Result (List Row) × Pool driver
  unfolding after_query
  query name sql conn pool = after_query name conn pool (driver.execute conn sql pool.servers)

  queried :
      String → Value → Result driver.Connection × Pool driver → Result (List Row) × Pool driver
  queried name sql (ok conn, pool) = query name sql conn pool
  queried name sql (err e, pool) = (err e, pool)

  -- The rows of a query on a database of the registry.
  unfoldable pub fetch : String → DbConfig → Value → Pool driver → Result (List Row) × Pool driver
  unfolding queried
  fetch name config sql pool = queried name sql (connection name config pool)

  needed : Option Value → Result Value
  needed (some v) = ok v
  needed none = raise key_error "missing parameter"

  -- `db_registry.get(db_name)`
  unfoldable pub find_database : Dict DbConfig → Value → Result (String × DbConfig)
  find_database registry (str name) = elim (lookup name registry) [
    | some config ↦ ok (name, config)
    | none ↦ raise key_error "not found in databases.yaml"
  ]
  find_database registry (list vs) = raise type_error "unhashable type: 'list'"
  find_database registry (dict d) = raise type_error "unhashable type: 'dict'"
  find_database registry v = raise key_error "not found in databases.yaml"

  -- The database, the statement and the column of a metric.
  unfoldable pub target :
      (Value → Result ℤ) → Dict DbConfig → Dict Value → Result (String × DbConfig × Value × ℤ)
  unfolding needed
  target to_int registry params = do
    db_name ← needed (lookup "database" params)
    sql ← needed (lookup "sql" params)
    i ← to_int (get_or "result_column" params (int (pos 0)))
    found ← find_database registry db_name
    ok (found.0, found.1, sql, i)

  handled :
      Builtins
      → ℕ
      → MetricDef
      → ℤ
      → Result (List Row) × Pool driver
      → Result (List MetricResult) × Pool driver
  handled b now metric i (rows, pool) =
      let params = metric.params in
      (
        (do
          found ← rows
          handle_mode b now metric i (get_or "result" params (str "last"))
              (get_or "default_value" params null) (get_or "mode" params (str "value"))
              (get_or "conditions" params (list nil)) found),
        pool,
      )

  -- `_run_query`
  unfoldable pub run_query :
      (Value → Result ℤ)
      → Builtins
      → ℕ
      → Dict DbConfig
      → MetricDef
      → Pool driver
      → Result (List MetricResult) × Pool driver
  unfolding handled
  run_query to_int b now registry metric pool = elim (target to_int registry metric.params) [
    | err e ↦ (err e, pool)
    | ok (name, config, sql, i) ↦ handled b now metric i (fetch name config sql pool)
  ]
