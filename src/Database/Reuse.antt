-- ===== src/Database/Reuse.antt =====
-- database.py, the connection cache over a sequence of calls of `_run_query`, each begun when the one
-- before has ended.
use mathlib.Core.Path.{subst}
use zabbig.Prelude.{
  ℕ, ◌≡◌, ◌≢◌, refl, sym, String, Option, none, some, List, [], ◌∷◌, All, All-imply, string_eq,
  Result, ok, err, ok-ne-err, ok-injective, arith,
}
use zabbig.Prelude.Dict.{Dict, lookup, insert, erase, lookup-insert}
use zabbig.Prelude.Float.{ℤ}
use zabbig.Models.{MetricDef, MetricResult}
use zabbig.Models.Dynamic.{Value, Builtins}
use zabbig.DbLoader.{DbConfig}
use zabbig.Database.Rows.{Row}
use zabbig.Database.Entries.{
  Apart, All-insert, All-erase, Apart-insert, Apart-erase, lookup-All, erase-differs,
}
use zabbig.Database.{
  Driver, Pool, opened, connection, after_query, query, queried, fetch, target, handled, run_query,
}

-- Calls of `_run_query` one after the other, each begun when the one before has ended.
unfoldable pub run_queries :
    (driver : Driver)
    → (Value → Result ℤ)
    → Builtins
    → ℕ
    → Dict DbConfig
    → List MetricDef
    → Pool driver
    → List (Result (List MetricResult)) × Pool driver
run_queries driver to_int b now registry [] pool = ([], pool)
run_queries driver to_int b now registry (m ∷ ms) pool =
    let (result, next) = run_query driver to_int b now registry m pool in
    let (results, last) = run_queries driver to_int b now registry ms next in
    (result ∷ results, last)

-- What a driver promises: `connect` opens a connection that none of the open ones is, and an open
-- connection stays open until it is itself closed.
pub record IsDriver (driver : Driver) : Type 1 where
  pub Open : driver.Connection → driver.Servers → Type 0
  pub opens :
      (config : DbConfig) (w w' : driver.Servers) (c : driver.Connection)
      → driver.connect config w ≡ (ok c, w')
      → Open c w' × ((d : driver.Connection) → Open d w → c ≢ d)
  pub connect_keeps :
      (config : DbConfig) (w : driver.Servers) (d : driver.Connection)
      → Open d w
      → Open d (driver.connect config w).1
  pub execute_keeps :
      (c : driver.Connection) (sql : Value) (w : driver.Servers) (d : driver.Connection)
      → Open d w
      → Open d (driver.execute c sql w).1
  pub close_keeps :
      (c : driver.Connection) (w : driver.Servers) (d : driver.Connection)
      → d ≢ c
      → Open d w
      → Open d (driver.close c w)

module _ (driver : Driver) (laws : IsDriver driver) where
  record IsTidy (pool : Pool driver) : Type 0 where
    alive : All (λ (e : String × driver.Connection). laws.Open e.1 pool.servers) pool.cache
    apart : Apart pool.cache

  -- All that is open before is open after.
  Later : driver.Servers → driver.Servers → Type 0
  Later w w' = (d : driver.Connection) → laws.Open d w → laws.Open d w'

  alive-Later :
      (w w' : driver.Servers) (cache : Dict driver.Connection)
      → Later w w'
      → All (λ (e : String × driver.Connection). laws.Open e.1 w) cache
      → All (λ (e : String × driver.Connection). laws.Open e.1 w') cache
  unfolding Later
  alive-Later w w' cache later h =
      All-imply (λ (e : String × driver.Connection). laws.Open e.1 w)
        (λ (e : String × driver.Connection). laws.Open e.1 w') (λ e o. later e.1 o) cache h

  closed-Open :
      (conn : driver.Connection) (w : driver.Servers) (cache : Dict driver.Connection)
      → All (λ (e : String × driver.Connection). laws.Open e.1 w) cache
      → All (λ (e : String × driver.Connection). e.1 ≢ conn) cache
      → All (λ (e : String × driver.Connection). laws.Open e.1 (driver.close conn w)) cache
  closed-Open conn w [] h k = tt
  closed-Open conn w (e ∷ cache) (h, hs) (k, ks) =
      (laws.close_keeps conn w e.1 k h, closed-Open conn w cache hs ks)

  -- A connection that can be used: it is open, and cached under its name.
  abbrev IsReady : String → driver.Connection → Pool driver → Type 0
  IsReady name c pool = laws.Open c pool.servers × (lookup name pool.cache ≡ some c)

  -- The pool is tidy, and if a connection is returned, it can be used.
  abbrev Gives : String → Result driver.Connection × Pool driver → Type 0
  Gives name (result, pool) =
      IsTidy pool × ((c : driver.Connection) → result ≡ ok c → IsReady name c pool)

  opened-Gives :
      (name : String) (config : DbConfig) (pool : Pool driver)
      (r : Result driver.Connection × driver.Servers)
      → driver.connect config pool.servers ≡ r
      → IsTidy pool
      → Gives name (opened driver name pool r)
  unfolding opened Later
  opened-Gives name config pool (ok conn, w) known tidy =
      let (open_now, new) = laws.opens config pool.servers w conn known in
      let later : Later pool.servers w = λ d o.
        subst (λ (r : Result driver.Connection × driver.Servers). laws.Open d r.1) known
          (laws.connect_keeps config pool.servers d o) in
      let alive = alive-Later pool.servers w pool.cache later tidy.alive in
      let cached : lookup name (insert name conn pool.cache) ≡ some conn =
        ground (arith, lookup-insert name name conn pool.cache) in
      (
        record {
          alive = All-insert (λ c. laws.Open c w) name conn pool.cache open_now alive;
          apart =
              Apart-insert name conn pool.cache
                (All-imply (λ (e : String × driver.Connection). laws.Open e.1 pool.servers)
                  (λ (e : String × driver.Connection). conn ≢ e.1) (λ e o. new e.1 o) pool.cache
                  tidy.alive)
                tidy.apart;
        },
        λ c same.
            subst (λ d. laws.Open d w × (lookup name (insert name conn pool.cache) ≡ some d))
              (ok-injective conn c same) (open_now, cached),
      )
  opened-Gives name config pool (err e, w) known tidy =
      let later : Later pool.servers w = λ d o.
        subst (λ (r : Result driver.Connection × driver.Servers). laws.Open d r.1) known
          (laws.connect_keeps config pool.servers d o) in
      (
        record {
          alive = alive-Later pool.servers w pool.cache later tidy.alive;
          apart = tidy.apart;
        },
        λ c same. absurd (ok-ne-err c e (sym same)),
      )

  connection-Gives :
      (name : String) (config : DbConfig) (pool : Pool driver)
      → IsTidy pool
      → Gives name (connection driver name config pool)
  unfolding connection
  connection-Gives name config pool tidy = by_lookup (lookup name pool.cache) refl
    where
      by_lookup :
          (found : Option driver.Connection)
          → lookup name pool.cache ≡ found
          → Gives name (elim found as (λ _. Result driver.Connection × Pool driver) [
            | some conn ↦ (ok conn, pool)
            | none ↦ opened driver name pool (driver.connect config pool.servers)
          ])
      by_lookup (some conn) known = (
        tidy,
        λ c same.
            subst (λ d. laws.Open d pool.servers × (lookup name pool.cache ≡ some d))
              (ok-injective conn c same)
              (
                lookup-All (λ d. laws.Open d pool.servers) name conn pool.cache tidy.alive known,
                known,
              ),
      )
      by_lookup none known = opened-Gives name config pool _ refl tidy

  after_query-IsTidy :
      (name : String) (sql : Value) (conn : driver.Connection) (pool : Pool driver)
      (r : Result (List Row) × driver.Servers)
      → driver.execute conn sql pool.servers ≡ r
      → IsTidy pool
      → IsReady name conn pool
      → IsTidy (after_query driver name conn pool r).1
  unfolding after_query Later
  after_query-IsTidy name sql conn pool r known tidy (open_now, cached) = by_outcome r known
    where
      kept :
          (r : Result (List Row) × driver.Servers)
          → driver.execute conn sql pool.servers ≡ r
          → Later pool.servers r.1
      kept r known = λ d o.
          subst (λ (r : Result (List Row) × driver.Servers). laws.Open d r.1) known
            (laws.execute_keeps conn sql pool.servers d o)

      by_outcome :
          (r : Result (List Row) × driver.Servers)
          → driver.execute conn sql pool.servers ≡ r
          → IsTidy (after_query driver name conn pool r).1
      by_outcome (ok rows, w) known = record {
        alive = alive-Later pool.servers w pool.cache (kept (ok rows, w) known) tidy.alive;
        apart = tidy.apart;
      }
      by_outcome (err e, w) known = record {
        alive =
            closed-Open conn w (erase name pool.cache)
              (All-erase (λ d. laws.Open d w) name pool.cache
                (alive-Later pool.servers w pool.cache (kept (err e, w) known) tidy.alive))
              (erase-differs name conn pool.cache tidy.apart cached);
        apart = Apart-erase name pool.cache tidy.apart;
      }

  fetch-IsTidy :
      (name : String) (config : DbConfig) (sql : Value) (pool : Pool driver)
      → IsTidy pool
      → IsTidy (fetch driver name config sql pool).1
  unfolding fetch query queried
  fetch-IsTidy name config sql pool tidy =
      by_connection (connection driver name config pool) (connection-Gives name config pool tidy)
    where
      by_connection :
          (r : Result driver.Connection × Pool driver)
          → Gives name r
          → IsTidy (queried driver name sql r).1
      by_connection (ok conn, after) (tidy, ready) =
          after_query-IsTidy name sql conn after _ refl tidy (ready conn refl)
      by_connection (err e, after) (tidy, ready) = tidy

module _ (driver : Driver) (laws : IsDriver driver) (to_int : Value → Result ℤ) (b : Builtins)
    (now : ℕ) (registry : Dict DbConfig) where
  run_query-IsTidy :
      (metric : MetricDef) (pool : Pool driver)
      → IsTidy driver laws pool
      → IsTidy driver laws (run_query driver to_int b now registry metric pool).1
  unfolding run_query handled
  run_query-IsTidy metric pool tidy = by_target (target driver to_int registry metric.params)
    where
      by_target :
          (t : Result (String × DbConfig × Value × ℤ))
          → IsTidy driver laws
              (elim t as (λ _. Result (List MetricResult) × Pool driver) [
                | err e ↦ (err e, pool)
                | ok (name, config, sql, i) ↦
                    handled driver b now metric i (fetch driver name config sql pool)
              ]).1
      by_target (err e) = tidy
      by_target (ok (name, config, sql, i)) = fetch-IsTidy driver laws name config sql pool tidy

  run_queries-IsTidy :
      (metrics : List MetricDef) (pool : Pool driver)
      → IsTidy driver laws pool
      → IsTidy driver laws (run_queries driver to_int b now registry metrics pool).1
  unfolding run_queries
  run_queries-IsTidy [] pool tidy = tidy
  run_queries-IsTidy (m ∷ metrics) pool tidy =
      run_queries-IsTidy metrics _ (run_query-IsTidy m pool tidy)

  -- With a driver that keeps its promises, if the queries of a run come one after the other and never at the
  -- same time: after any queries, on any databases and also if some of them have failed, the connection that
  -- the next query gets, cached or new, is open.
  pub connection-run_queries :
      (metrics : List MetricDef) (servers : driver.Servers) (name : String) (config : DbConfig)
      (c : driver.Connection) (pool : Pool driver)
      → connection driver name config
          (run_queries driver to_int b now registry metrics
            (record { cache = []; servers = servers })).1
        ≡ (ok c, pool)
      → laws.Open c pool.servers
  connection-run_queries metrics servers name config c pool e =
      let before =
        run_queries-IsTidy metrics (record { cache = []; servers = servers })
          (record { alive = tt; apart = tt }) in
      let (_, ready) =
        subst (Gives driver laws name) e (connection-Gives driver laws name config _ before) in
      (ready c refl).0
