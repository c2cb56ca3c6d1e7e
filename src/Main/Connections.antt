-- ===== src/Main/Connections.antt =====
-- main.py, `_close_db_conn_caches`: the cached database connections are closed at the end of a cycle. A
-- cache is an object of its own that many metrics refer to; it is named by its `id`.
pub mod Closed
use zabbig.Prelude.{
  ℕ, String, Bool, true, false, Option, none, some, List, [], ◌∷◌, ◌++◌, map, contains, ◌==◌,
  nat_eq, string_eq, if◌then◌else◌,
}
use zabbig.Models.{MetricDef}

-- The caches by their `id`, with the connections they hold, and the calls of `close` so far.
pub record Store (Conn : Type 0) : Type 0 where
  pub cached : ℕ → List (String × Conn)
  pub closed : List Conn

module _ {Conn : Type 0} where
  -- `cache.clear()`
  abbrev pub without : ℕ → (ℕ → List (String × Conn)) → ℕ → List (String × Conn)
  without i cached j = if j == i then [] else cached j

  -- `conn.close()` for every connection of a cache, whose exceptions are swallowed, and `cache.clear()`
  unfoldable pub close_cache : ℕ → Store Conn → Store Conn
  close_cache i store = record {
    cached = without i store.cached;
    closed = store.closed ++ map (λ entry. entry.1) (store.cached i);
  }

  -- The loop over the metrics, with the caches seen so far. `cache_of` is the `id` of what
  -- `m.params.get("_db_conn_cache")` gives.
  unfoldable pub close_unseen :
      (MetricDef → Option ℕ) → List ℕ → List MetricDef → Store Conn → Store Conn
  close_unseen cache_of seen [] store = store
  close_unseen cache_of seen (m ∷ metrics) store =
      let skipped = close_unseen cache_of seen metrics store in
      if m.collector == "database"
      then elim (cache_of m) [
        | none ↦ skipped
        | some i ↦
            let after = close_unseen cache_of (i ∷ seen) metrics (close_cache i store) in
            if contains seen i then skipped else after
      ]
      else skipped

  -- `_close_db_conn_caches`
  unfoldable pub close_db_conn_caches :
      (MetricDef → Option ℕ) → List MetricDef → Store Conn → Store Conn
  close_db_conn_caches cache_of metrics store = close_unseen cache_of [] metrics store
