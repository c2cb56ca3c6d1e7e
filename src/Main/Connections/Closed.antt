-- ===== src/Main/Connections/Closed.antt =====
-- main.py, `_close_db_conn_caches`: which connections it closes.
use zabbig.Prelude.{
  ℕ, ◌≡◌, ◌≢◌, refl, sym, ap, ◌∙◌, String, Bool, true, false, not, ◌&&◌, Bool-cases, inl, inr,
  Option, none, some, List, [], ◌∷◌, ◌++◌, map, append_assoc, append-nil, All, All-imply, UniqueBy,
  contains, ◌==◌, nat_eq, string_eq, if◌then◌else◌, arith,
}
use zabbig.Models.{MetricDef}
use zabbig.Main.Connections.{Store, without, close_cache, close_unseen, close_db_conn_caches}

-- The caches that the database metrics refer to, with repetitions.
abbrev ref_of : Bool → Option ℕ → List ℕ → List ℕ
ref_of true (some i) rest = i ∷ rest
ref_of _ _ rest = rest

abbrev pub refs : (MetricDef → Option ℕ) → List MetricDef → List ℕ
refs cache_of [] = []
refs cache_of (m ∷ metrics) =
    ref_of (m.collector == "database") (cache_of m) (refs cache_of metrics)

-- The first occurrence of each.
abbrev pub firsts : List ℕ → List ℕ → List ℕ
firsts seen [] = []
firsts seen (i ∷ is) =
    let rest = firsts (i ∷ seen) is in
    let skipped = firsts seen is in if contains seen i then skipped else i ∷ rest

firsts-unseen : (seen is : List ℕ) → All (λ k. contains seen k ≡ false) (firsts seen is)
firsts-unseen seen [] = tt
firsts-unseen seen (i ∷ is) = elim (Bool-cases (contains seen i)) [
  | inl known ↦ rw known (firsts-unseen seen is)
  | inr new ↦ rw new (
    new,
    All-imply _ _ (λ k h. ground (arith, h)) (firsts (i ∷ seen) is) (firsts-unseen (i ∷ seen) is),
  )
]

firsts-differ : (i : ℕ) (seen is : List ℕ) → All (λ k. k ≢ i) (firsts (i ∷ seen) is)
firsts-differ i seen is =
    All-imply _ _ (λ k h e. ground (arith, h, e)) (firsts (i ∷ seen) is)
      (firsts-unseen (i ∷ seen) is)

firsts-UniqueBy : (seen is : List ℕ) → UniqueBy (λ k. k) (firsts seen is)
firsts-UniqueBy seen [] = tt
firsts-UniqueBy seen (i ∷ is) = elim (Bool-cases (contains seen i)) [
  | inl known ↦ rw known (firsts-UniqueBy seen is)
  | inr new ↦ rw new (firsts-differ i seen is, firsts-UniqueBy (i ∷ seen) is)
]

contains-firsts :
    (j : ℕ) (seen is : List ℕ)
    → contains (firsts seen is) j ≡ (contains is j && not (contains seen j))
contains-firsts j seen [] = ground arith
contains-firsts j seen (i ∷ is) = elim (Bool-cases (contains seen i)) [
  | inl known ↦ rw known (ground (arith, known, contains-firsts j seen is))
  | inr new ↦ rw new (ground (arith, new, contains-firsts j (i ∷ seen) is))
]

module _ {Conn : Type 0} where
  -- The connections of some caches.
  abbrev pub connections : (ℕ → List (String × Conn)) → List ℕ → List Conn
  connections cached [] = []
  connections cached (i ∷ is) = map (λ entry. entry.1) (cached i) ++ connections cached is

  connections-without :
      (i : ℕ) (cached : ℕ → List (String × Conn)) (is : List ℕ)
      → All (λ k. k ≢ i) is
      → connections (without i cached) is ≡ connections cached is
  connections-without i cached [] h = refl
  connections-without i cached (k ∷ is) (d, h) =
      let other : (k == i) ≡ false = ground (arith, d) in
      rw (other, connections-without i cached is h) refl

  -- The loop over the caches themselves.
  abbrev close_refs : List ℕ → List ℕ → Store Conn → Store Conn
  close_refs seen [] store = store
  close_refs seen (i ∷ is) store =
      let skipped = close_refs seen is store in
      let after = close_refs (i ∷ seen) is (close_cache i store) in
      if contains seen i then skipped else after

  close_unseen-refs :
      (cache_of : MetricDef → Option ℕ) (seen : List ℕ) (metrics : List MetricDef)
      (store : Store Conn)
      → close_unseen cache_of seen metrics store ≡ close_refs seen (refs cache_of metrics) store
  unfolding close_unseen
  close_unseen-refs cache_of seen [] store = refl
  close_unseen-refs cache_of seen (m ∷ metrics) store =
      by_cache (close_unseen-refs cache_of seen metrics store)
        (λ i. close_unseen-refs cache_of (i ∷ seen) metrics (close_cache i store))
        (m.collector == "database") (cache_of m)
    where
      by_cache :
          close_unseen cache_of seen metrics store ≡ close_refs seen (refs cache_of metrics) store
          → ((i : ℕ)
              → close_unseen cache_of (i ∷ seen) metrics (close_cache i store)
                ≡ close_refs (i ∷ seen) (refs cache_of metrics) (close_cache i store))
          → (database : Bool) (cache : Option ℕ)
          → (if database
              then elim cache [
                | none ↦ close_unseen cache_of seen metrics store
                | some i ↦
                    if contains seen i
                    then close_unseen cache_of seen metrics store
                    else close_unseen cache_of (i ∷ seen) metrics (close_cache i store)
              ]
              else close_unseen cache_of seen metrics store)
            ≡ close_refs seen (ref_of database cache (refs cache_of metrics)) store
      by_cache skipped after false cache = skipped
      by_cache skipped after true none = skipped
      by_cache skipped after true (some i) = rw (skipped, after i) refl

  -- What the loop has done to the store.
  abbrev Closes : List ℕ → Store Conn → Store Conn → Type 0
  Closes is store after =
      ((j : ℕ) → after.cached j ≡ (if contains is j then [] else store.cached j))
      × (after.closed ≡ store.closed ++ connections store.cached is)

  close_refs-Closes :
      (seen is : List ℕ) (store : Store Conn)
      → Closes (firsts seen is) store (close_refs seen is store)
  unfolding close_cache
  close_refs-Closes seen [] store = ((λ j. refl), sym (append-nil store.closed))
  close_refs-Closes seen (i ∷ is) store = elim (Bool-cases (contains seen i)) [
    | inl known ↦ rw known (close_refs-Closes seen is store)
    | inr new ↦ rw new (later (close_refs-Closes (i ∷ seen) is (close_cache i store)))
  ]
    where
      later :
          Closes
            (firsts (i ∷ seen) is)
            (close_cache i store)
            (close_refs (i ∷ seen) is (close_cache i store))
          → Closes (i ∷ firsts (i ∷ seen) is) store (close_refs (i ∷ seen) is (close_cache i store))
      later (c, d) = (
        (λ j. ground (arith, c j)),
        d
            ∙ ap (λ xs. (store.closed ++ map (λ entry. entry.1) (store.cached i)) ++ xs)
                (connections-without i store.cached (firsts (i ∷ seen) is)
                  (firsts-differ i seen is))
            ∙ append_assoc store.closed (map (λ entry. entry.1) (store.cached i)) _,
      )

  -- At the end of a cycle every cache that a database metric refers to is empty, and the others are as
  -- before. The calls of `close` that have been made are one for each connection of those caches, cache
  -- by cache: the list of the caches has no repetition, also where metrics share one.
  pub close_db_conn_caches-once :
      (cache_of : MetricDef → Option ℕ) (metrics : List MetricDef) (store : Store Conn)
      → (let after = close_db_conn_caches cache_of metrics store in
          let caches = refs cache_of metrics in
          ((j : ℕ) → after.cached j ≡ (if contains caches j then [] else store.cached j))
          × (after.closed ≡ store.closed ++ connections store.cached (firsts [] caches))
          × UniqueBy (λ k. k) (firsts [] caches)
          × ((j : ℕ) → contains (firsts [] caches) j ≡ contains caches j))
  unfolding close_db_conn_caches
  close_db_conn_caches-once cache_of metrics store =
      let caches = refs cache_of metrics in
      let same = close_unseen-refs cache_of [] metrics store in
      let (c, d) = close_refs-Closes [] caches store in
      let all : (j : ℕ) → contains (firsts [] caches) j ≡ contains caches j =
        λ j. ground (arith, contains-firsts j [] caches) in
      (
        (λ j. rw same (c j ∙ ap (λ (b : Bool). if b then [] else store.cached j) (all j))),
        rw same d,
        firsts-UniqueBy [] caches,
        all,
      )
