-- ===== src/Host/Service/Cache.antt =====
-- service.py: checks that share the cache of command lines.
use zabbig.Prelude.{
  ℕ, ◌≡◌, refl, sym, ap, ◌∙◌, String, Bool, Bool-cases, inl, inr, Option, none, some, List, [], ◌∷◌,
  map, any, ◌==◌, string_eq, if◌then◌else◌, Result, ok, err, ◌>>=◌, some-injective, arith,
}
use zabbig.Prelude.State.{and_then, pure}
use zabbig.Prelude.Dict.{lookup, insert, lookup-insert}
use zabbig.Models.Dynamic.{Value}
use zabbig.Host.Service.{Services, CmdlineCache, scan_proc, store_scan, cached_scan, process_check}

-- Checks one after the other; an exception of one does not stop the others.
abbrev pub process_checks :
    Services → List (Value × String) → CmdlineCache → List (Result ℕ) × CmdlineCache
process_checks os [] cache = ([], cache)
process_checks os ((pattern, root) ∷ checks) cache =
    let (state, more) = process_check os pattern root cache in
    let (states, last) = process_checks os checks more in (state ∷ states, last)

-- What a check means: whether some process has a command line in which the pattern is found.
abbrev pub is_running : Services → Value → String → Result ℕ
is_running os pattern root = do
  search ← os.compile pattern
  cmdlines ← scan_proc os root
  ok (if any search cmdlines then 1 else 0)

module _ (os : Services) where
  -- Every entry of the cache is what a scan gives.
  abbrev FromScans : CmdlineCache → Type 0
  FromScans cache =
      (root : String) (cmdlines : List String)
      → lookup root cache ≡ some cmdlines
      → scan_proc os root ≡ ok cmdlines

  cached_scan-scan_proc :
      (root : String) (cache : CmdlineCache)
      → FromScans cache
      → ((cached_scan os root cache).0 ≡ scan_proc os root)
        × FromScans (cached_scan os root cache).1
  unfolding cached_scan store_scan
  cached_scan-scan_proc root cache h = by_lookup (lookup root cache) refl
    where
      by_scan :
          (r : Result (List String))
          → scan_proc os root ≡ r
          → ((store_scan os root r cache).0 ≡ r) × FromScans (store_scan os root r cache).1
      by_scan (err e) p = (refl, h)
      by_scan (ok cmdlines) p =
          (refl, λ other lines e. stored other lines (lookup-insert other root cmdlines cache) e)
        where
          stored :
              (other : String) (lines : List String)
              → lookup other (insert root cmdlines cache)
                ≡ (if other == root then some cmdlines else lookup other cache)
              → lookup other (insert root cmdlines cache) ≡ some lines
              → scan_proc os other ≡ ok lines
          stored other lines q e = elim (Bool-cases (other == root)) [
            | inl same ↦
                let equal : other ≡ root = ground (arith, same) in
                let here : some cmdlines ≡ some lines = sym (rw same at q) ∙ e in
                ap (scan_proc os) equal ∙ p ∙ ap ok (some-injective cmdlines lines here)
            | inr differ ↦ h other lines (sym (rw differ at q) ∙ e)
          ]

      by_lookup :
          (found : Option (List String))
          → lookup root cache ≡ found
          → (let x : Result (List String) × CmdlineCache = elim found [
            | some cmdlines ↦ (ok cmdlines, cache)
            | none ↦ store_scan os root (scan_proc os root) cache
          ] in
              (x.0 ≡ scan_proc os root) × FromScans x.1)
      by_lookup (some cmdlines) p = (sym (h root cmdlines p), h)
      by_lookup none p = by_scan (scan_proc os root) refl

  abbrev answer : (String → Bool) → List String → ℕ
  answer search cmdlines = if any search cmdlines then 1 else 0

  answer-FromScans :
      (search : String → Bool) (root : String) (scan : Result (List String)) (after : CmdlineCache)
      → scan ≡ scan_proc os root
      → FromScans after
      → ((and_then scan (λ lines. pure (answer search lines)) after).0
          ≡ (scan_proc os root >>= λ lines. ok (answer search lines)))
        × FromScans (and_then scan (λ lines. pure (answer search lines)) after).1
  answer-FromScans search root (ok lines) after e h =
      (ap (λ (r : Result (List String)). r >>= λ xs. ok (answer search xs)) e, h)
  answer-FromScans search root (err x) after e h =
      (ap (λ (r : Result (List String)). r >>= λ xs. ok (answer search xs)) e, h)

  process_check-is_running :
      (pattern : Value) (root : String) (cache : CmdlineCache)
      → FromScans cache
      → ((process_check os pattern root cache).0 ≡ is_running os pattern root)
        × FromScans (process_check os pattern root cache).1
  unfolding process_check
  process_check-is_running pattern root cache h = by_pattern (os.compile pattern)
    where
      by_pattern :
          (search : Result (String → Bool))
          → (let x =
                and_then search
                  (λ test after.
                    and_then
                      (cached_scan os root after).0
                      (λ lines. pure (answer test lines))
                      (cached_scan os root after).1)
                  cache in
              (x.0 ≡ (search >>= λ test. scan_proc os root >>= λ lines. ok (answer test lines)))
              × FromScans x.1)
      by_pattern (ok test) =
          let (same, kept) = cached_scan-scan_proc root cache h in
          answer-FromScans test root (cached_scan os root cache).0 (cached_scan os root cache).1
            same kept
      by_pattern (err e) = (refl, h)

  process_checks-FromScans :
      (checks : List (Value × String)) (cache : CmdlineCache)
      → FromScans cache
      → (process_checks os checks cache).0 ≡ map (λ check. is_running os check.0 check.1) checks
  process_checks-FromScans [] cache h = refl
  process_checks-FromScans ((pattern, root) ∷ checks) cache h =
      let (same, kept) = process_check-is_running pattern root cache h in
      rw (same, process_checks-FromScans checks (process_check os pattern root cache).1 kept) refl

  -- Any checks of processes, one after the other from an empty cache, give what each would give with a
  -- scan of its own: 1 if the pattern is found in the command line of a process, else 0, or the
  -- exception of the pattern or of the scan. The processes are those at one moment.
  pub process_checks-is_running :
      (checks : List (Value × String))
      → (process_checks os checks []).0 ≡ map (λ check. is_running os check.0 check.1) checks
  unfolding lookup
  process_checks-is_running checks = process_checks-FromScans checks [] (λ root lines e. cc)
