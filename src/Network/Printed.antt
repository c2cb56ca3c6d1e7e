-- ===== src/Network/Printed.antt =====
-- network.py, `_parse_net_dev`, and the layout of /proc/net/dev.
use zabbig.Prelude.{
  ℕ, ◌≡◌, ◌≢◌, refl, sym, ap, ◌∙◌, String, Bool-cases, inl, inr, List, [], ◌∷◌, ◌++◌, append_assoc,
  append-nil, map, All, All-snoc, UniqueBy, ◌==◌, string_eq, nat_eq, Result, ok, ◌>>=◌, arith,
}
use zabbig.Prelude.Affix.{append, is_space, strip, AreKept}
use zabbig.Prelude.Dict.{Dict, insert}
use zabbig.Network.{
  words, before_colon, after_colon, parse_counters, parse_interfaces, parse_net_dev,
}
use zabbig.Network.Words.{
  IsWord, spaces, padded, words-padded, before_colon-append, after_colon-append, strip-indented,
  indented-AreKept,
}

-- How a file is laid out: the spaces before a name, and those before a counter besides the one that
-- separates, which depend on the number of counters behind it and on its text.
pub record Layout : Type 0 where
  pub lead : String → ℕ
  pub pad : ℕ → String → ℕ

-- A line of the file: the name, after spaces, a colon, the counters, each after one space or more, and a
-- line feed.
abbrev pub printed : Layout → (ℕ → String) → String × List ℕ → String
printed layout print (name, counters) =
    append (append (spaces (layout.lead name)) name)
      (append ":" (padded layout.pad (map print counters)))

-- The name of an interface: no white space and no colon.
pub record IsName (name : String) : Type 0 where
  pub solid : AreKept is_space name
  pub no_colon : AreKept (λ c. c == b':') name

-- A number is written as a word that `int` reads back.
pub record IsDecimal (print : ℕ → String) (to_int : String → Result ℕ) : Type 0 where
  pub word : (n : ℕ) → IsWord (print n)
  pub inverse : (n : ℕ) → to_int (print n) ≡ ok n

module _ {V : Type 0} where
  insert-new :
      (k : String) (v : V) (d : Dict V)
      → All (λ (e : String × V). k ≢ e.0) d
      → insert k v d ≡ d ++ ((k, v) ∷ [])
  unfolding insert
  insert-new k v [] h = refl
  insert-new k v ((j, w) ∷ d) (h, hs) = elim (Bool-cases (k == j)) [
    | inl same ↦ absurd (h (ground (arith, same)))
    | inr differ ↦ rw differ (ap (λ (r : Dict V). (j, w) ∷ r) (insert-new k v d hs))
  ]

module _ (layout : Layout) (print : ℕ → String) (to_int : String → Result ℕ)
    (decimal : IsDecimal print to_int) where
  parse_counters-print : (ns : List ℕ) → parse_counters to_int (map print ns) ≡ ok ns
  unfolding parse_counters
  parse_counters-print [] = refl
  parse_counters-print (n ∷ ns) = rw (decimal.inverse n, parse_counters-print ns) refl

  All-IsWord : (ns : List ℕ) → All IsWord (map print ns)
  All-IsWord [] = tt
  All-IsWord (n ∷ ns) = (decimal.word n, All-IsWord ns)

  parse_interfaces-printed :
      (table done : Dict (List ℕ))
      → All (λ (e : String × List ℕ). IsName e.0) table
      → UniqueBy (λ (e : String × List ℕ). e.0) table
      → All (λ (e : String × List ℕ). All (λ (a : String × List ℕ). e.0 ≢ a.0) done) table
      → parse_interfaces to_int (map (printed layout print) table) done ≡ ok (done ++ table)
  unfolding parse_interfaces
  parse_interfaces-printed [] done names unique new = ap ok (sym (append-nil done))
  parse_interfaces-printed ((name, ns) ∷ table) done (is_name, names) (apart, unique) (fresh, new) =
      let text = padded layout.pad (map print ns) in
      let indented = append (spaces (layout.lead name)) name in
      let plain = indented-AreKept (layout.lead name) name is_name.no_colon in
      let counters : parse_counters to_int (words (after_colon (printed layout print (name, ns))))
          ≡ ok ns =
        ap (λ (s : String). parse_counters to_int (words s))
          (after_colon-append indented text plain)
        ∙ ap (parse_counters to_int) (words-padded layout.pad (map print ns) (All-IsWord ns))
        ∙ parse_counters-print ns in
      let key : strip (before_colon (printed layout print (name, ns))) ≡ name =
        ap strip (before_colon-append indented text plain)
        ∙ strip-indented (layout.lead name) name is_name.solid in
      let later = All-later name ns table done apart new in
      ap
        (λ (r : Result (List ℕ)). r >>= λ found.
          parse_interfaces to_int (map (printed layout print) table)
            (insert (strip (before_colon (printed layout print (name, ns)))) found done))
        counters
      ∙ ap
          (λ (k : String).
            parse_interfaces to_int (map (printed layout print) table) (insert k ns done))
          key
      ∙ ap (parse_interfaces to_int (map (printed layout print) table))
          (insert-new name ns done fresh)
      ∙ parse_interfaces-printed table (done ++ ((name, ns) ∷ [])) names unique later
      ∙ ap ok (append_assoc done ((name, ns) ∷ []) table)
    where
      All-later :
          (name : String) (ns : List ℕ) (rest done : Dict (List ℕ))
          → All (λ (e : String × List ℕ). e.0 ≢ name) rest
          → All (λ (e : String × List ℕ). All (λ (a : String × List ℕ). e.0 ≢ a.0) done) rest
          → All
              (λ (e : String × List ℕ).
                All (λ (a : String × List ℕ). e.0 ≢ a.0) (done ++ ((name, ns) ∷ [])))
              rest
      All-later name ns [] done h k = tt
      All-later name ns (e ∷ rest) done (h, hs) (k, ks) = (
        All-snoc (λ (a : String × List ℕ). e.0 ≢ a.0) done (name, ns) k h,
        All-later name ns rest done hs ks,
      )

  -- A file in the layout of /proc/net/dev is read back, whatever the widths of its columns. From two header
  -- lines and a line for every interface, with any spaces before the name, a colon, the counters with one
  -- space or more before each, and a line feed, come the names and their counters, in the same order, if no
  -- name occurs twice and no name has white space or a colon.
  pub parse_net_dev-printed :
      (header header' : String) (table : Dict (List ℕ))
      → All (λ (e : String × List ℕ). IsName e.0) table
      → UniqueBy (λ (e : String × List ℕ). e.0) table
      → parse_net_dev to_int (header ∷ header' ∷ map (printed layout print) table) ≡ ok table
  unfolding parse_net_dev
  parse_net_dev-printed header header' table names unique =
      parse_interfaces-printed table [] names unique (nothing table)
    where
      nothing :
          (t : Dict (List ℕ))
          → All (λ (e : String × List ℕ). All (λ (a : String × List ℕ). e.0 ≢ a.0) []) t
      nothing [] = tt
      nothing (e ∷ t) = (tt, nothing t)
