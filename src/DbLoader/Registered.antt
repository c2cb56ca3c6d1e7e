-- ===== src/DbLoader/Registered.antt =====
-- db_loader.py: what holds of every entry of the registry.
use mathlib.Core.Path.{subst}
use zabbig.Prelude.{
  ◌≡◌, String, Bool, true, Bool-cases, inl, inr, not, ◌&&◌, List, [], ◌∷◌, All, ◌==◌, string_eq,
  contains, ok, ◌>>=◌, invert, ok-injective, arith,
}
use zabbig.Prelude.Dict.{Dict, insert}
use zabbig.Models.Dynamic.{Value, null, list, nil, dict, Fields, get, truthy, Casts}
use zabbig.Config.Yaml.{ConfigFiles}
use zabbig.Crypto.{Primitives}
use zabbig.Crypto.Keys.{KeyStore}
use zabbig.DbLoader.{
  DbConfig, Seen, db_error, read_databases, supported_types, try_load_key, parse_database,
  add_named, add_entry, add_entries, entries_list, version_checked, load_databases_config,
}

All-insert :
    (Q : String × DbConfig → Type 0) (name : String) (db : DbConfig) (d : Dict DbConfig)
    → Q (name, db)
    → All Q d
    → All Q (insert name db d)
unfolding insert
All-insert Q name db [] q h = (q, tt)
All-insert Q name db ((other, w) ∷ d) q (h, hs) = elim (Bool-cases (name == other)) [
  | inl same ↦ rw same (q, hs)
  | inr differ ↦ rw differ (h, All-insert Q name db d q hs)
]

module _ (p : Primitives) (c : Casts) (strict_passwords strict : Bool) (store : KeyStore)
    (Q : String × DbConfig → Type 0) where
  -- What is parsed for an accepted name and type has the property.
  abbrev pub IsParsed : Type 0
  IsParsed =
      (name db_type : String) (entry : Fields) (db : DbConfig)
      → contains supported_types db_type ≡ true
      → parse_database p c strict_passwords strict (try_load_key p store) name db_type entry ≡ ok db
      → Q (name, db)

  same : (seen next : Seen) → All Q seen.registry → ok seen ≡ ok next → All Q next.registry
  same seen next h e = subst (λ (s : Seen). All Q s.registry) (ok-injective _ _ e) h

  warned :
      (message : String) (seen next : Seen)
      → All Q seen.registry
      → (db_error strict message >>= λ _. ok seen) ≡ ok next
      → All Q next.registry
  warned message seen next h e =
      let (_, _, rest) = invert (db_error strict message) _ next e in same seen next h rest

  module _ (parsed : IsParsed) where
    add_named-All :
        (name db_type : String) (entry : Fields) (seen next : Seen)
        → All Q seen.registry
        → add_named p c strict_passwords strict (try_load_key p store) name db_type entry seen
          ≡ ok next
        → All Q next.registry
    unfolding add_named
    add_named-All name db_type entry seen next h e =
        elim (Bool-cases (not (db_type == "") && contains supported_types db_type)) [
          | inr refused ↦
              let (_, _, rest) = invert (db_error strict _) _ next (rw refused at e) in
              same (record { names = name ∷ seen.names; registry = seen.registry }) next h rest
          | inl accepted ↦
              let (db, known, rest) =
                invert
                  (parse_database p c strict_passwords strict (try_load_key p store) name db_type
                    entry)
                  _ next (rw accepted at e) in
              same (record { names = name ∷ seen.names; registry = insert name db seen.registry })
                next
                (All-insert Q name db seen.registry
                  (parsed name db_type entry db (ground (arith, accepted)) known) h)
                rest
        ]

    add_entry-All :
        (v : Value) (seen next : Seen)
        → All Q seen.registry
        → add_entry p c strict_passwords strict (try_load_key p store) v seen ≡ ok next
        → All Q next.registry
    unfolding add_entry
    add_entry-All (dict entry) seen next h e =
        let name = c.to_str (get "name" entry null) in
        elim (Bool-cases (truthy (get "name" entry null))) [
          | inr nameless ↦ warned _ seen next h (rw nameless at e)
          | inl named ↦ elim (Bool-cases (contains seen.names name)) [
            | inl known ↦ warned _ seen next h (rw (named, known) at e)
            | inr new ↦ add_named-All name _ entry seen next h (rw (named, new) at e)
          ]
        ]
    add_entry-All v seen next h e = warned _ seen next h e

    add_entries-All :
        (vs : List Value) (seen next : Seen)
        → All Q seen.registry
        → add_entries p c strict_passwords strict (try_load_key p store) vs seen ≡ ok next
        → All Q next.registry
    unfolding add_entries
    add_entries-All [] seen next h e = same seen next h e
    add_entries-All (v ∷ vs) seen next h e =
        let (middle, first, rest) =
          invert (add_entry p c strict_passwords strict (try_load_key p store) v seen) _ next e in
        add_entries-All vs middle next (add_entry-All v seen middle h first) rest

    pub load_databases_config-All :
        (files : ConfigFiles) (path : String) (registry : Dict DbConfig)
        → load_databases_config p c strict_passwords strict files store path ≡ ok registry
        → All Q registry
    unfolding load_databases_config
    load_databases_config-All files path registry e =
        let (raw, _, e1) = invert (read_databases files path) _ registry e in
        let (_, _, e2) = invert (version_checked p c strict_passwords strict raw) _ registry e1 in
        let (vs, _, e3) =
          invert (entries_list p c strict_passwords strict (get "databases" raw (list nil))) _
            registry e2 in
        let (seen, added, e4) =
          invert
            (add_entries p c strict_passwords strict (try_load_key p store) vs
              (record { names = []; registry = [] }))
            _ registry e3 in
        subst (All Q) (ok-injective _ _ e4)
          (add_entries-All vs (record { names = []; registry = [] }) seen tt added)
