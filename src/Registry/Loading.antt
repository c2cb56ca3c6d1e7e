-- ===== src/Registry/Loading.antt =====
-- What load_collectors_for leaves in the registry.
use zabbig.Prelude.{
  String, ◌≡◌, refl, Bool, true, false, Option, none, some, List, [], ◌∷◌, ◌==◌, string_eq,
  if◌then◌else◌, contains, arith,
}
use zabbig.Prelude.Dict.{Dict, lookup, lookup-insert, has_key-lookup}
use zabbig.Registry.{module_map, load_one, load_collectors_for, import_module}

-- Each module registers its class under the name that the map gives for it.
lookup-module_map : (name slug : String) → lookup name module_map ≡ some slug → slug ≡ name
unfolding lookup
lookup-module_map name slug h = ground arith

module _ {C : Type 0} (class_of : String → C) where
  -- The class that a lookup finds after an import, if the name was not yet registered.
  abbrev pub imported : String → Option String → Option C
  imported name none = none
  imported name (some slug) = some (class_of name)

  -- A registered class stays, and a name that was asked for and has a module is registered.
  abbrev pub loaded : String → Bool → Option C → Option C
  loaded name asked (some c) = some c
  loaded name true none = imported name (lookup name module_map)
  loaded name false none = none

  abbrev imported_or : String → Option String → Option C → Option C
  imported_or name none old = old
  imported_or name (some slug) old = some (class_of name)

  imported_or-imported :
      (name : String) (o : Option String) → imported_or name o none ≡ imported name o
  imported_or-imported name none = refl
  imported_or-imported name (some slug) = refl

  lookup-import_module :
      (j name : String) (o : Option String) (registry : Dict C)
      → ((slug : String) → o ≡ some slug → slug ≡ name)
      → lookup j (import_module class_of o registry)
        ≡ (if j == name then imported_or name o (lookup j registry) else lookup j registry)
  unfolding import_module
  lookup-import_module j name none registry h = ground arith
  lookup-import_module j name (some slug) registry h =
      ground (arith, h slug refl, lookup-insert j slug (class_of slug) registry)

  lookup-load_one :
      (j name : String) (registry : Dict C)
      → lookup j (load_one class_of name registry) ≡ loaded j (j == name) (lookup j registry)
  unfolding load_one
  lookup-load_one j name registry = ground (
    arith,
    has_key-lookup name registry,
    lookup-import_module j name (lookup name module_map) registry (lookup-module_map name),
    imported_or-imported name (lookup name module_map),
  )

  -- After load_collectors_for every class that was registered is still registered, every name of the
  -- list that has a module is registered with the class of its module, and no other name is added.
  pub lookup-load_collectors_for :
      (j : String) (names : List String) (registry : Dict C)
      → lookup j (load_collectors_for class_of names registry)
        ≡ loaded j (contains names j) (lookup j registry)
  unfolding load_collectors_for
  lookup-load_collectors_for j [] registry = ground arith
  lookup-load_collectors_for j (name ∷ names) registry = ground (
    arith,
    lookup-load_collectors_for j names (load_one class_of name registry),
    lookup-load_one j name registry,
  )
