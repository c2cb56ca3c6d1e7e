-- ===== src/Registry.antt =====
-- zabbig_client/src/zabbig_client/collector_registry.py: the registry of collector classes and the
-- import of those that a run needs. A class is whatever the registry holds, of a type `C`. A set of
-- names is a list, in the order in which it happens to be walked. To import a collector module is
-- to run its `@register_collector` line, which registers the class under the module's own name.
pub mod Loading
use zabbig.Prelude.{
  String, ◌<>◌, Bool, true, false, Option, none, some, List, [], ◌∷◌, if◌then◌else◌, Result, ok,
  err, raise, ExcKind, key_error,
}
use zabbig.Prelude.Dict.{Dict, lookup, has_key, insert}

-- _COLLECTOR_MODULE_MAP
abbrev pub module_map : Dict String
module_map =
    ("cpu", "cpu")
    ∷ ("memory", "memory")
    ∷ ("disk", "disk")
    ∷ ("service", "service")
    ∷ ("network", "network")
    ∷ ("log", "log")
    ∷ ("probe", "probe")
    ∷ ("database", "database")
    ∷ []

module _ {C : Type 0} where
  -- `register_collector(name)(cls)`
  unfoldable pub register_collector : String → C → Dict C → Dict C
  register_collector name cls registry = insert name cls registry

  unfoldable pub get_collector : String → Dict C → Result C
  get_collector name registry = elim (lookup name registry) [
    | some cls ↦ ok cls
    | none ↦ raise key_error ("No collector registered for '" <> name <> "'")
  ]

  -- The import of one module, whose class is `class_of slug`.
  import_module : (String → C) → Option String → Dict C → Dict C
  unfolding register_collector
  import_module class_of none registry = registry
  import_module class_of (some slug) registry = register_collector slug (class_of slug) registry

  -- The body of the loop.
  pub load_one : (String → C) → String → Dict C → Dict C
  unfolding import_module
  load_one class_of name registry =
      if has_key name registry
      then registry
      else import_module class_of (lookup name module_map) registry

  unfoldable pub load_collectors_for : (String → C) → List String → Dict C → Dict C
  load_collectors_for class_of [] registry = registry
  load_collectors_for class_of (name ∷ names) registry =
      load_collectors_for class_of names (load_one class_of name registry)
