-- ===== src/Config/Yaml.antt =====
-- config_loader.py, `_read_yaml`, which db_loader.py has too with another exception. The file system,
-- os.path, glob and the YAML parser are the parameter `ConfigFiles`.
use zabbig.Prelude.{
  String, Bool, List, if◌then◌else◌, Result, ok, err, raise, Exc, ExcKind, file_not_found,
  yaml_error, config_error,
}
use zabbig.Models.Dynamic.{Value, null, dict, Fields, end}

pub record ConfigFiles : Type 0 where
  pub is_file : String → Bool
  -- `yaml.safe_load` of the file, where `yaml.YAMLError` is `yaml_error`
  pub safe_load : String → Result Value
  -- `glob.glob`, and `sorted` on texts
  pub glob : String → List String
  pub sorted : List String → List String
  -- `os.path.dirname(os.path.abspath(path))`, `os.path.isabs` and `os.path.join`
  pub base_dir : String → String
  pub isabs : String → Bool
  pub join : String → String → String

-- `except yaml.YAMLError`, which becomes an exception of the loader.
wrapped : ExcKind → ExcKind → Exc → Result Fields
wrapped as_kind yaml_error e = raise as_kind "YAML syntax error"
wrapped as_kind kind e = err e

mapping : ExcKind → Result Value → Result Fields
unfolding wrapped
mapping as_kind (ok null) = ok end
mapping as_kind (ok (dict d)) = ok d
mapping as_kind (ok v) = raise as_kind "must be a YAML mapping"
mapping as_kind (err e) = wrapped as_kind e.kind e

unfoldable pub read_mapping : ConfigFiles → ExcKind → String → Result Fields
unfolding mapping
read_mapping files as_kind path =
    if files.is_file path then mapping as_kind (files.safe_load path) else raise file_not_found path

-- `_read_yaml`
unfoldable pub read_yaml : ConfigFiles → String → Result Fields
read_yaml files path = read_mapping files config_error path

-- A value whose `get` is called, or that is unpacked by `**`.
unfoldable pub fields_of : ExcKind → Value → Result Fields
fields_of kind (dict d) = ok d
fields_of kind v = raise kind "not a mapping"
