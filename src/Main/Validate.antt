-- ===== src/Main/Validate.antt =====
-- main.py, `validate`, and config_loader.py, `validate_metrics_file`: the exit code of `--validate`. The
-- messages that the log handler catches during the load are an argument; what is printed is left out.
use zabbig.Prelude.{
  ℕ, ◌≡◌, refl, String, true, false, List, [], ◌∷◌, if◌then◌else◌, Result, ok, err, Exc, ExcKind,
  config_error, file_not_found, yaml_error,
}
use zabbig.Models.{LoadedMetric}
use zabbig.Models.Dynamic.{Fields, Casts}
use zabbig.Config.Yaml.{ConfigFiles, read_yaml, read_mapping}
use zabbig.Config.Load.{MetricsConfig, load_metrics_config}
use zabbig.Main.{is_empty}

-- The issues, and the metrics that were parsed.
abbrev pub Validation : Type 0
Validation = List String × List LoadedMetric

-- `except ConfigError as exc`, with the issues that follow the message.
issue_of : List String → ExcKind → Exc → Result Validation
issue_of issues config_error e = ok (e.message ∷ issues, [])
issue_of issues kind e = err e

module _ (c : Casts) (files : ConfigFiles) (path : String) (caught : List String) where
  -- The second phase.
  unfoldable pub validate_loaded : Result MetricsConfig → Result Validation
  unfolding issue_of
  validate_loaded (ok mc) = ok (caught, mc.metrics)
  validate_loaded (err e) = issue_of caught e.kind e

  after_syntax : Result Fields → Result Validation
  after_syntax (ok raw) = validate_loaded (load_metrics_config c false files path)
  after_syntax (err e) = issue_of [] e.kind e

  unfoldable pub validate_metrics_file : Result Validation
  unfolding after_syntax issue_of
  validate_metrics_file = after_syntax (read_yaml files path)

  -- `except FileNotFoundError`
  not_found : ExcKind → Exc → Result ℕ
  not_found file_not_found e = ok 2
  not_found kind e = err e

  exit_of : Result Validation → Result ℕ
  exit_of (ok (issues, metrics)) = ok (if is_empty issues then 0 else 1)
  exit_of (err e) = not_found e.kind e

  unfoldable pub validate : Result ℕ
  unfolding exit_of not_found
  validate = exit_of validate_metrics_file

  -- A file that is not there gives exit code 2, and one with a YAML syntax error gives 1, as any other
  -- file with issues.
  pub validate-unreadable :
      ((files.is_file path ≡ false) → validate ≡ ok 2)
      × ((e : Exc)
          → files.is_file path ≡ true
          → files.safe_load path ≡ err e
          → e.kind ≡ yaml_error
          → validate ≡ ok 1)
  unfolding validate validate_metrics_file read_yaml read_mapping issue_of
  validate-unreadable =
      ((λ missing. rw missing refl), (λ e there broken syntax. rw (there, broken, syntax) refl))
