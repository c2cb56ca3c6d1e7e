-- ===== src/Tests/Schedule.antt =====
-- The scheduler and the schedule of a day, on concrete metrics.
use mathlib.Core.Bool.{false≢true}
use text.Mathlib.TextEquality.{eq_iff}
use zabbig.Prelude.{
  ◌≡◌, ◌↔◌, ◌≢◌, refl, String, true, false, none, some, [], ◌∷◌, ok, err, arith, string_eq, nat_eq,
  key_error,
}
use native.Mathlib.Decide.{ℕ_discrete}
use zabbig.Prelude.Dict.{get_or, lookup}
use zabbig.Prelude.Float.{pos}
use zabbig.Models.{every}
use zabbig.Scheduler.{execute, should_execute, cadence, parse_hhmm, int_or_raise}
use zabbig.Scheduler.Cadence.{IsDue}
use zabbig.Scheduler.Guards.{HasBegun, HasNotEnded, IsUnderQuota, should_execute_iff}
use zabbig.Runner.{in_time}
use zabbig.StateManager.{missing, holds, load_schedule_state, load_raw}
use zabbig.Locking.{absent}
use zabbig.Prelude.{Returns}
use zabbig.Prelude.Text.{is_digit, is_digits, int_of, int_from}
use zabbig.Models.Dynamic.{Value, str}
use zabbig.Config.{parse_hhmm_field, hhmm_text, checked_hhmm, in_range, zfill}
use zabbig.Config.Hhmm.{should_execute-Returns}
use zabbig.Main.Schedule.{UniqueIds}
use zabbig.Main.Run.{Inputs, Machine, no_path}
use zabbig.Main.Quota.{Quotas}
use zabbig.Tests.Data.{
  sample_config, sample_metrics, cpu_metric, sample_net, sample_registry, world, sample_clock,
}

eight_thirty : parse_hhmm "0830" ≡ ok 510
unfolding parse_hhmm
eight_thirty = refl

third_run : cadence (some (every (pos 3))) 4 ≡ execute
unfolding cadence nat_eq ℕ_discrete
third_run = refl

should_execute_iff_example :
    ((should_execute cpu_metric 600 4 0 false ≡ ok execute) ↔ (
      HasBegun (some "0800") 600
      × HasNotEnded none 600
      × IsUnderQuota none 0
      × IsDue (some (every (pos 3))) 4))
    × (should_execute cpu_metric 600 4 0 true ≡ ok execute)
should_execute_iff_example = should_execute_iff cpu_metric 600 4 0 (omega arith)

abbrev pub sample_inputs : Inputs sample_net
sample_inputs = record {
  client_config = ok sample_config;
  metrics_config = λ strict. ok sample_metrics;
  databases = no_path;
  dry_run = false;
  log_level_override = none;
  system = record {
    pid = 5;
    can_create = true;
    can_write = true;
    can_remove = true;
    is_alive = λ p. false;
  };
  today = "2024-05-01";
  now_minutes = 600;
  registered = sample_registry;
  class_of = λ name m. err (record { kind = key_error; message = "" });
  world = λ registry. world in_time;
  output = λ results. ok tt;
  clock = sample_clock;
  cut = none;
  rounded = λ d. d;
  upper = λ s. s;
}

-- The disk metric has already used up its quota of two.
abbrev pub sample_machine : Machine sample_net
sample_machine = record {
  disk = record {
    last_run = missing;
    schedule =
        holds
          (record { date = some "2024-05-01"; run_counter = 3; metrics = ("disk.used", 2) ∷ [] });
    dir_ok = true;
    write_ok = true;
  };
  lock = absent;
  outside = 0;
}

pub differ : ◌≢◌ {A = String} "disk.used" "cpu.util"
differ e = false≢true ((eq_iff "disk.used" "cpu.util").1 e)

pub sample_metrics-UniqueIds : UniqueIds sample_metrics
sample_metrics-UniqueIds = ((differ, tt), (tt, tt))

sample_machine-Quotas : Quotas sample_metrics sample_machine.disk
unfolding get_or lookup load_schedule_state load_raw string_eq
sample_machine-Quotas = (tt, (omega arith, tt))

sample_str : Value → String
sample_str (str s) = s
sample_str v = "x"

eight_o_clock : parse_hhmm_field sample_str true (some (str "800")) ≡ ok (some "0800")
unfolding sample_str parse_hhmm_field hhmm_text checked_hhmm in_range zfill int_or_raise is_digits
    is_digit int_of int_from nat_eq ℕ_discrete
eight_o_clock = refl

no_end : parse_hhmm_field sample_str true none ≡ ok none
unfolding parse_hhmm_field
no_end = refl

should_execute-Returns_example : Returns (should_execute cpu_metric 600 4 0 false)
should_execute-Returns_example =
    should_execute-Returns sample_str true (some (str "800")) none cpu_metric 600 4 0 false
      eight_o_clock no_end
