-- ===== src/Tests/State.antt =====
-- The state files and the lock, on concrete contents.
use native.Mathlib.Decide.{ℕ_discrete}
use zabbig.Prelude.{
  ℕ, ◌≡◌, ◌≢◌, ◌⊎◌, refl, true, false, Option, none, some, List, [], ◌∷◌, ok, arith, ◌==◌, nat_eq,
}
use zabbig.Prelude.Float.{zero_float}
use zabbig.Models.{RunSummary, fresh_summary}
use zabbig.StateManager.{Disk, RunState, missing, failures_before, load_raw, load_state}
use zabbig.StateManager.Failures.{SavedRun, save_all, trailing, save_all-trailing}
use zabbig.Locking.{System, absent, present, is_stale, acquire, release}
use zabbig.Locking.Alone.{IsHeld, acquire_lem}
use zabbig.Locking.Race.{
  Shared, Reach, here, next, clean, holding, open_new, write, open_exists, write_pid, goto,
  checking, created,
}
use zabbig.Locking.Race.Exclusion.{Reach-exclusive, two_hold}
use zabbig.Tests.Data.{sample_config}

abbrev sample_disk : Disk
sample_disk = record { last_run = missing; schedule = missing; dir_ok = true; write_ok = true }

abbrev failed_summary : RunSummary
failed_summary = record fresh_summary { success = false }

abbrev sample_calls : List SavedRun
sample_calls =
    (1, zero_float, failed_summary)
    ∷ (2, zero_float, fresh_summary)
    ∷ (3, zero_float, failed_summary)
    ∷ []

sample_state : load_state sample_config sample_disk ≡ ok none
unfolding load_state load_raw
sample_state = refl

save_all-trailing_example :
    (after : Option RunState) × (load_state sample_config
        (save_all sample_config sample_calls sample_disk)
      ≡ ok after)
    × (failures_before after ≡ trailing (failures_before none) sample_calls)
save_all-trailing_example =
    save_all-trailing sample_config refl sample_calls sample_disk none refl refl sample_state

abbrev sample_system : System
sample_system = record {
  pid = 5;
  can_create = true;
  can_write = true;
  can_remove = true;
  is_alive = λ p. p == 9;
}

stale_is_replaced : acquire 2 sample_system (present (some 8)) ≡ (ok tt, present (some 5))
unfolding acquire is_stale nat_eq ℕ_discrete
stale_is_replaced = refl

acquire_lem_example :
    (IsHeld sample_system (present (some 8))
      × ((acquire 3 sample_system (present (some 8))).1 ≡ present (some 8))
      × ((acquire 3 sample_system (present (some 8))).0 ≢ ok tt))
    ⊎ ((¬ IsHeld sample_system (present (some 8)))
        × (acquire 3 sample_system (present (some 8)) ≡ (ok tt, present (some 5)))
        × (release sample_system (acquire 3 sample_system (present (some 8))).1 ≡ (ok tt, absent)))
acquire_lem_example = acquire_lem 1 sample_system (present (some 8)) refl refl refl

-- Process 1 takes the lock, and process 2 finds the file.
abbrev taken : Shared
taken = record {
  path = write_pid 0 1 (some (record { number = 0; content = none }));
  next_inode = 1;
  pc = goto (goto (goto clean.pc 1 (created 0)) 1 holding) 2 checking;
}

taken-Reach : Reach sample_system.is_alive false clean taken
unfolding nat_eq ℕ_discrete
taken-Reach =
    let r1 : Reach sample_system.is_alive false clean _ = next here (open_new 1 refl refl) in
    let r2 : Reach sample_system.is_alive false clean _ = next r1 (write 1 0 (ground arith)) in
    next r2 (open_exists 2 _ (ground arith) refl)

one_holds : taken.pc 1 ≡ holding
one_holds = ground arith

Reach-exclusive_example : ◌≡◌ {A = ℕ} 1 1
Reach-exclusive_example =
    Reach-exclusive sample_system.is_alive taken taken-Reach 1 1 one_holds one_holds

two_hold_example :
    (s : Shared) × Reach sample_system.is_alive true clean s
    × (s.pc 1 ≡ holding)
    × (s.pc 2 ≡ holding)
two_hold_example = two_hold sample_system.is_alive 1 2 (λ e. omega (arith, e))
