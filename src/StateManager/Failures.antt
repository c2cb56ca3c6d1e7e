-- ===== src/StateManager/Failures.antt =====
-- state_manager.py: consecutive_failures over a sequence of calls of save_state.
use zabbig.Prelude.{
  ℕ, ◌+◌, ◌≡◌, refl, sym, ap, ◌∙◌, true, Option, some, List, [], ◌∷◌, if◌then◌else◌, ok, arith,
}
use zabbig.Prelude.Float.{Float}
use zabbig.Models.{ClientConfig, RunSummary}
use zabbig.StateManager.{
  Disk, RunState, holds, load_raw, failures_before, run_state, save_state, load_state,
}

-- A call for a run: its time, its rounded duration, its summary.
abbrev pub SavedRun : Type 0
SavedRun = ℕ × Float × RunSummary

-- The disk after the calls, the first one first.
pub save_all : ClientConfig → List SavedRun → Disk → Disk
save_all config [] disk = disk
save_all config ((now, rounded, summary) ∷ runs) disk =
    save_all config runs (save_state config now rounded summary disk).1

-- Failed runs at the end of a sequence that began with `n` of them.
abbrev pub trailing : ℕ → List SavedRun → ℕ
trailing n [] = n
trailing n ((_, _, summary) ∷ runs) = trailing (if summary.success then 0 else n + 1) runs

module _ (config : ClientConfig) (on : config.state.enabled ≡ true) where
  save_state-on :
      (now : ℕ) (rounded : Float) (summary : RunSummary) (disk : Disk) (existing : Option RunState)
      → disk.dir_ok ≡ true
      → disk.write_ok ≡ true
      → load_raw disk.last_run ≡ ok existing
      → (save_state config now rounded summary disk).1
        ≡ record disk { last_run = holds (run_state now rounded summary existing) }
  unfolding save_state
  save_state-on now rounded summary disk existing d w r = ground arith

  counted :
      (now : ℕ) (rounded : Float) (summary : RunSummary) (existing : Option RunState)
      → failures_before (some (run_state now rounded summary existing))
        ≡ (if summary.success then 0 else failures_before existing + 1)
  unfolding run_state failures_before
  counted now rounded summary existing = refl

  load_state-on : (disk : Disk) → load_state config disk ≡ load_raw disk.last_run
  unfolding load_state
  load_state-on disk = ground (arith, on)

  raw-trailing :
      (calls : List SavedRun) (disk : Disk) (before : Option RunState)
      → disk.dir_ok ≡ true
      → disk.write_ok ≡ true
      → load_raw disk.last_run ≡ ok before
      → (after : Option RunState) × (load_raw (save_all config calls disk).last_run ≡ ok after)
        × (failures_before after ≡ trailing (failures_before before) calls)
  unfolding save_all load_raw
  raw-trailing [] disk before d w r = (before, r, refl)
  raw-trailing ((now, rounded, summary) ∷ calls) disk before d w r =
      let next : RunState = run_state now rounded summary before in
      let (after, loaded, count) =
        raw-trailing calls (record disk { last_run = holds next }) (some next) d w refl in
      (
        after,
        ap (λ (x : Disk). load_raw (save_all config calls x).last_run)
              (save_state-on now rounded summary disk before d w r)
            ∙ loaded,
        count ∙ ap (λ (n : ℕ). trailing n calls) (counted now rounded summary before),
      )

  -- While state is enabled, the state directory can be written and last_run.json can be read at first, after
  -- any sequence of calls of save_state the file can be read, and its failure count is the number of calls
  -- with a failed run since the last one with a successful run, on top of the count at first if there was
  -- none. Runs that end without calling save_state are not counted.
  pub save_all-trailing :
      (calls : List SavedRun) (disk : Disk) (before : Option RunState)
      → disk.dir_ok ≡ true
      → disk.write_ok ≡ true
      → load_state config disk ≡ ok before
      → (after : Option RunState) × (load_state config (save_all config calls disk) ≡ ok after)
        × (failures_before after ≡ trailing (failures_before before) calls)
  save_all-trailing calls disk before d w r =
      let (after, loaded, count) =
        raw-trailing calls disk before d w (sym (load_state-on disk) ∙ r) in
      (after, load_state-on (save_all config calls disk) ∙ loaded, count)
