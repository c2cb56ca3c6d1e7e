-- ===== src/Locking/Race/Exclusion.antt =====
-- locking.py: when at most one process holds the lock, and when two do.
use zabbig.Prelude.{ℕ, ◌≡◌, ◌≢◌, refl, Bool, true, false, none, nat_eq, arith}
use zabbig.Locking.Race.{
  Pc, removing, holding, created, Shared, Step, open_new, open_exists, write, refuse, judge_stale,
  unlink, release, Reach, here, next, clean,
}

-- A process that has created the file, or holds the lock.
abbrev is_active : Pc → Bool
is_active (created i) = true
is_active holding = true
is_active _ = false

record Inv (s : Shared) : Type 0 where
  unique : (p q : ℕ) → is_active (s.pc p) ≡ true → is_active (s.pc q) ≡ true → p ≡ q
  exists : (p : ℕ) → is_active (s.pc p) ≡ true → s.path ≢ none
  calm : (p : ℕ) → s.pc p ≢ removing

Step-Inv : {is_alive : ℕ → Bool} {s t : Shared} → Step is_alive false s t → Inv s → Inv t
Step-Inv {s} (open_new p e n) inv = record {
  unique = λ a b ha hb. ground (arith, inv.exists a, inv.exists b);
  exists = λ a h. ground arith;
  calm = λ a. ground (arith, inv.calm a);
}
Step-Inv {s} (open_exists p f e n) inv = record {
  unique = λ a b ha hb. ground (arith, inv.unique a b);
  exists = λ a h. ground (arith, inv.exists a);
  calm = λ a. ground (arith, inv.calm a);
}
Step-Inv {s} (write p i e) inv = record {
  unique = λ a b ha hb. ground (arith, inv.unique a b, inv.unique p b, inv.unique a p);
  exists = λ a h. ground (arith, inv.exists a, inv.exists p);
  calm = λ a. ground (arith, inv.calm a);
}
Step-Inv {s} (refuse p e n) inv = record {
  unique = λ a b ha hb. ground (arith, inv.unique a b);
  exists = λ a h. ground (arith, inv.exists a);
  calm = λ a. ground (arith, inv.calm a);
}
Step-Inv {s} (judge_stale p r e n) inv = absurd (cc)
Step-Inv {s} (unlink p e) inv = absurd (inv.calm p e)
Step-Inv {s} (release p e) inv = record {
  unique = λ a b ha hb. ground (arith, inv.unique a b);
  exists = λ a h. ground (arith, inv.unique p a);
  calm = λ a. ground (arith, inv.calm a);
}

Reach-Inv : {is_alive : ℕ → Bool} {s t : Shared} → Inv s → Reach is_alive false s t → Inv t
Reach-Inv inv here = inv
Reach-Inv inv (next r st) = Step-Inv st (Reach-Inv inv r)

-- As long as no process judges the lock file stale, two processes never hold the lock together, in
-- whatever order their system calls come.
pub Reach-exclusive :
    (is_alive : ℕ → Bool) (s : Shared)
    → Reach is_alive false clean s
    → (p q : ℕ) → s.pc p ≡ holding
    → s.pc q ≡ holding
    → p ≡ q
Reach-exclusive is_alive s r p q hp hq =
    (Reach-Inv start_inv r).unique p q (ground arith) (ground arith)
  where
    start_inv : Inv clean
    start_inv = record { unique = λ a b h k. cc; exists = λ a h. cc; calm = λ a h. cc }

-- The lock file is empty between its creation and the write of the PID. A second process that reads
-- it then takes it for stale and removes it: from no lock file at all, any two processes can come to
-- hold the lock together.
pub two_hold :
    (is_alive : ℕ → Bool) (p q : ℕ)
    → p ≢ q
    → (s : Shared) × Reach is_alive true clean s × (s.pc p ≡ holding) × (s.pc q ≡ holding)
two_hold is_alive p q ne =
    let r1 : Reach is_alive true clean _ = next here (open_new p refl refl) in
    let r2 : Reach is_alive true clean _ = next r1 (open_exists q _ (ground arith) refl) in
    let r3 : Reach is_alive true clean _ = next r2 (judge_stale q refl (ground arith) refl) in
    let r4 : Reach is_alive true clean _ = next r3 (unlink q (ground arith)) in
    let r5 : Reach is_alive true clean _ = next r4 (open_new q (ground arith) refl) in
    let r6 : Reach is_alive true clean _ = next r5 (write q 1 (ground arith)) in
    let r7 : Reach is_alive true clean _ = next r6 (write p 0 (ground arith)) in
    (_, r7, ground arith, ground arith)
