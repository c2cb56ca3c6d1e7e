-- ===== src/Locking/Alone.antt =====
-- locking.py: `acquire` and `release` of a process that runs alone.
use zabbig.Prelude.{
  ℕ, suc, ◌≡◌, ◌⊎◌, inl, inr, refl, Bool-cases, true, false, none, some, ok, ◌≢◌, arith,
}
use zabbig.Locking.{System, LockFile, absent, present, is_stale, acquire, release}

-- The lock file names a process that is still alive.
abbrev pub IsHeld : System → LockFile → Type 0
IsHeld os absent = ⊥
IsHeld os (present none) = ⊥
IsHeld os (present (some pid)) = os.is_alive pid ≡ true

IsHeld-or-not : (os : System) (file : LockFile) → IsHeld os file ⊎ (¬ IsHeld os file)
IsHeld-or-not os absent = inr (λ h. h)
IsHeld-or-not os (present none) = inr (λ h. h)
IsHeld-or-not os (present (some pid)) = ground arith

-- The lock file is gone, or it could not be removed.
pub release_lem :
    (os : System) (file : LockFile) → (release os file ≡ (ok tt, absent)) ⊎ (os.can_remove ≡ false)
unfolding release
release_lem os absent = inl refl
release_lem os (present content) = elim (Bool-cases os.can_remove) [
  | inl can ↦ inl (ground (arith, can))
  | inr cannot ↦ inr cannot
]

-- Where lock files can be created, written and removed, two rounds of `acquire` are enough, with any number
-- beyond: a lock of a live process is refused and left as it is, and any other lock file, stale,
-- unreadable or absent, ends as the lock file of this process, which `release` removes.
pub acquire_lem :
    (rounds : ℕ) (os : System) (file : LockFile)
    → os.can_create ≡ true
    → os.can_write ≡ true
    → os.can_remove ≡ true
    → (IsHeld os file
        × ((acquire (suc (suc rounds)) os file).1 ≡ file)
        × ((acquire (suc (suc rounds)) os file).0 ≢ ok tt))
      ⊎ ((¬ IsHeld os file)
          × (acquire (suc (suc rounds)) os file ≡ (ok tt, present (some os.pid)))
          × (release os (acquire (suc (suc rounds)) os file).1 ≡ (ok tt, absent)))
unfolding acquire is_stale release
acquire_lem rounds os absent c w r = inr ((λ h. h), ground arith, ground arith)
acquire_lem rounds os (present none) c w r = inr ((λ h. h), ground arith, ground arith)
acquire_lem rounds os (present (some pid)) c w r = elim (IsHeld-or-not os (present (some pid))) [
  | inl held ↦ inl (held, ground arith, (λ e. ground arith))
  | inr free ↦ inr (free, ground arith, ground arith)
]
