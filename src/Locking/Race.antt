-- ===== src/Locking/Race.antt =====
-- locking.py: the system calls of several processes, interleaved. A process is numbered by its PID.
-- The path names an inode or nothing; a process that has created the file writes into its own inode,
-- also when the path no longer names it.
pub mod Exclusion
use zabbig.Prelude.{
  ℕ, suc, ◌≡◌, ◌≢◌, refl, Bool, true, false, Option, none, some, ◌==◌, nat_eq, if◌then◌else◌, arith,
}
use zabbig.Prelude.State
use zabbig.Locking.{Content}

-- Where a process stands in `acquire`: before `os.open`, after it has created an inode, after EEXIST,
-- before `os.unlink` of a stale file, holding the lock, refused by a LockError, or past `release`.
pub data Pc : Type 0 where
  start checking removing holding refused done : Pc
  created : ℕ → Pc

pub record Inode : Type 0 where
  pub number : ℕ
  pub content : Content

pub record Shared : Type 0 where
  pub path : Option Inode
  pub next_inode : ℕ
  pub pc : ℕ → Pc

abbrev pub goto : (ℕ → Pc) → ℕ → Pc → ℕ → Pc
goto pc p at q = if q == p then at else pc q

-- `os.write(fd, str(os.getpid()).encode())` for the inode `i`.
abbrev pub write_pid : ℕ → ℕ → Option Inode → Option Inode
write_pid i p none = none
write_pid i p (some f) =
    if f.number == i then some (record { number = f.number; content = some p }) else some f

-- What `_is_stale` says of the path: a missing or unreadable file is stale.
abbrev pub looks_stale : (ℕ → Bool) → Option Inode → Bool
looks_stale is_alive none = true
looks_stale is_alive (some f) = elim f.content [
  | none ↦ true
  | some pid ↦ if is_alive pid then false else true
]

-- One system call of one process. With `removes` false no process ever judges the lock stale.
pub data Step (is_alive : ℕ → Bool) (removes : Bool) (s : Shared) : Shared → Type 0 where
  open_new :
      (p : ℕ)
      → s.pc p ≡ start
      → s.path ≡ none
      → Step is_alive removes s (record {
        path = some (record { number = s.next_inode; content = none });
        next_inode = suc s.next_inode;
        pc = goto s.pc p (created s.next_inode);
      })
  open_exists :
      (p : ℕ) (f : Inode)
      → s.pc p ≡ start
      → s.path ≡ some f
      → Step is_alive removes s (record s { pc = goto s.pc p checking })
  write :
      (p i : ℕ)
      → s.pc p ≡ created i
      → Step is_alive removes s (record s { path = write_pid i p s.path; pc = goto s.pc p holding })
  refuse :
      (p : ℕ)
      → s.pc p ≡ checking
      → looks_stale is_alive s.path ≡ false
      → Step is_alive removes s (record s { pc = goto s.pc p refused })
  judge_stale :
      (p : ℕ)
      → removes ≡ true
      → s.pc p ≡ checking
      → looks_stale is_alive s.path ≡ true
      → Step is_alive removes s (record s { pc = goto s.pc p removing })
  unlink :
      (p : ℕ)
      → s.pc p ≡ removing
      → Step is_alive removes s (record s { path = none; pc = goto s.pc p start })
  release :
      (p : ℕ)
      → s.pc p ≡ holding
      → Step is_alive removes s (record s { path = none; pc = goto s.pc p done })

pub data Reach (is_alive : ℕ → Bool) (removes : Bool) (s : Shared) : Shared → Type 0 where
  here : Reach is_alive removes s s
  next :
      {t u : Shared}
      → Reach is_alive removes s t
      → Step is_alive removes t u
      → Reach is_alive removes s u

-- No lock file, and every process about to start.
abbrev pub clean : Shared
clean = record { path = none; next_inode = 0; pc = λ p. start }
