-- ===== src/Locking.antt =====
-- zabbig_client/src/zabbig_client/locking.py: the run lock as a PID file. Here one process runs with
-- no other between its steps; Locking/Race.antt has the system calls of several processes interleaved.
pub mod Alone
pub mod Race
use zabbig.Prelude.{
  ℕ, zero, suc, String, Bool, true, false, not, Option, none, some, Result, ok, err, raise, ExcKind,
  lock_error, os_error, runtime_error, if◌then◌else◌,
}
use zabbig.Prelude.State.{Action}

-- What `int(fh.read().strip())` makes of the lock file: a PID, or a ValueError.
abbrev pub Content : Type 0
Content = Option ℕ

-- The path of the lock file: no file, or a file with its content.
pub data LockFile : Type 0 where
  absent : LockFile
  present : Content → LockFile

-- What the operating system answers. `is_alive` is false exactly on a ProcessLookupError.
pub record System : Type 0 where
  pub pid : ℕ
  pub can_create : Bool
  -- Whether `os.write` into a new file succeeds.
  pub can_write : Bool
  pub can_remove : Bool
  pub is_alive : ℕ → Bool

-- `_is_stale`, for a file that can be read.
unfoldable pub is_stale : System → Content → Bool
is_stale os none = true
is_stale os (some pid) = not (os.is_alive pid)

-- `acquire`, which calls itself after it has removed a stale file. Two rounds are enough; a third
-- call would only be made if the file came back.
unfoldable pub acquire : ℕ → System → LockFile → Result (Unit {0}) × LockFile
acquire zero os file = (raise runtime_error "maximum recursion depth exceeded", file)
acquire (suc rounds) os absent =
    if os.can_create
    then if os.can_write
      then (ok tt, present (some os.pid))
      else (raise os_error "cannot write the lock file", present none)
    else (raise lock_error "Cannot create lock file", absent)
acquire (suc rounds) os (present content) =
    let again = acquire rounds os absent in
    if is_stale os content
    then if os.can_remove
      then again
      else (raise os_error "cannot remove the lock file", present content)
    else (raise lock_error "Another instance is already running", present content)

-- `release` of an acquired lock. Only a FileNotFoundError of `os.unlink` is caught.
unfoldable pub release : System → LockFile → Result (Unit {0}) × LockFile
release os absent = (ok tt, absent)
release os (present content) =
    if os.can_remove
    then (ok tt, absent)
    else (raise os_error "cannot remove the lock file", present content)
