-- ===== src/Host/Volume.antt =====
-- zabbig_client/src/zabbig_client/collectors/disk.py: the blocks and inodes of a file system. What
-- `os.statvfs` gives, the arithmetic on floats and the texts of the values are the parameter
-- `VolumeReads`.
use zabbig.Prelude.{
  ℕ, ◌*◌, ◌==◌, nat_eq, String, if◌then◌else◌, Result, ok, raise, value_error, ◌>>=◌,
}
use zabbig.Prelude.Float.{ℤ, pos, Float, zero_float}
use zabbig.Models.{MetricDef, MetricResult}
use zabbig.Models.Dynamic.{Value}
use zabbig.Host.{host_param, is_text, diff, host_result}

-- The fields of `os.statvfs_result` that are read.
pub record Statvfs : Type 0 where
  pub f_blocks : ℕ
  pub f_frsize : ℕ
  pub f_bavail : ℕ
  pub f_files : ℕ
  pub f_ffree : ℕ

-- An `int` or a `float`.
pub data Number : Type 0 where
  whole : ℤ → Number
  real : Float → Number

module _ (percent : ℤ → ℕ → Float) where
  -- `0.0` if the total is 0, else `round(used / total * 100.0, 2)`
  unfoldable pub percent_of : ℕ → ℤ → Number
  percent_of total used = if total == 0 then real zero_float else real (percent used total)

  unfoldable pub inode_stat : Statvfs → Value → Result Number
  inode_stat st mode =
      let used_inodes = diff st.f_files st.f_ffree in
      if is_text mode "inodes_total"
      then ok (whole (pos st.f_files))
      else if is_text mode "inodes_free"
      then ok (whole (pos st.f_ffree))
      else if is_text mode "inodes_used"
      then ok (whole used_inodes)
      else if is_text mode "inodes_used_percent"
      then ok (percent_of st.f_files used_inodes)
      else raise value_error "Unknown disk collector mode"

  -- `_disk_stat`, of what `os.statvfs(mount)` has given
  unfoldable pub disk_stat : Statvfs → Value → Result Number
  disk_stat st mode =
      let total_bytes = st.f_blocks * st.f_frsize in
      let free_bytes = st.f_bavail * st.f_frsize in
      let used_bytes = diff total_bytes free_bytes in
      if is_text mode "free_bytes"
      then ok (whole (pos free_bytes))
      else if is_text mode "used_bytes"
      then ok (whole used_bytes)
      else if is_text mode "used_percent"
      then ok (percent_of total_bytes used_bytes)
      else inode_stat st mode

pub record VolumeReads : Type 0 where
  pub statvfs : Value → Result Statvfs
  pub percent : ℤ → ℕ → Float
  pub show_number : Number → String
  pub source : Value → Value → String

-- `DiskCollector.collect`, at a time and with its duration
unfoldable pub collect_disk : VolumeReads → ℕ → Float → MetricDef → Result MetricResult
collect_disk reads now duration metric = do
  let mount = host_param "mount" "/" metric
  let mode = host_param "mode" "used_percent" metric
  st ← reads.statvfs mount
  value ← disk_stat reads.percent st mode
  ok (host_result "disk" metric now duration (reads.source mount mode) (reads.show_number value))
