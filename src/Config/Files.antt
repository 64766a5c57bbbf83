-- ===== src/Config/Files.antt =====
-- The checks on files. `stat` gives a file's owner and its mode, `none` where it raises.
use vibe_connect.Base.{
  ℕ, ◌%◌, ◌/◌, String, Bool, not, ◌||◌, ◌&&◌, Option, List, Result, config_error, os_error, ◌>>=◌,
  raise_if, or_raise, contains, nat_eq, ◌==◌, ◌!=◌,
}
use vibe_connect.Text.{append}

pub record FileStat : Type 0 where
  pub owner : ℕ
  pub mode : ℕ

pub record FileSystem : Type 0 where
  pub is_file : String → Bool
  pub is_dir : String → Bool
  pub stat : String → Option FileStat

-- A bit of a mode, by its weight.
abbrev pub has_bit : ℕ → ℕ → Bool
has_bit weight mode = mode / weight % 2 == 1

module _ (fs : FileSystem) where
  unfoldable pub require_file : String → String → Result (Unit {0})
  require_file path label =
      raise_if (not (fs.is_file path)) (config_error (append label " is missing"))

  unfoldable pub require_dir : String → String → Result (Unit {0})
  require_dir path label =
      raise_if (not (fs.is_dir path)) (config_error (append label " is missing"))

  unfoldable pub require_owner : String → List ℕ → String → Result (Unit {0})
  require_owner path allowed_uids label = do
    found ← or_raise (fs.stat path) os_error
    raise_if (not (contains allowed_uids found.owner))
        (config_error (append label " has unsafe owner"))

  -- 0o400 and 0o004
  unfoldable pub readable_by : ℕ → FileStat → Bool
  readable_by uid found = (found.owner == uid && has_bit 256 found.mode) || has_bit 4 found.mode

  unfoldable pub require_readable_by_uid : String → ℕ → String → Result (Unit {0})
  unfolding readable_by
  require_readable_by_uid path uid label = do
    found ← or_raise (fs.stat path) os_error
    raise_if (not (readable_by uid found))
        (config_error (append label " is not readable by runtime user"))

  -- 0o077
  unfoldable pub reject_group_or_other_accessible : String → String → Result (Unit {0})
  reject_group_or_other_accessible path label = do
    found ← or_raise (fs.stat path) os_error
    raise_if (found.mode % 64 != 0)
        (config_error (append label " has permissions broader than required"))

  -- 0o020 and 0o002
  unfoldable pub reject_group_or_other_writable : String → String → Result (Unit {0})
  reject_group_or_other_writable path label = do
    found ← or_raise (fs.stat path) os_error
    raise_if (has_bit 16 found.mode || has_bit 2 found.mode)
        (config_error (append label " is writable by group or other"))

  unfoldable pub reject_other_readable : String → String → Result (Unit {0})
  reject_other_readable path label = do
    found ← or_raise (fs.stat path) os_error
    raise_if (has_bit 4 found.mode) (config_error (append label " is readable by other users"))
