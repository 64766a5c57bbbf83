-- ===== src/Replay/Writer.antt =====
-- ReplayWriter: the start of a recording. What the file system answers to the calls before the
-- recorder writes is `creation`, with the name that `mkstemp` chose.
use vibe_connect.Base.{
  ℕ, ◌%◌, ◌/◌, ◌^◌, String, Bool, false, not, List, [], ◌∷◌, Result, ok, raise as failed,
  replay_error, os_error, ◌!=◌, nat_eq,
}
use vibe_connect.Base.Action.{Action, raise, raise_if, modify, gets, ◌>>=◌, ◌>>◌}
use vibe_connect.Text.{append}
use vibe_connect.Tunnel.Heartbeat.{microseconds}
use vibe_connect.Replay.Storage.{Disk, ReplayPlatform, unlink_if_exists}
use vibe_connect.Replay.Recorder.{
  ReplayRecorder, Recording, header_value, write_line, close_open_file, put_file, on_disk,
}

pub record ReplayWriter : Type 0 where
  pub integrity_key : List ℕ
  pub audited : Bool

-- `ReplayWriter(…)`
unfoldable pub replay_writer : List ℕ → Bool → Result ReplayWriter
replay_writer [] audited = failed (replay_error "replay integrity key is required")
replay_writer (k ∷ ks) audited = ok (record { integrity_key = k ∷ ks; audited = audited })

pub record Creation : Type 0 where
  pub makes_directory : Bool
  pub sets_directory_mode : Bool
  -- the mode that `stat` shows after `chmod(0o700)`
  pub mode_after : ℕ → ℕ
  pub makes_temp : Bool
  pub sets_temp_mode : Bool
  pub opens_temp : Bool
  pub temp_path : String

-- `_prepare_replay_directory`; 448 is 0o700.
unfoldable pub prepare_replay_directory : Creation → Action Disk (Unit {0})
prepare_replay_directory creation = do
  raise_if (not creation.makes_directory) os_error
  raise_if (not creation.sets_directory_mode) os_error
  modify λ d. record d { mode = creation.mode_after d.mode }
  mode ← gets (λ d. d.mode)
  raise_if (mode % 2 ^ 9 != 448) (replay_error "replay directory must have mode 0700")

-- `mkstemp`, `chmod` and `fdopen`
unfoldable pub make_temp : Creation → Action Disk (Unit {0})
unfolding put_file
make_temp creation = do
  raise_if (not creation.makes_temp) (replay_error "replay file cannot be created")
  modify (put_file creation.temp_path [])
  raise_if (not creation.sets_temp_mode) (replay_error "replay file cannot be created")
  raise_if (not creation.opens_temp) (replay_error "replay file cannot be created")

module _ (platform : ReplayPlatform) where
  -- The recorder's constructor, and the `except OSError` around it.
  abbrev pub constructed : Result (Unit {0}) × Recording → Result ReplayRecorder × Recording
  constructed (ok u, s) = (ok s.recorder, s)
  constructed (failed os_error, s) =
      (do
        close_open_file platform
        on_disk (unlink_if_exists platform s.recorder.temp_path)
        raise (replay_error "replay file cannot be created"))
        s
  constructed (failed e, s) = (failed e, s)

  abbrev pub disk_of {ℓ} : {A : Type ℓ} → Result A × Recording → Result A × Disk
  disk_of (r, s) = (r, s.disk)

  unfoldable pub replay_recorder : ReplayRecorder → String → ℕ → ℕ → ℕ → Action Disk ReplayRecorder
  unfolding header_value write_line
  replay_recorder recorder node_name width height timestamp d = disk_of (
      constructed (
        write_line platform (header_value node_name width height timestamp)
          (record { recorder = recorder; disk = d })))

  abbrev pub new_recorder : ReplayWriter → Creation → ℕ → ReplayRecorder
  new_recorder writer creation session_id = record {
    session_id = session_id;
    path = platform.in_directory (append (platform.uuid_text session_id) ".cast");
    temp_path = creation.temp_path;
    integrity_key = writer.integrity_key;
    audited = writer.audited;
    closed = false;
    file_closed = false;
  }

  unfoldable pub start :
      ReplayWriter → Creation → ℕ → String → ℕ → ℕ → ℕ → Action Disk ReplayRecorder
  unfolding prepare_replay_directory make_temp replay_recorder append
  start writer creation session_id node_name width height now = do
    prepare_replay_directory creation
    make_temp creation
    replay_recorder (new_recorder writer creation session_id) node_name width height
        (now / microseconds)
