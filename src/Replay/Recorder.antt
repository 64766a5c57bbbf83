-- ===== src/Replay/Recorder.antt =====
-- ReplayRecorder: one recording, on an open temporary file.
use vibe_connect.Base.{
  ℕ, ◌++◌, String, Bool, true, not, Option, none, some, List, [], ◌∷◌, Result, ok, replay_error,
  os_error, is_none, string_eq, if◌then◌else◌, ◌==◌,
}
use vibe_connect.Base.Action.{Action, pure, raise, raise_if, modify, gets, ◌>>=◌, ◌>>◌}
use vibe_connect.Base.Dict.{get, put, pop}
use vibe_connect.Value.{Value, str, int, pos, list, dict, item, nil, field, end}
use vibe_connect.Audit.Writer.{replay_write_failed}
use vibe_connect.Replay.Storage.{
  ReplayEvent, Disk, ReplayPlatform, write_replay_event, unlink_if_exists,
}

-- `audited` is whether there is an audit sink.
pub record ReplayRecorder : Type 0 where
  pub session_id : ℕ
  pub path : String
  pub temp_path : String
  pub integrity_key : List ℕ
  pub audited : Bool
  pub closed : Bool
  pub file_closed : Bool

pub record Recording : Type 0 where
  pub recorder : ReplayRecorder
  pub disk : Disk

pub record ReplayCloseResult : Type 0 where
  pub path : String
  pub hmac_hex : String
  pub ended_at : ℕ

unfoldable pub header_value : String → ℕ → ℕ → ℕ → Value
header_value node_name width height timestamp = dict (
    field "version" (int (pos 2)) (
      field "command" (str node_name) (
        field "width" (int (pos width))
          (field "height" (int (pos height)) (field "timestamp" (int (pos timestamp)) end)))))

-- `seconds` is the float of the caller.
unfoldable pub event_value : Value → String → String → Value
event_value seconds stream text = list (item seconds (item (str stream) (item (str text) nil)))

abbrev pub on_disk_result {ℓ} :
    {A : Type ℓ} → ReplayRecorder → Result A × Disk → Result A × Recording
on_disk_result recorder (r, d) = (r, record { recorder = recorder; disk = d })

unfoldable pub on_disk {ℓ} : {A : Type ℓ} → Action Disk A → Action Recording A
on_disk m s = on_disk_result s.recorder (m s.disk)

-- The bytes of the file, which the recorder holds open.
abbrev pub bytes_at : Option (List ℕ) → List ℕ
bytes_at none = []
bytes_at (some bytes) = bytes

unfoldable pub temp_bytes : Recording → List ℕ
temp_bytes s = bytes_at (get s.recorder.temp_path s.disk.files)

unfoldable pub set_closed : Recording → Recording
set_closed s = record { recorder = record s.recorder { closed = true }; disk = s.disk }

unfoldable pub set_file_closed : Recording → Recording
set_file_closed s = record { recorder = record s.recorder { file_closed = true }; disk = s.disk }

unfoldable pub put_file : String → List ℕ → Disk → Disk
put_file path bytes d = record d { files = put path bytes d.files }

unfoldable pub replace_file : Recording → Recording
unfolding temp_bytes
replace_file s = record s {
  disk = record s.disk {
    files = put s.recorder.path (temp_bytes s) (pop s.recorder.temp_path s.disk.files);
  };
}

unfoldable pub failed_event : String → ReplayRecorder → ReplayEvent
failed_event error r = record {
  event_type = replay_write_failed;
  session_id = some r.session_id;
  metadata = field "replay_path" (str r.path) (field "error" (str error) end);
}

module _ (platform : ReplayPlatform) where
  -- The bytes of `_write_line`: the line in UTF-8 and a newline.
  unfoldable pub line_bytes : Value → List ℕ
  line_bytes value = platform.json.dumps value ++ (10 ∷ [])

  unfoldable pub write_line : Value → Action Recording (Unit {0})
  unfolding line_bytes temp_bytes put_file
  write_line value = do
    written ← gets temp_bytes
    raise_if (not (platform.writes written (line_bytes value))) os_error
    modify
        λ s. record s { disk = put_file s.recorder.temp_path (written ++ line_bytes value) s.disk }

  -- `self._file.close()`: the file is closed also where the flush fails.
  unfoldable pub close_open_file : Action Recording (Unit {0})
  unfolding set_file_closed temp_bytes
  close_open_file = do
    modify set_file_closed
    written ← gets temp_bytes
    raise_if (not (platform.flushes written)) os_error

  unfoldable pub close_file : Action Recording (Unit {0})
  unfolding close_open_file
  close_file = do
    file_closed ← gets (λ s. s.recorder.file_closed)
    if file_closed then pure tt else close_open_file

  unfoldable pub fail_open : String → Action Recording (Unit {0})
  unfolding set_closed close_file failed_event on_disk
  fail_open error = do
    modify set_closed
    close_file
    r ← gets (λ s. s.recorder)
    on_disk (write_replay_event platform r.audited (failed_event error r))
    on_disk (unlink_if_exists platform r.temp_path)

  unfoldable pub fail : String → Action Recording (Unit {0})
  unfolding fail_open
  fail error = do
    closed ← gets (λ s. s.recorder.closed)
    if closed then pure tt else fail_open error

  -- `_record`: an `OSError` of the write ends the recording.
  abbrev pub caught_write : Result (Unit {0}) × Recording → Result (Unit {0}) × Recording
  caught_write (ok u, s) = (ok tt, s)
  caught_write (Result.raise os_error, s) =
      (fail platform.os_error_text >> raise (replay_error "replay write failed")) s
  caught_write (Result.raise e, s) = (Result.raise e, s)

  unfoldable pub write_or_fail : Value → Action Recording (Unit {0})
  write_or_fail value s = caught_write (write_line value s)

  unfoldable pub record_event : Value → String → String → Action Recording (Unit {0})
  unfolding write_or_fail event_value
  record_event seconds stream text = do
    closed ← gets (λ s. s.recorder.closed)
    raise_if closed (replay_error "replay is already closed")
    write_or_fail (event_value seconds stream text)

  unfoldable pub record_output : Value → String → Action Recording (Unit {0})
  record_output seconds text = record_event seconds "o" text

  unfoldable pub record_input : Value → String → Action Recording (Unit {0})
  record_input seconds text = record_event seconds "i" text

  unfoldable pub publish : ℕ → Action Recording ReplayCloseResult
  unfolding replace_file temp_bytes
  publish ended_at = do
    bytes ← gets temp_bytes
    raise_if (not (platform.replaces bytes)) os_error
    modify replace_file
    raise_if (not (platform.reads bytes)) os_error
    r ← gets (λ s. s.recorder)
    pure (record {
      path = r.path;
      hmac_hex = platform.hmac_hex r.integrity_key bytes;
      ended_at = ended_at;
    })

  -- `now` is the time that the caller gives, or that of the clock.
  unfoldable pub close : ℕ → Action Recording ReplayCloseResult
  unfolding set_closed temp_bytes close_file publish
  close now = do
    closed ← gets (λ s. s.recorder.closed)
    raise_if closed (replay_error "replay is already closed")
    modify set_closed
    bytes ← gets temp_bytes
    raise_if (not (platform.flushes bytes)) os_error
    raise_if (not (platform.syncs bytes)) os_error
    close_file
    publish now

  -- The file's bytes are read first.
  unfoldable pub verify_replay_hmac : String → List ℕ → String → Action Disk Bool
  verify_replay_hmac path integrity_key expected_hmac = do
    found ← gets (λ d. get path d.files)
    raise_if (is_none found) os_error
    raise_if (not (platform.reads (bytes_at found))) os_error
    pure (platform.hmac_hex integrity_key (bytes_at found) == expected_hmac)
