-- ===== src/Tests/Replays.antt =====
-- Recordings at concrete calls.
use vibe_connect.Base.{
  nat_eq, ◌-◌, All, ◌*◌, ◌/◌, ◌==◌, if◌then◌else◌, ℕ, ◌≡◌, ◌≢◌, true, false, Bool, String, Option,
  none, some, List, [], ◌∷◌, refl, ok, raise, contains, map, ltb, ◌++◌, length, leb, ne_of_beq,
  string_eq, replay_error,
}
use vibe_connect.Base.Dict.{get}
use vibe_connect.Tunnel.Heartbeat.{microseconds}
use vibe_connect.Value.{Value, Json, list, dict, real, str, int, bool, null, secret}
use vibe_connect.Replay.Storage.{ReplayPlatform, Disk}
use vibe_connect.Replay.Recorder.{
  verify_replay_hmac, ReplayRecorder, Recording, header_value, close,
}
use vibe_connect.Replay.Writer.{ReplayWriter, Creation, start, new_recorder}
use vibe_connect.Replay.Expiry.{expired_files, expired_paths}
use vibe_connect.Replay.Expired.{IsPruned, prune_replays-IsSwept}
use vibe_connect.Replay.Pruning.{CastFile, ReplayArchive, prune_replays}
use vibe_connect.Replay.Log.{recording, call, Call, output, input, failing, closing}
use vibe_connect.Replay.Starting.{started}
use vibe_connect.Replay.Runs.{Run, run_calls, IsRecordingOf, recording_refines_log}
use vibe_connect.Replay.Published.{read_lines, close-verifies}

abbrev pub first_byte : Value → ℕ
first_byte (list items) = 91
first_byte (dict fields) = 123
first_byte _ = 34

abbrev pub line_json : Json
line_json = record { dumps = λ v. first_byte v ∷ []; loads = λ bytes. none }

plain_lines : (v : Value) → contains (line_json.dumps v) 10 ≡ false
unfolding contains
plain_lines (list items) = refl
plain_lines (dict fields) = refl
plain_lines (str text) = refl
plain_lines (int n) = refl
plain_lines (bool b) = refl
plain_lines null = refl
plain_lines real = refl
plain_lines secret = refl

-- A disk on which a file has room for three lines.
abbrev pub replay_platform : ReplayPlatform
replay_platform = record {
  json = line_json;
  hmac_hex = λ key bytes. "abcd";
  os_error_text = "No space left on device";
  uuid_text = λ n. "7";
  uuid_of = λ stem. if stem == "notes" then none else some 7;
  in_directory = λ name. name;
  writes = λ written more. ltb (length written) 5;
  flushes = λ bytes. true;
  syncs = λ bytes. true;
  replaces = λ bytes. true;
  reads = λ bytes. true;
  unlinks = λ path. true;
  accepts = λ events. true;
}

abbrev pub replay_writer_7 : ReplayWriter
replay_writer_7 = record { integrity_key = 1 ∷ 2 ∷ []; audited = true }

abbrev pub creation : Creation
creation = record {
  makes_directory = true;
  sets_directory_mode = true;
  mode_after = λ mode. 448;
  makes_temp = true;
  sets_temp_mode = true;
  opens_temp = true;
  temp_path = ".7.x.tmp";
}

abbrev pub empty_disk : Disk
empty_disk = record { mode = 0; files = []; events = [] }

abbrev pub started_disk : Disk
started_disk = record { mode = 448; files = (".7.x.tmp", 123 ∷ 10 ∷ []) ∷ []; events = [] }

abbrev pub recorder_7 : ReplayRecorder
recorder_7 = record {
  session_id = 7;
  path = "7.cast";
  temp_path = ".7.x.tmp";
  integrity_key = 1 ∷ 2 ∷ [];
  audited = true;
  closed = false;
  file_closed = false;
}

pub started_7 :
    start replay_platform replay_writer_7 creation 7 "node" 80 24 1000000 empty_disk
    ≡ (ok recorder_7, started_disk)
unfolding start vibe_connect.Base.Action.◌>>=◌ get vibe_connect.Base.Dict.put
started_7 = refl

pub other_name : ◌≢◌ {A = String} ".7.x.tmp" "7.cast"
other_name = ne_of_beq ".7.x.tmp" "7.cast" refl

abbrev two_lines : List Call
two_lines = output real "hello" ∷ input real "ls" ∷ []

-- The third line does not fit.
abbrev too_many : List Call
too_many = output real "hello" ∷ input real "ls" ∷ output real "files" ∷ closing 5 ∷ []

recording_refines_log_example :
    IsRecordingOf replay_platform replay_writer_7 creation 7 empty_disk "node" 80 24 1000000
      too_many
      (ok tt
        ∷ ok tt
        ∷ raise (replay_error "replay write failed")
        ∷ raise (replay_error "replay is already closed")
        ∷ [])
      (run_calls replay_platform too_many (started recorder_7 started_disk))
unfolding vibe_connect.Text.append vibe_connect.Replay.Recorder.record_output
    vibe_connect.Replay.Recorder.record_input close vibe_connect.Replay.Recorder.record_event
    vibe_connect.Base.Action.◌>>=◌ vibe_connect.Replay.Recorder.write_line get
    vibe_connect.Base.Dict.put vibe_connect.Replay.Recorder.fail
    vibe_connect.Replay.Storage.write_replay_event vibe_connect.Replay.Storage.unlink_if_exists
recording_refines_log_example =
    recording_refines_log replay_platform replay_writer_7 creation 7 "node" 80 24 1000000 empty_disk
      started_disk too_many other_name started_7

given_up : (run_calls replay_platform too_many (started recorder_7 started_disk)).disk.files ≡ []
unfolding close vibe_connect.Base.Action.◌>>=◌ vibe_connect.Replay.Recorder.record_output
    vibe_connect.Replay.Recorder.record_event vibe_connect.Replay.Recorder.record_input
    vibe_connect.Replay.Recorder.write_line get vibe_connect.Base.Dict.put
    vibe_connect.Replay.Recorder.fail vibe_connect.Replay.Storage.write_replay_event
    vibe_connect.Replay.Storage.unlink_if_exists vibe_connect.Base.Dict.pop
given_up = refl

abbrev two_published : Disk
two_published = record {
  mode = 448;
  files = ("7.cast", 123 ∷ 10 ∷ 91 ∷ 10 ∷ 91 ∷ 10 ∷ []) ∷ [];
  events = [];
}

two_closed :
    close replay_platform 9 (run_calls replay_platform two_lines (started recorder_7 started_disk))
    ≡ (
      ok (record { path = "7.cast"; hmac_hex = "abcd"; ended_at = 9 }),
      record {
        recorder = record recorder_7 { closed = true; file_closed = true };
        disk = two_published;
      },
    )
unfolding close vibe_connect.Base.Action.◌>>=◌ vibe_connect.Replay.Recorder.record_input
    vibe_connect.Replay.Recorder.record_event vibe_connect.Replay.Recorder.record_output
    vibe_connect.Replay.Recorder.write_line get vibe_connect.Base.Dict.put
    vibe_connect.Base.Dict.pop
two_closed = refl

close-verifies_example :
    (vs : List Value) × (bytes : List ℕ) × Run
      (recording (header_value "node" 80 24 (1000000 / microseconds) ∷ []))
      two_lines
      (ok tt ∷ ok tt ∷ [])
      (recording vs)
    × ◌≡◌ {A = String} "7.cast" (new_recorder replay_platform replay_writer_7 creation 7).path
    × (get "7.cast" two_published.files ≡ some bytes)
    × (read_lines [] bytes ≡ map line_json.dumps vs)
    × (verify_replay_hmac replay_platform "7.cast" (1 ∷ 2 ∷ []) "abcd" two_published
        ≡ (ok true, two_published))
    × (call replay_platform (failing "late") (record {
      recorder = record recorder_7 { closed = true; file_closed = true };
      disk = two_published;
    })
        ≡ (
          ok tt,
          record {
            recorder = record recorder_7 { closed = true; file_closed = true };
            disk = two_published;
          },
        ))
unfolding vibe_connect.Text.append vibe_connect.Replay.Recorder.record_output
    vibe_connect.Replay.Recorder.record_input vibe_connect.Replay.Recorder.record_event
    vibe_connect.Base.Action.◌>>=◌ vibe_connect.Replay.Recorder.write_line get
    vibe_connect.Base.Dict.put
close-verifies_example =
    close-verifies replay_platform replay_writer_7 creation 7 "node" 80 24 1000000 9 empty_disk
      started_disk two_lines (failing "late") plain_lines other_name started_7 two_closed

abbrev archive : ReplayArchive
archive = record {
  disk = record {
    mode = 448;
    files = ("a.cast", 1 ∷ []) ∷ ("b.cast", 2 ∷ []) ∷ ("notes.cast", 3 ∷ []) ∷ [];
    events = [];
  };
  cleared = [];
}

-- Days after the epoch: `a` is old, `b` is not.
abbrev listed : List CastFile
listed =
    record { path = "a.cast"; stem = "a"; modified = 1 }
    ∷ record { path = "b.cast"; stem = "b"; modified = 86_400_000_000 * 9 }
    ∷ []

a_pruned :
    (prune_replays replay_platform
      (λ cleared id. true)
      listed
      5
      true
      (86_400_000_000 * 10)
      archive).0
    ≡ ok ("a.cast" ∷ [])
unfolding prune_replays vibe_connect.Base.Action.◌>>=◌ vibe_connect.Replay.Pruning.prune_file
a_pruned = refl

prune_replays-IsSwept_example :
    let cutoff = 86_400_000_000 * 10 - 5 * 24 * 60 * 60 * microseconds in
    let p =
      prune_replays replay_platform
        (λ cleared id. true)
        listed
        5
        true
        (86_400_000_000 * 10)
        archive in
    ((path : String)
      → contains (expired_paths cutoff listed) path ≡ false
      → get path p.1.disk.files ≡ get path archive.disk.files)
    × ((pruned : List String)
        → p.0 ≡ ok pruned
        → (ltb 5 1 ≡ false)
          × (pruned ≡ expired_paths cutoff listed)
          × All (IsPruned replay_platform (λ cleared id. true) p.1) (expired_files cutoff listed))
prune_replays-IsSwept_example =
    prune_replays-IsSwept replay_platform (λ cleared id. true) listed 5 true (86_400_000_000 * 10)
      archive

-- A full disk, where the flush of `close` fails like the write: the temporary file stays, and
-- nothing is audited.
abbrev full_platform : ReplayPlatform
full_platform = record replay_platform {
  writes = λ written more. ltb (length written) 1;
  flushes = λ bytes. false;
}

left_over :
    (run_calls full_platform two_lines (started recorder_7 started_disk)).disk ≡ started_disk
unfolding vibe_connect.Replay.Recorder.record_input vibe_connect.Replay.Recorder.record_event
    vibe_connect.Base.Action.◌>>=◌ vibe_connect.Replay.Recorder.record_output
    vibe_connect.Replay.Recorder.write_line get vibe_connect.Replay.Recorder.fail
left_over = refl
