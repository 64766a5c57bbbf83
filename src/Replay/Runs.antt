-- ===== src/Replay/Runs.antt =====
-- A recording from its start through any calls.
use vibe_connect.Base.{ℕ, ◌≡◌, ◌≢◌, String, Option, List, [], ◌∷◌, Result, ok, string_eq, ◌/◌}
use vibe_connect.Base.Dict.{get}
use vibe_connect.Tunnel.Heartbeat.{microseconds}
use vibe_connect.Replay.Storage.{ReplayPlatform, Disk}
use vibe_connect.Replay.Recorder.{Recording, ReplayRecorder, header_value}
use vibe_connect.Replay.Writer.{ReplayWriter, Creation, start, new_recorder}
use vibe_connect.Replay.Log.{Call, Log, recording, call, Step, Shows}
use vibe_connect.Replay.Refinement.{call-Refines}
use vibe_connect.Replay.Starting.{started, start-IsOpen}

-- The calls in order; the caller goes on after one that raised.
abbrev pub run_calls : ReplayPlatform → List Call → Recording → Recording
run_calls platform [] s = s
run_calls platform (c ∷ cs) s = run_calls platform cs (call platform c s).1

-- What each of the calls returned or raised.
abbrev pub answers : ReplayPlatform → List Call → Recording → List (Result (Unit {0}))
answers platform [] s = []
answers platform (c ∷ cs) s = (call platform c s).0 ∷ answers platform cs (call platform c s).1

-- The log through the calls, with the answer that each step allows.
pub data Run : Log → List Call → List (Result (Unit {0})) → Log → Type 0 where
  here : (l : Log) → Run l [] [] l
  there :
      {l m n : Log} {cs : List Call} {rs : List (Result (Unit {0}))} (c : Call)
      (r : Result (Unit {0}))
      → Step l c r m
      → Run m cs rs n
      → Run l (c ∷ cs) (r ∷ rs) n

module _ (platform : ReplayPlatform) (path temp_path : String) (key : List ℕ)
    (distinct : temp_path ≢ path) (before : Option (List ℕ)) where
  pub run_calls-Run :
      (cs : List Call) (l : Log) (s : Recording)
      → Shows platform path temp_path key before l s
      → (m : Log) × Run l cs (answers platform cs s) m
        × Shows platform path temp_path key before m (run_calls platform cs s)
  run_calls-Run [] l s h = (l, here l, h)
  run_calls-Run (c ∷ cs) l s h =
      let (m, step, shown) = call-Refines platform path temp_path key distinct before c l s h in
      let (n, run, last) = run_calls-Run cs m (call platform c s).1 shown in
      (n, there c (call platform c s).0 step run, last)

module _ (platform : ReplayPlatform) (writer : ReplayWriter) (creation : Creation)
    (session_id : ℕ) where
  -- What a recording shows after its start and the given calls with their answers.
  abbrev pub IsRecordingOf :
      Disk → String → ℕ → ℕ → ℕ → List Call → List (Result (Unit {0})) → Recording → Type 0
  IsRecordingOf d node_name width height now cs rs s =
      let r = new_recorder platform writer creation session_id in
      (l : Log) × Run (recording (header_value node_name width height (now / microseconds) ∷ [])) cs
        rs l
      × Shows platform r.path r.temp_path r.integrity_key (get r.path d.files) l s

  -- A recording that ReplayWriter.start began under a temporary name other than the final one is,
  -- after any calls of record_output, record_input, fail and close in any order, where any call of
  -- the file system may have failed, what a run of the log allows that gives the very answers of
  -- these calls, a return or an exception each. A call that returns added its one whole line, gave
  -- the recording up (fail), or published all lines under the final name (close); a call that raises
  -- before the end lost the recording, or is a close that published and could not read the file
  -- back. After the end record_output, record_input and close raise that the replay is already
  -- closed, fail returns, and the log stays. What stood under the final name before the start stays
  -- there until all lines take its place.
  pub recording_refines_log :
      (node_name : String) (width height now : ℕ) (d t : Disk) {r : ReplayRecorder} (cs : List Call)
      → creation.temp_path ≢ (new_recorder platform writer creation session_id).path
      → start platform writer creation session_id node_name width height now d ≡ (ok r, t)
      → IsRecordingOf d node_name width height now cs
          (answers platform cs (started r t))
          (run_calls platform cs (started r t))
  recording_refines_log node_name width height now d t cs distinct h =
      let q = new_recorder platform writer creation session_id in
      let (same, shown) =
        start-IsOpen platform writer creation session_id node_name width height now d t distinct
          h in
      run_calls-Run platform q.path q.temp_path q.integrity_key distinct (get q.path d.files) cs
        (recording (header_value node_name width height (now / microseconds) ∷ [])) (started _ t)
        shown
