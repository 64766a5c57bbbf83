-- ===== src/Replay/Log.antt =====
-- The abstract view of a recording: a log of lines that is published whole or not at all.
use vibe_connect.Base.{
  ℕ, ◌≡◌, ◌++◌, String, true, false, Option, some, List, [], ◌∷◌, Result, ok, raise as failed,
  Error, os_error, replay_error, string_eq,
}
use vibe_connect.Base.Action.{Action}
use vibe_connect.Base.Dict.{get}
use vibe_connect.Value.{Value}
use vibe_connect.Replay.Storage.{ReplayPlatform}
use vibe_connect.Replay.Recorder.{
  Recording, ReplayCloseResult, line_bytes, fail, event_value, record_output, record_input, close,
}

-- The calls on a recorder, and its log: the lines that it holds, that it published, or none.
pub data Call : Type 0 where
  output input : Value → String → Call
  failing : String → Call
  closing : ℕ → Call

pub data Log : Type 0 where
  recording published : List Value → Log
  discarded : Log

abbrev pub without_result {ℓ} : {A : Type ℓ} {S : Type 0} → Result A × S → Result (Unit {0}) × S
without_result (ok a, s) = (ok tt, s)
without_result (failed e, s) = (failed e, s)

abbrev pub call : ReplayPlatform → Call → Action Recording (Unit {0})
call platform (output seconds text) = record_output platform seconds text
call platform (input seconds text) = record_input platform seconds text
call platform (failing error) = fail platform error
call platform (closing now) = λ s. without_result (close platform now s)

-- What the calls answer once the recording has ended.
abbrev pub refusal : Call → Result (Unit {0})
refusal (output seconds text) = failed (replay_error "replay is already closed")
refusal (input seconds text) = failed (replay_error "replay is already closed")
refusal (failing error) = ok tt
refusal (closing now) = failed (replay_error "replay is already closed")

-- What a call may do to the log: a line is added whole or the recording is lost; a recording that
-- ended is never changed.
pub data Step : Log → Call → Result (Unit {0}) → Log → Type 0 where
  added_output :
      (vs : List Value) (seconds : Value) (text : String)
      → Step
          (recording vs)
          (output seconds text)
          (ok tt)
          (recording (vs ++ (event_value seconds "o" text ∷ [])))
  added_input :
      (vs : List Value) (seconds : Value) (text : String)
      → Step
          (recording vs)
          (input seconds text)
          (ok tt)
          (recording (vs ++ (event_value seconds "i" text ∷ [])))
  lost : (vs : List Value) (c : Call) (e : Error) → Step (recording vs) c (failed e) discarded
  gave_up :
      (vs : List Value) (error : String) → Step (recording vs) (failing error) (ok tt) discarded
  finished : (vs : List Value) (now : ℕ) → Step (recording vs) (closing now) (ok tt) (published vs)
  unread :
      (vs : List Value) (now : ℕ)
      → Step (recording vs) (closing now) (failed os_error) (published vs)
  ended_published : (vs : List Value) (c : Call) → Step (published vs) c (refusal c) (published vs)
  ended_discarded : (c : Call) → Step discarded c (refusal c) discarded

abbrev pub lines : ReplayPlatform → List Value → List ℕ
lines platform [] = []
lines platform (v ∷ vs) = line_bytes platform v ++ lines platform vs

-- What `close` returns where it published the lines.
abbrev pub published_result : ReplayPlatform → String → List ℕ → List Value → ℕ → ReplayCloseResult
published_result platform path key vs now = record {
  path = path;
  hmac_hex = platform.hmac_hex key (lines platform vs);
  ended_at = now;
}

-- A recorder under its two names, with its key.
pub record IsNamed (path temp_path : String) (key : List ℕ) (s : Recording) : Type 0 where
  pub named : s.recorder.path ≡ path
  pub temp_named : s.recorder.temp_path ≡ temp_path
  pub keyed : s.recorder.integrity_key ≡ key

pub record IsOpen (platform : ReplayPlatform) (path temp_path : String) (key : List ℕ)
    (before : Option (List ℕ)) (vs : List Value) (s : Recording) : Type 0 where
  pub names : IsNamed path temp_path key s
  pub open_recorder : s.recorder.closed ≡ false
  pub open_file : s.recorder.file_closed ≡ false
  pub held : get temp_path s.disk.files ≡ some (lines platform vs)
  pub untouched : get path s.disk.files ≡ before

pub record IsEnded (path temp_path : String) (key : List ℕ) (at_path : Option (List ℕ))
    (s : Recording) : Type 0 where
  pub names : IsNamed path temp_path key s
  pub ended : s.recorder.closed ≡ true
  pub final : get path s.disk.files ≡ at_path

-- The recorder and its files show the log; `before` is what stood under the name at the start.
abbrev pub Shows :
    ReplayPlatform → String → String → List ℕ → Option (List ℕ) → Log → Recording → Type 0
Shows platform path temp_path key before (recording vs) s =
    IsOpen platform path temp_path key before vs s
Shows platform path temp_path key before (published vs) s =
    IsEnded path temp_path key (some (lines platform vs)) s
Shows platform path temp_path key before discarded s = IsEnded path temp_path key before s
