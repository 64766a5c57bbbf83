-- ===== src/Replay/Refinement.antt =====
-- ReplayRecorder refines the log: every call makes a step of it.
pub mod Failing
pub mod Writing
pub mod Closing
use vibe_connect.Base.{
  ℕ, ◌≡◌, ◌≢◌, ◌⊎◌, ◌++◌, String, Bool, true, false, Option, none, some, List, [], ◌∷◌, refl,
  Result, ok, raise as failed, Error, os_error, replay_error, if◌then◌else◌, string_eq, arith,
  Bool-cases, inl, inr, beq_of_ne, eq_self, not, ◌==◌, ap, sym, ◌∙◌, append-nil, append_assoc,
  is_none,
}
use vibe_connect.Base.Action.{
  continue, Action, pure, raise, lift, raise_if, modify, gets, ◌>>=◌, ◌>>◌,
}
use vibe_connect.Base.Action.Invariants.{Preserves, preserves_continue, bind-Preserves}
use vibe_connect.Base.Dict.{Dict, get, put, pop, dict_laws, get-put, get-pop}
use vibe_connect.Value.{Value}
use vibe_connect.Replay.Storage.{
  ReplayPlatform, ReplayEvent, Disk, write_replay_event, unlink, unlink_if_exists,
}
use vibe_connect.Replay.Recorder.{
  Recording, ReplayRecorder, set_closed, set_file_closed, temp_bytes, put_file, on_disk, line_bytes,
  write_line, close_open_file, close_file, fail_open, fail, failed_event, write_or_fail,
  event_value, record_event, record_output, record_input, replace_file, publish, close,
  ReplayCloseResult, caught_write,
}
use vibe_connect.Replay.Log.{
  Call, output, input, failing, closing, Log, recording, published, discarded, call, refusal,
  without_result, Step, lines, IsNamed, IsOpen, IsEnded, Shows, added_output, added_input, lost,
  gave_up, finished, unread, ended_published, ended_discarded,
}
use vibe_connect.Replay.Refinement.Failing.{fail-Ended}
use vibe_connect.Replay.Refinement.Writing.{IsRecorded, record_event-IsRecorded}
use vibe_connect.Replay.Refinement.Closing.{IsClosed, close-IsClosed}

raise_inj {ℓ} : {A : Type ℓ} {e x : Error} → ◌≡◌ {A = Result A} (failed e) (failed x) → e ≡ x
raise_inj h = cc h

-- Calls after the end change nothing.
pub call_ended :
    (platform : ReplayPlatform) (c : Call) (s : Recording)
    → s.recorder.closed ≡ true
    → call platform c s ≡ (refusal c, s)
unfolding record_output record_input record_event fail close ◌>>=◌ gets raise_if pure
call_ended platform (output seconds text) s h = simp h
call_ended platform (input seconds text) s h = simp h
call_ended platform (failing error) s h = simp h
call_ended platform (closing now) s h = simp h

module _ (platform : ReplayPlatform) (path temp_path : String) (key : List ℕ)
    (distinct : temp_path ≢ path) (before : Option (List ℕ)) where
  -- A step from the log to one that the recorder shows.
  abbrev pub Refines : Log → Call → Result (Unit {0}) × Recording → Type 0
  Refines l c (r, s) = (m : Log) × Step l c r m × Shows platform path temp_path key before m s

  failing-Refines :
      (vs : List Value) (error : String) (p : Result (Unit {0}) × Recording)
      → IsEnded path temp_path key before p.1
      → Refines (recording vs) (failing error) p
  failing-Refines vs error (ok tt, s) h = (discarded, gave_up vs error, h)
  failing-Refines vs error (failed e, s) h = (discarded, lost vs (failing error) e, h)

  closing-Refines :
      (vs : List Value) (now : ℕ) (p : Result ReplayCloseResult × Recording)
      → IsClosed platform path temp_path key distinct before vs now p
      → Refines (recording vs) (closing now) (without_result p)
  closing-Refines vs now (ok a, s) (inl h) = (published vs, finished vs now, h.2)
  closing-Refines vs now (failed e, s) (inl h) = absurd (cc h.0)
  closing-Refines vs now (ok a, s) (inr h) = absurd (cc h.0)
  closing-Refines vs now (failed e, s) (inr (h, inl k)) = (discarded, lost vs (closing now) e, k)
  closing-Refines vs now (failed e, s) (inr (h, inr k)) =
      rw (raise_inj h) (published vs, unread vs now, k)

  output-Refines :
      (vs : List Value) (seconds : Value) (text : String) (p : Result (Unit {0}) × Recording)
      → IsRecorded platform path temp_path key distinct before (event_value seconds "o" text) vs p
      → Refines (recording vs) (output seconds text) p
  output-Refines vs seconds text (r, s) (inl h) = rw h.0 (_, added_output vs seconds text, h.1)
  output-Refines vs seconds text (r, s) (inr (e, h, k)) =
      rw h (discarded, lost vs (output seconds text) e, k)

  input-Refines :
      (vs : List Value) (seconds : Value) (text : String) (p : Result (Unit {0}) × Recording)
      → IsRecorded platform path temp_path key distinct before (event_value seconds "i" text) vs p
      → Refines (recording vs) (input seconds text) p
  input-Refines vs seconds text (r, s) (inl h) = rw h.0 (_, added_input vs seconds text, h.1)
  input-Refines vs seconds text (r, s) (inr (e, h, k)) =
      rw h (discarded, lost vs (input seconds text) e, k)

  open-Refines :
      (c : Call) (vs : List Value) (s : Recording)
      → IsOpen platform path temp_path key before vs s
      → Refines (recording vs) c (call platform c s)
  unfolding record_output record_input
  open-Refines (output seconds text) vs s h =
      output-Refines vs seconds text _ (
        record_event-IsRecorded platform path temp_path key distinct before seconds "o" text vs s h)
  open-Refines (input seconds text) vs s h =
      input-Refines vs seconds text _ (
        record_event-IsRecorded platform path temp_path key distinct before seconds "i" text vs s h)
  open-Refines (failing error) vs s h =
      failing-Refines vs error _
        (fail-Ended platform path temp_path key distinct before error vs s h)
  open-Refines (closing now) vs s h =
      closing-Refines vs now _
        (close-IsClosed platform path temp_path key distinct before now vs s h)

  pub call-Refines :
      (c : Call) (l : Log) (s : Recording)
      → Shows platform path temp_path key before l s
      → Refines l c (call platform c s)
  call-Refines c (recording vs) s h = open-Refines c vs s h
  call-Refines c (published vs) s h =
      rw (call_ended platform c s h.ended) (published vs, ended_published vs c, h)
  call-Refines c discarded s h =
      rw (call_ended platform c s h.ended) (discarded, ended_discarded c, h)
