-- ===== src/Replay/Refinement/Failing.antt =====
-- ReplayRecorder.fail: what stands under the final name stays.
use vibe_connect.Base.{ℕ, ◌≡◌, ◌≢◌, String, Bool, Option, List, refl, string_eq, arith, beq_of_ne}
use vibe_connect.Base.Action.{Action, pure, raise_if, modify, gets, ◌>>=◌, ◌>>◌}
use vibe_connect.Base.Action.Invariants.{Preserves, preserves_continue, bind-Preserves}
use vibe_connect.Base.Dict.{get, get-pop}
use vibe_connect.Value.{Value}
use vibe_connect.Replay.Storage.{
  ReplayPlatform, ReplayEvent, Disk, write_replay_event, unlink, unlink_if_exists,
}
use vibe_connect.Replay.Recorder.{
  Recording, ReplayRecorder, set_closed, set_file_closed, on_disk, close_open_file, close_file,
  fail_open, fail, failed_event,
}
use vibe_connect.Replay.Log.{IsOpen, IsEnded}

module _ (platform : ReplayPlatform) (path temp_path : String) (key : List ℕ)
    (distinct : temp_path ≢ path) where
  module _ (at_path : Option (List ℕ)) where
    on_disk-Ended :
        (m : Action Disk (Unit {0}))
        → Preserves (λ d. get path d.files ≡ at_path) m
        → Preserves (IsEnded path temp_path key at_path) (on_disk m)
    unfolding on_disk
    on_disk-Ended m h = record {
      from = λ s ended. record {
        names = record {
          named = ended.names.named;
          temp_named = ended.names.temp_named;
          keyed = ended.names.keyed;
        };
        ended = ended.ended;
        final = h.from s.disk ended.final;
      };
    }

    unlink_if_exists-at_path :
        Preserves (λ d. get path d.files ≡ at_path) (unlink_if_exists platform temp_path)
    unfolding unlink_if_exists unlink ◌>>=◌ gets modify raise_if pure
    unlink_if_exists-at_path = record {
      from = λ d h.
          ground (arith, get-pop temp_path path d.files, beq_of_ne temp_path path distinct, h);
    }

    write_replay_event-at_path :
        (audited : Bool) (event : ReplayEvent)
        → Preserves (λ d. get path d.files ≡ at_path) (write_replay_event platform audited event)
    unfolding write_replay_event ◌>>=◌ gets modify raise_if pure
    write_replay_event-at_path audited event = record { from = λ d h. ground arith }

    close_file-Ended : Preserves (IsEnded path temp_path key at_path) (close_file platform)
    unfolding close_file close_open_file set_file_closed ◌>>=◌ gets modify raise_if pure
    close_file-Ended = record { from = λ s h. ground arith }

    end_on_disk :
        (error : String) (r : ReplayRecorder)
        → r.temp_path ≡ temp_path
        → Preserves (IsEnded path temp_path key at_path) (
            on_disk (write_replay_event platform r.audited (failed_event error r))
            >> on_disk (unlink_if_exists platform r.temp_path))
    unfolding failed_event
    end_on_disk error r h = rw h (
        bind-Preserves _ _ _
          (on_disk-Ended _ (write_replay_event-at_path r.audited (failed_event error r)))
          (λ u. on_disk-Ended _ unlink_if_exists-at_path))

    end_file :
        (error : String)
        → Preserves (IsEnded path temp_path key at_path) (
            gets (λ s. s.recorder) >>= λ r.
            on_disk (write_replay_event platform r.audited (failed_event error r))
            >> on_disk (unlink_if_exists platform r.temp_path))
    unfolding ◌>>=◌ gets
    end_file error = record {
      from = λ s h. (end_on_disk error s.recorder h.names.temp_named).from s h;
    }

    pub fail-Ended :
        (error : String) (vs : List Value) (s : Recording)
        → IsOpen platform path temp_path key at_path vs s
        → IsEnded path temp_path key at_path (fail platform error s).1
    unfolding fail fail_open set_closed ◌>>=◌ gets modify
    fail-Ended error vs s h = rw h.open_recorder (
        preserves_continue (IsEnded path temp_path key at_path) _ (λ u. end_file error) _
          (close_file-Ended.from (set_closed s) (record {
            names = record {
              named = h.names.named;
              temp_named = h.names.temp_named;
              keyed = h.names.keyed;
            };
            ended = refl;
            final = h.untouched;
          })))
