-- ===== src/Replay/Refinement/Writing.antt =====
-- ReplayRecorder._record: one more line, or none.
use vibe_connect.Base.{
  ℕ, ◌≡◌, ◌≢◌, ◌⊎◌, ◌++◌, String, Option, List, [], ◌∷◌, refl, Result, ok, raise as failed, Error,
  os_error, replay_error, string_eq, Bool-cases, inl, inr, beq_of_ne, eq_self, ap, sym, ◌∙◌,
  append-nil, append_assoc,
}
use vibe_connect.Base.Action.{continue, raise, raise_if, modify, gets, ◌>>=◌}
use vibe_connect.Base.Dict.{get-put}
use vibe_connect.Value.{Value}
use vibe_connect.Replay.Storage.{ReplayPlatform}
use vibe_connect.Replay.Recorder.{
  Recording, temp_bytes, put_file, line_bytes, write_line, write_or_fail, event_value, record_event,
}
use vibe_connect.Replay.Log.{lines, IsOpen, IsEnded}
use vibe_connect.Replay.Refinement.Failing.{fail-Ended}

module _ (platform : ReplayPlatform) (path temp_path : String) (key : List ℕ)
    (distinct : temp_path ≢ path) where
  lines-append :
      (vs : List Value) (v : Value)
      → lines platform (vs ++ (v ∷ [])) ≡ lines platform vs ++ line_bytes platform v
  lines-append [] v = append-nil (line_bytes platform v)
  lines-append (w ∷ vs) v =
      ap (λ t. line_bytes platform w ++ t) (lines-append vs v)
      ∙ sym (append_assoc (line_bytes platform w) (lines platform vs) (line_bytes platform v))

  module _ (before : Option (List ℕ)) where
    unfoldable pub with_line : Value → List Value → Recording → Recording
    with_line v vs s = record s {
      disk = put_file s.recorder.temp_path (lines platform vs ++ line_bytes platform v) s.disk;
    }

    pub with_line-IsOpen :
        (v : Value) (vs : List Value) (s : Recording)
        → IsOpen platform path temp_path key before vs s
        → IsOpen platform path temp_path key before (vs ++ (v ∷ [])) (with_line v vs s)
    unfolding with_line put_file
    with_line-IsOpen v vs s h = record {
      names = record {
        named = h.names.named;
        temp_named = h.names.temp_named;
        keyed = h.names.keyed;
      };
      open_recorder = h.open_recorder;
      open_file = h.open_file;
      held = simp (get-put, h.names.temp_named, eq_self temp_path, lines-append vs v);
      untouched =
          simp (get-put, h.names.temp_named, beq_of_ne temp_path path distinct, h.untouched);
    }

    pub write_line-outcome :
        (v : Value) (vs : List Value) (s : Recording)
        → IsOpen platform path temp_path key before vs s
        → (write_line platform v s ≡ (failed os_error, s))
          ⊎ (write_line platform v s ≡ (ok tt, with_line v vs s))
    unfolding write_line temp_bytes with_line ◌>>=◌ gets modify raise_if
    write_line-outcome v vs s h =
        rw (h.names.temp_named, h.held)
          (elim (Bool-cases (platform.writes (lines platform vs) (line_bytes platform v))) [
            | inl w ↦ inr (rw w refl)
            | inr w ↦ inl (rw w refl)
          ])

    -- A line was added whole, or the recording is lost.
    abbrev pub IsRecorded : Value → List Value → Result (Unit {0}) × Recording → Type 0
    IsRecorded v vs (r, t) =
        ((r ≡ ok tt) × IsOpen platform path temp_path key before (vs ++ (v ∷ [])) t)
        ⊎ ((e : Error) × (r ≡ failed e) × IsEnded path temp_path key before t)

    lost_write :
        (v : Value) (vs : List Value) (p : Result (Unit {0}) × Recording)
        → IsEnded path temp_path key before p.1
        → IsRecorded v vs (continue (λ u. raise (replay_error "replay write failed")) p)
    unfolding raise
    lost_write v vs (ok u, t) h = inr (replay_error "replay write failed", refl, h)
    lost_write v vs (failed e, t) h = inr (e, refl, h)

    write_or_fail-IsRecorded :
        (v : Value) (vs : List Value) (s : Recording)
        → IsOpen platform path temp_path key before vs s
        → IsRecorded v vs (write_or_fail platform v s)
    unfolding write_or_fail ◌>>=◌
    write_or_fail-IsRecorded v vs s h = elim (write_line-outcome v vs s h) [
      | inl w ↦ rw w (
          lost_write v vs _
            (fail-Ended platform path temp_path key distinct before platform.os_error_text vs s h))
      | inr w ↦ rw w (inl (refl, with_line-IsOpen v vs s h))
    ]

    pub record_event-IsRecorded :
        (seconds : Value) (stream text : String) (vs : List Value) (s : Recording)
        → IsOpen platform path temp_path key before vs s
        → IsRecorded
            (event_value seconds stream text)
            vs
            (record_event platform seconds stream text s)
    unfolding record_event ◌>>=◌ gets raise_if
    record_event-IsRecorded seconds stream text vs s h =
        simp h.open_recorder (write_or_fail-IsRecorded (event_value seconds stream text) vs s h)
