-- ===== src/Replay/Starting.antt =====
-- ReplayWriter.start: what a recording has when it begins.
use vibe_connect.Base.{
  ℕ, ◌≡◌, ◌≢◌, String, false, some, [], ◌∷◌, refl, Result, ok, raise as failed, os_error,
  replay_error, string_eq, arith, inl, inr, beq_of_ne, eq_self, ap, sym, ◌∙◌, ◌/◌,
}
use vibe_connect.Base.Action.{Action, continue, ◌>>=◌, bind-eq-ok, raise_if, modify, gets, raise}
use vibe_connect.Base.Dict.{get, put, get-put}
use vibe_connect.Tunnel.Heartbeat.{microseconds}
use vibe_connect.Value.{Value}
use vibe_connect.Replay.Storage.{unlink_if_exists, ReplayPlatform, Disk}
use vibe_connect.Replay.Recorder.{
  close_open_file, on_disk, Recording, ReplayRecorder, header_value, put_file,
}
use vibe_connect.Replay.Writer.{
  ReplayWriter, Creation, start, prepare_replay_directory, make_temp, replay_recorder, new_recorder,
  constructed,
}
use vibe_connect.Replay.Log.{IsOpen}
use vibe_connect.Replay.Refinement.Writing.{with_line, with_line-IsOpen, write_line-outcome}

-- A recording that was started: its disk and its recorder.
abbrev pub started : ReplayRecorder → Disk → Recording
started r d = record { recorder = r; disk = d }

recorder_of :
    {r q : ReplayRecorder} {d t : Disk}
    → ◌≡◌ {A = Result ReplayRecorder × Disk} (ok r, d) (ok q, t)
    → r ≡ q
recorder_of e = cc (ap (λ p. p.0) e)

raised_after {ℓ κ} :
    {S : Type ℓ} {A : Type κ} {a : A} (f : Action S A)
    → ((s : S) → (f s).0 ≢ ok a)
    → (p : Result (Unit {0}) × S) → (continue (λ u. f) p).0 ≢ ok a
raised_after f raises (ok u, s) h = raises s h
raised_after f raises (failed x, s) h = cc h

module _ (platform : ReplayPlatform) where
  constructed-failed :
      (s : Recording) {q : ReplayRecorder} → (constructed platform (failed os_error, s)).0 ≢ ok q
  unfolding ◌>>=◌ raise
  constructed-failed s =
      raised_after _
        (λ t.
          raised_after (raise {A = ReplayRecorder} (replay_error "replay file cannot be created"))
            (λ v h. cc h) (on_disk (unlink_if_exists platform s.recorder.temp_path) t))
        (close_open_file platform s)

  -- The header is the only line of a recording that was started.
  replay_recorder-IsOpen :
      (r : ReplayRecorder) (node_name : String) (width height timestamp : ℕ) (d t : Disk)
      → r.temp_path ≢ r.path
      → r.closed ≡ false
      → r.file_closed ≡ false
      → get r.temp_path d.files ≡ some []
      → {q : ReplayRecorder}
      → replay_recorder platform r node_name width height timestamp d ≡ (ok q, t)
      → (q ≡ r)
        × IsOpen platform r.path r.temp_path r.integrity_key
            (get r.path d.files)
            (header_value node_name width height timestamp ∷ [])
            (started q t)
  unfolding replay_recorder with_line ◌>>=◌
  replay_recorder-IsOpen r node_name width height timestamp d t distinct open_recorder open_file
        empty {q} h =
      elim (write_line-outcome platform r.path r.temp_path r.integrity_key distinct
        (get r.path d.files) v [] (started r d) fresh) [
          | inl a ↦ absurd (constructed-failed (started r d) (ap (λ p. p.0) (rw a at h)))
          | inr a ↦
              kept
                (with_line platform r.path r.temp_path r.integrity_key distinct (get r.path d.files)
                  v [] (started r d))
                (with_line-IsOpen platform r.path r.temp_path r.integrity_key distinct
                  (get r.path d.files) v [] (started r d) fresh)
                refl (rw a at h)
        ]
    where
      v : Value
      v = header_value node_name width height timestamp

      fresh :
          IsOpen platform r.path r.temp_path r.integrity_key (get r.path d.files) [] (started r d)
      fresh = record {
        names = record { named = refl; temp_named = refl; keyed = refl };
        open_recorder = open_recorder;
        open_file = open_file;
        held = empty;
        untouched = refl;
      }

      kept :
          {q : ReplayRecorder} {t : Disk} (s : Recording)
          → IsOpen platform r.path r.temp_path r.integrity_key (get r.path d.files) (v ∷ []) s
          → s.recorder ≡ r
          → ◌≡◌ {A = Result ReplayRecorder × Disk} (ok s.recorder, s.disk) (ok q, t)
          → (q ≡ r)
            × IsOpen platform r.path r.temp_path r.integrity_key
                (get r.path d.files)
                (v ∷ [])
                (started q t)
      kept s shown same e =
          (cc (ap (λ p. p.0) e, same), rw (sym (recorder_of e), sym (ap (λ p. p.1) e)) shown)

-- What the calls before the recorder leave.
prepare-files :
    (creation : Creation) (d t : Disk) {u : Unit {0}}
    → prepare_replay_directory creation d ≡ (ok u, t)
    → t.files ≡ d.files
unfolding prepare_replay_directory ◌>>=◌ gets modify raise_if
prepare-files creation d t h = ground arith

make_temp-files :
    (creation : Creation) (d t : Disk) {u : Unit {0}}
    → make_temp creation d ≡ (ok u, t)
    → t.files ≡ put creation.temp_path [] d.files
unfolding make_temp put_file ◌>>=◌ gets modify raise_if
make_temp-files creation d t h = ground arith

made_at_path :
    (creation : Creation) (path : String) (d d1 d2 : Disk)
    → creation.temp_path ≢ path
    → d2.files ≡ put creation.temp_path [] d1.files
    → d1.files ≡ d.files
    → get path d2.files ≡ get path d.files
made_at_path creation path d d1 d2 distinct files kept =
    ap (get path) files
    ∙ get-put creation.temp_path path [] d1.files
    ∙ rw (beq_of_ne creation.temp_path path distinct) (ap (get path) kept)

module _ (platform : ReplayPlatform) (writer : ReplayWriter) (creation : Creation)
    (session_id : ℕ) where
  -- A start that returned leaves an open recording with the header.
  pub start-IsOpen :
      (node_name : String) (width height now : ℕ) (d t : Disk) {r : ReplayRecorder}
      → creation.temp_path ≢ (new_recorder platform writer creation session_id).path
      → start platform writer creation session_id node_name width height now d ≡ (ok r, t)
      → (r ≡ new_recorder platform writer creation session_id)
        × IsOpen platform
            (new_recorder platform writer creation session_id).path
            creation.temp_path
            writer.integrity_key
            (get (new_recorder platform writer creation session_id).path d.files)
            (header_value node_name width height (now / microseconds) ∷ [])
            (started r t)
  unfolding start
  start-IsOpen node_name width height now d t distinct h =
      let (_, d1, first, h1) = bind-eq-ok _ _ h in
      let (_, d2, second, h2) = bind-eq-ok _ _ h1 in
      let r = new_recorder platform writer creation session_id in
      let files = make_temp-files creation d1 d2 second in
      let kept = prepare-files creation d d1 first in
      let (same, shown) =
        replay_recorder-IsOpen platform r node_name width height (now / microseconds) d2 t distinct
          refl refl (rw files (simp (get-put, eq_self creation.temp_path))) h2 in
      (same, rw (← made_at_path creation r.path d d1 d2 distinct files kept) shown)
