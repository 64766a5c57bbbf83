-- ===== src/Replay/Published.antt =====
-- What ReplayRecorder.close published, as verify_replay_hmac and a reader of lines see it.
use vibe_connect.Base.{
  ℕ, ◌≡◌, ◌≢◌, ◌++◌, ◌/◌, String, true, false, Option, some, List, [], ◌∷◌, map, Error, refl, ap,
  sym, ◌∙◌, append-nil, append_assoc, Result, ok, raise as failed, inl, inr, ◌==◌, nat_eq,
  string_eq, eq_self, contains, if◌then◌else◌, arith,
}
use vibe_connect.Base.Action.{◌>>=◌, gets, raise_if, pure}
use vibe_connect.Base.Dict.{get}
use vibe_connect.Tunnel.Heartbeat.{microseconds}
use vibe_connect.Value.{Value}
use vibe_connect.Replay.Storage.{ReplayPlatform, Disk}
use vibe_connect.Replay.Recorder.{
  Recording, ReplayRecorder, ReplayCloseResult, header_value, line_bytes, close, verify_replay_hmac,
}
use vibe_connect.Replay.Writer.{ReplayWriter, Creation, start, new_recorder}
use vibe_connect.Replay.Log.{
  refusal, Call, without_result, closing, published_result, recording, published, discarded, Log,
  lines, IsEnded, call, Shows,
}
use vibe_connect.Replay.Refinement.{call_ended}
use vibe_connect.Replay.Refinement.Closing.{IsClosed, close-IsClosed}
use vibe_connect.Replay.Starting.{started}
use vibe_connect.Replay.Runs.{run_calls, answers, Run, recording_refines_log}

-- The lines of a file, each without the newline that ends it.
unfoldable pub read_lines : List ℕ → List ℕ → List (List ℕ)
read_lines line [] = []
read_lines line (b ∷ bytes) =
    if b == 10 then line ∷ read_lines [] bytes else read_lines (line ++ (b ∷ [])) bytes

not_newline :
    (b : ℕ) (xs : List ℕ)
    → contains (b ∷ xs) 10 ≡ false
    → ((b == 10) ≡ false) × (contains xs 10 ≡ false)
unfolding contains
not_newline b xs h = ground arith

read_lines-append :
    (line xs rest : List ℕ)
    → contains xs 10 ≡ false
    → read_lines line (xs ++ (10 ∷ rest)) ≡ (line ++ xs) ∷ read_lines [] rest
unfolding read_lines contains
read_lines-append line [] rest h = ap (λ t. t ∷ read_lines [] rest) (sym (append-nil line))
read_lines-append line (b ∷ xs) rest h =
    let (other, plain) = not_newline b xs h in
    rw other (
      read_lines-append (line ++ (b ∷ [])) xs rest plain
      ∙ ap (λ t. t ∷ read_lines [] rest) (append_assoc line (b ∷ []) xs))

read_lines-lines :
    (platform : ReplayPlatform)
    → ((v : Value) → contains (platform.json.dumps v) 10 ≡ false)
    → (vs : List Value) → read_lines [] (lines platform vs) ≡ map platform.json.dumps vs
unfolding line_bytes read_lines
read_lines-lines platform plain [] = refl
read_lines-lines platform plain (v ∷ vs) =
    rw
      (
        append_assoc (platform.json.dumps v) (10 ∷ []) (lines platform vs),
        read_lines-append [] (platform.json.dumps v) (lines platform vs) (plain v),
        read_lines-lines platform plain vs,
      )
      refl

verify-published :
    (platform : ReplayPlatform) (path : String) (key bytes : List ℕ) (d : Disk)
    → get path d.files ≡ some bytes
    → platform.reads bytes ≡ true
    → verify_replay_hmac platform path key (platform.hmac_hex key bytes) d ≡ (ok true, d)
unfolding verify_replay_hmac ◌>>=◌ gets raise_if pure
verify-published platform path key bytes d h a = simp (h, a, eq_self (platform.hmac_hex key bytes))

ok_inj : {a b : ReplayCloseResult} → ◌≡◌ {A = Result ReplayCloseResult} (ok a) (ok b) → a ≡ b
ok_inj h = cc h

not_closed :
    (platform : ReplayPlatform) (now : ℕ) (s : Recording) {a : ReplayCloseResult} {t : Recording}
    → s.recorder.closed ≡ true
    → close platform now s ≢ (ok a, t)
not_closed platform now s h e =
    raised_first (ap without_result (sym e) ∙ call_ended platform (closing now) s h)
  where
    raised_first :
        {t u : Recording} {x : Error}
        → ◌≢◌ {A = Result (Unit {0}) × Recording} (ok tt, t) (failed x, u)
    raised_first h = cc (ap (λ p. p.0) h)

module _ (platform : ReplayPlatform) (path temp_path : String) (distinct : temp_path ≢ path)
    (key : List ℕ) (before : Option (List ℕ)) where
  -- `close` returns only where the recording was open.
  close-of-open :
      (l : Log) (now : ℕ) (s : Recording) {a : ReplayCloseResult} {t : Recording}
      → Shows platform path temp_path key before l s
      → close platform now s ≡ (ok a, t)
      → (vs : List Value) × (l ≡ recording vs)
        × (a ≡ published_result platform path key vs now)
        × (platform.reads (lines platform vs) ≡ true)
        × IsEnded path temp_path key (some (lines platform vs)) t
  close-of-open (recording vs) now s h e =
      opened (rw e at (close-IsClosed platform path temp_path key distinct before now vs s h))
    where
      opened :
          {a : ReplayCloseResult} {t : Recording}
          → IsClosed platform path temp_path key distinct before vs now (ok a, t)
          → (ws : List Value) × (recording vs ≡ recording ws)
            × (a ≡ published_result platform path key ws now)
            × (platform.reads (lines platform ws) ≡ true)
            × IsEnded path temp_path key (some (lines platform ws)) t
      opened (inl h) = (vs, refl, ok_inj h.0, h.1, h.2)
      opened (inr h) = absurd (cc h.0)
  close-of-open (published vs) now s h e = absurd (not_closed platform now s h.ended e)
  close-of-open discarded now s h e = absurd (not_closed platform now s h.ended e)

module _ (platform : ReplayPlatform) (writer : ReplayWriter) (creation : Creation)
    (session_id : ℕ) where
  -- Where json.dumps writes no newline: when a recording that ReplayWriter.start began under a
  -- temporary name other than the final one, and that got any calls, is closed and `close`
  -- returns, then its log was still open, the file under the path that it returns splits at its
  -- newlines into the header and the recorded events, whole and in the order of the log,
  -- verify_replay_hmac accepts that file with the writer's key and the returned HMAC, and every
  -- later call is refused and changes nothing.
  pub close-verifies :
      (node_name : String) (width height now ended_at : ℕ) (d t : Disk) {r : ReplayRecorder}
      (cs : List Call) {a : ReplayCloseResult} {u : Recording} (later : Call)
      → ((v : Value) → contains (platform.json.dumps v) 10 ≡ false)
      → creation.temp_path ≢ (new_recorder platform writer creation session_id).path
      → start platform writer creation session_id node_name width height now d ≡ (ok r, t)
      → close platform ended_at (run_calls platform cs (started r t)) ≡ (ok a, u)
      → (vs : List Value) × (bytes : List ℕ) × Run
          (recording (header_value node_name width height (now / microseconds) ∷ []))
          cs
          (answers platform cs (started r t))
          (recording vs)
        × (a.path ≡ (new_recorder platform writer creation session_id).path)
        × (get a.path u.disk.files ≡ some bytes)
        × (read_lines [] bytes ≡ map platform.json.dumps vs)
        × (verify_replay_hmac platform a.path writer.integrity_key a.hmac_hex u.disk
            ≡ (ok true, u.disk))
        × (call platform later u ≡ (refusal later, u))
  close-verifies node_name width height now ended_at d t cs {a} {u} later plain distinct h e =
      let q = new_recorder platform writer creation session_id in
      let (l, run, shown) =
        recording_refines_log platform writer creation session_id node_name width height now d t cs
          distinct h in
      let (vs, open_log, result, readable, done) =
        close-of-open platform q.path q.temp_path distinct q.integrity_key (get q.path d.files) l
          ended_at (run_calls platform cs (started _ t)) shown e in
      (
        vs,
        lines platform vs,
        rw open_log at run,
        ap (λ x. x.path) result,
        rw result done.final,
        read_lines-lines platform plain vs,
        rw result (
            verify-published platform q.path writer.integrity_key (lines platform vs) u.disk
              done.final readable),
        call_ended platform later u done.ended,
      )
