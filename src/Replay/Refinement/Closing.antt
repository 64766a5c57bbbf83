-- ===== src/Replay/Refinement/Closing.antt =====
-- ReplayRecorder.close: what stands under the final name afterwards.
use vibe_connect.Base.{
  ℕ, ◌≡◌, ◌≢◌, ◌⊎◌, String, true, Option, some, List, refl, Result, ok, raise as failed, os_error,
  string_eq, Bool-cases, inl, inr, eq_self,
}
use vibe_connect.Base.Action.{pure, raise_if, modify, gets, ◌>>=◌}
use vibe_connect.Base.Dict.{get, get-put}
use vibe_connect.Value.{Value}
use vibe_connect.Replay.Storage.{ReplayPlatform}
use vibe_connect.Replay.Recorder.{
  Recording, set_closed, set_file_closed, temp_bytes, close_open_file, close_file, replace_file,
  publish, close, ReplayCloseResult,
}
use vibe_connect.Replay.Log.{published_result, lines, IsNamed, IsOpen, IsEnded}

module _ (platform : ReplayPlatform) (path temp_path : String) (key : List ℕ)
    (distinct : temp_path ≢ path) where
  module _ (before : Option (List ℕ)) where
    -- The file took its name whole, or nothing stands under it that did not before.
    abbrev pub IsClosed : List Value → ℕ → Result ReplayCloseResult × Recording → Type 0
    IsClosed vs now (r, t) =
        ((r ≡ ok (published_result platform path key vs now))
          × (platform.reads (lines platform vs) ≡ true)
          × IsEnded path temp_path key (some (lines platform vs)) t)
        ⊎ ((r ≡ failed os_error)
            × (IsEnded path temp_path key before t
                ⊎ IsEnded path temp_path key (some (lines platform vs)) t))

    replace_file-IsEnded :
        (vs : List Value) (s : Recording)
        → IsNamed path temp_path key s
        → s.recorder.closed ≡ true
        → get temp_path s.disk.files ≡ some (lines platform vs)
        → IsEnded path temp_path key (some (lines platform vs)) (replace_file s)
    unfolding replace_file temp_bytes
    replace_file-IsEnded vs s names closed held = record {
      names = record { named = names.named; temp_named = names.temp_named; keyed = names.keyed };
      ended = closed;
      final = simp (get-put, names.named, names.temp_named, eq_self path, held);
    }

    publish-IsClosed :
        (now : ℕ) (vs : List Value) (s : Recording)
        → IsEnded path temp_path key before s
        → get temp_path s.disk.files ≡ some (lines platform vs)
        → IsClosed vs now (publish platform now s)
    unfolding publish temp_bytes ◌>>=◌ gets modify raise_if pure
    publish-IsClosed now vs s h held =
        let done = replace_file-IsEnded vs s h.names h.ended held in
        simp (h.names.temp_named, held)
          (elim (Bool-cases (platform.replaces (lines platform vs))) [
            | inr a ↦ rw a (inr (refl, inl h))
            | inl a ↦ rw a (elim (Bool-cases (platform.reads (lines platform vs))) [
              | inr b ↦ rw b (inr (refl, inr done))
              | inl b ↦ rw b (inl (simp (h.names.named, h.names.keyed), refl, done))
            ])
          ])

    -- The recorder is marked as closed, then its file.
    temp_bytes-set_closed :
        (vs : List Value) (s : Recording)
        → IsOpen platform path temp_path key before vs s
        → temp_bytes (set_closed s) ≡ lines platform vs
    unfolding temp_bytes set_closed
    temp_bytes-set_closed vs s h = simp (h.names.temp_named, h.held)

    close_file-flushed :
        (vs : List Value) (s : Recording)
        → IsOpen platform path temp_path key before vs s
        → platform.flushes (lines platform vs) ≡ true
        → close_file platform (set_closed s) ≡ (ok tt, set_file_closed (set_closed s))
    unfolding close_file close_open_file set_closed set_file_closed temp_bytes ◌>>=◌ gets modify
        raise_if pure
    close_file-flushed vs s h a = simp (h.open_file, h.names.temp_named, h.held, a)

    set_closed-IsEnded :
        (vs : List Value) (s : Recording)
        → IsOpen platform path temp_path key before vs s
        → IsEnded path temp_path key before (set_closed s)
    unfolding set_closed
    set_closed-IsEnded vs s h = record {
      names = record {
        named = h.names.named;
        temp_named = h.names.temp_named;
        keyed = h.names.keyed;
      };
      ended = refl;
      final = h.untouched;
    }

    set_file_closed-IsEnded :
        (s : Recording)
        → IsEnded path temp_path key before s
        → IsEnded path temp_path key before (set_file_closed s)
    unfolding set_file_closed
    set_file_closed-IsEnded s h = record {
      names = record {
        named = h.names.named;
        temp_named = h.names.temp_named;
        keyed = h.names.keyed;
      };
      ended = h.ended;
      final = h.final;
    }

    ended-IsClosed :
        (now : ℕ) (vs : List Value) (s : Recording)
        → IsOpen platform path temp_path key before vs s
        → IsClosed vs now (publish platform now (set_file_closed (set_closed s)))
    unfolding set_closed set_file_closed
    ended-IsClosed now vs s h =
        publish-IsClosed now vs _ (set_file_closed-IsEnded _ (set_closed-IsEnded vs s h)) h.held

    pub close-IsClosed :
        (now : ℕ) (vs : List Value) (s : Recording)
        → IsOpen platform path temp_path key before vs s
        → IsClosed vs now (close platform now s)
    unfolding close ◌>>=◌ gets modify raise_if
    close-IsClosed now vs s h =
        let ended = set_closed-IsEnded vs s h in
        simp (h.open_recorder, temp_bytes-set_closed vs s h)
          (elim (Bool-cases (platform.flushes (lines platform vs))) [
            | inr a ↦ rw a (inr (refl, inl ended))
            | inl a ↦ rw a (elim (Bool-cases (platform.syncs (lines platform vs))) [
              | inr b ↦ rw b (inr (refl, inl ended))
              | inl b ↦ rw (b, close_file-flushed vs s h a) (ended-IsClosed now vs s h)
            ])
          ])
