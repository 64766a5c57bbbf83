-- ===== src/Jump/Recorded.antt =====
-- What the bridge passes on is in the recording.
use vibe_connect.Base.{
  ℕ, ◌≡◌, ◌≢◌, ◌⊎◌, ◌++◌, String, Bool, Option, List, [], ◌∷◌, refl, Result, ok, raise as failed,
  inl, inr, ap, sym, Bool-cases, ◌∙◌, jump_error, string_eq,
}
use vibe_connect.Base.Action.{
  ok-injective, bind_ok, bind_raise, Action, continue, pure, gets, raise_if, ◌>>=◌, ◌>>◌,
}
use vibe_connect.Value.{Value}
use vibe_connect.Replay.Recorder.{Recording, event_value, record_event, record_input, record_output}
use vibe_connect.Replay.Log.{IsOpen}
use vibe_connect.Replay.Refinement.Writing.{IsRecorded, record_event-IsRecorded}
use vibe_connect.Broker.State.{Broker}
use vibe_connect.Broker.Sessions.{send_data}
use vibe_connect.Jump.World.{on_broker}
use vibe_connect.Jump.Opener.{JumpPlatform}
use vibe_connect.Jump.Bridge.{
  Bridge, on_world, on_recording, recorded, bridge_ensure_open, send_user_input,
  receive_node_output,
}

abbrev pub recording_of : Bridge → Recording
recording_of b = record { recorder = b.jump.replay; disk = b.world.disk }

pub ensure_open-cases :
    (b : Bridge)
    → (bridge_ensure_open b ≡ (failed (jump_error "jump channel is closed"), b))
      ⊎ (bridge_ensure_open b ≡ (ok tt, b))
unfolding bridge_ensure_open ◌>>=◌ gets raise_if
ensure_open-cases b = elim (Bool-cases b.bridge_closed) [
  | inl closed ↦ inl (simp closed)
  | inr still ↦ inr (simp still)
]

module _ (platform : JumpPlatform) (decode : List ℕ → String) (stores : Bool)
    (path temp_path : String) (key : List ℕ) (distinct : temp_path ≢ path)
    (before : Option (List ℕ)) where
  abbrev pub HasLines : List Value → Bridge → Type 0
  HasLines vs b = IsOpen platform.replay path temp_path key before vs (recording_of b)

  -- The broker was not touched, or the line is in the recording.
  abbrev pub IsRecordedFirst : Value → List Value → Bridge → Bridge → Type 0
  IsRecordedFirst v vs b b' = (b'.world.broker ≡ b.world.broker) ⊎ HasLines (vs ++ (v ∷ [])) b'

  sent_after :
      (v : Value) (vs : List Value) (b : Bridge) (m : String → Action Broker (Unit {0}))
      (p : Result (Unit {0}) × Recording)
      → IsRecorded platform.replay path temp_path key distinct before v vs p
      → IsRecordedFirst v vs b
          (continue
            (λ u.
              gets (λ c. c.jump.channel_id) >>= λ channel_id. on_world (on_broker (m channel_id)))
            (recorded b p)).1
  unfolding on_world on_broker ◌>>=◌ gets
  sent_after v vs b m (ok u, s) (inl h) = inr h.1
  sent_after v vs b m (ok u, s) (inr h) = absurd (cc h.1)
  sent_after v vs b m (failed e, s) h = inl refl

  received_after :
      (v : Value) (vs : List Value) (b : Bridge) (payload : List ℕ)
      (p : Result (Unit {0}) × Recording)
      → IsRecorded platform.replay path temp_path key distinct before v vs p
      → (shown : List ℕ) (b' : Bridge)
      → continue (λ u. pure payload) (recorded b p) ≡ (ok shown, b')
      → (shown ≡ payload) × HasLines (vs ++ (v ∷ [])) b'
  unfolding pure
  received_after v vs b payload (ok u, s) (inl h) shown b' e =
      (sym (ok-injective (ap (λ q. q.0) e)), rw (← ap (λ q. q.1) e) h.1)
  received_after v vs b payload (ok u, s) (inr h) shown b' e = absurd (cc h.1)
  received_after v vs b payload (failed x, s) h shown b' e = absurd (cc (ap (λ q. q.0) e))

  input_sent :
      (vs : List Value) (seconds : Value) (payload : List ℕ) (request_id : String) (b : Bridge)
      → HasLines vs b
      → IsRecordedFirst
          (event_value seconds "i" (decode payload))
          vs
          b
          ((on_recording (record_input platform.replay seconds (decode payload))
              >> (gets (λ c. c.jump.channel_id) >>= λ channel_id. on_world (
                  on_broker (
                    send_data platform.broker platform.max_frame_bytes channel_id payload
                      request_id))))
            b).1
  unfolding on_recording record_input ◌>>=◌
  input_sent vs seconds payload request_id b h =
      sent_after (event_value seconds "i" (decode payload)) vs b
        (λ channel_id.
          send_data platform.broker platform.max_frame_bytes channel_id payload request_id)
        (record_event platform.replay seconds "i" (decode payload) (recording_of b))
        (record_event-IsRecorded platform.replay path temp_path key distinct before seconds "i"
          (decode payload) vs (recording_of b) h)

  output_shown :
      (vs : List Value) (seconds : Value) (payload : List ℕ) (b : Bridge)
      → HasLines vs b
      → (shown : List ℕ) (b' : Bridge)
      → (on_recording (record_output platform.replay seconds (decode payload)) >> pure payload) b
        ≡ (ok shown, b')
      → (shown ≡ payload) × HasLines (vs ++ (event_value seconds "o" (decode payload) ∷ [])) b'
  unfolding on_recording record_output ◌>>=◌
  output_shown vs seconds payload b h =
      received_after (event_value seconds "o" (decode payload)) vs b payload
        (record_event platform.replay seconds "o" (decode payload) (recording_of b))
        (record_event-IsRecorded platform.replay path temp_path key distinct before seconds "o"
          (decode payload) vs (recording_of b) h)

  -- While a bridge's recording is open with the lines `vs`: in every outcome of send_user_input
  -- the broker was not touched, or the recording is open with the user's input, decoded, as one
  -- more line; and whatever receive_node_output returns is the node's output, unchanged, which the
  -- recording then has, decoded, as one more line.
  pub bridge_records_first :
      (b : Bridge) (vs : List Value) (seconds : Value) (payload : List ℕ) (request_id : String)
      → HasLines vs b
      → IsRecordedFirst
          (event_value seconds "i" (decode payload))
          vs
          b
          (send_user_input platform decode stores seconds payload request_id b).1
        × ((shown : List ℕ) (b' : Bridge)
            → receive_node_output platform decode stores seconds payload b ≡ (ok shown, b')
            → (shown ≡ payload)
              × HasLines (vs ++ (event_value seconds "o" (decode payload) ∷ [])) b')
  unfolding send_user_input receive_node_output
  bridge_records_first b vs seconds payload request_id h = elim (ensure_open-cases b) [
    | inl refused ↦ (
      rw (bind_raise _ _ refused) (inl refl),
      λ shown b' e. absurd (cc (ap (λ q. q.0) (sym (bind_raise _ _ refused) ∙ e))),
    )
    | inr passes ↦ (
      rw (bind_ok _ _ passes) (input_sent vs seconds payload request_id b h),
      λ shown b' e. output_shown vs seconds payload b h shown b' (sym (bind_ok _ _ passes) ∙ e),
    )
  ]
