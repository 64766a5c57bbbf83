-- ===== src/Agent/Streamed.antt =====
-- handle_agent_tunnel_stream on the bytes that the server sends before it closes. A round of the
-- loop reads a frame, decodes it and dispatches it; `none` is a loop that did not end within the
-- given number of rounds.
use vibe_connect.Base.{
  ℕ, zero, suc, ◌≡◌, ◌<◌, Option, none, some, List, [], ◌∷◌, refl, ap, arith, length, Result, Error,
  ok, raise as failed,
}
use vibe_connect.Base.Action.{Action, continue, pure, lift, ◌>>=◌, ◌>>◌}
use vibe_connect.Frame.{DecodedFrame, decode_frame}
use vibe_connect.Stream.{agent_read_one_frame}
use vibe_connect.Stream.Shrinking.{agent_read_one_frame-shrinks}
use vibe_connect.Agent.Loop.{AgentPlatform, AgentTunnel, new_tunnel, dispatch, serve, finished}

abbrev pub Outcome : Type 0
Outcome = Option (Result (Unit {0}) × AgentTunnel)

module _ (platform : AgentPlatform) (max_frame_bytes : ℕ) where
  -- What follows the dispatch of a frame; `rest` is the further rounds.
  abbrev pub went_on :
      (List ℕ → AgentTunnel → Outcome) → List ℕ → Result (Unit {0}) × AgentTunnel → Outcome
  went_on rest s (failed e, t) = some (failed e, t)
  went_on rest s (ok u, t) = rest s t

  abbrev pub decoded_next :
      (List ℕ → AgentTunnel → Outcome) → Result DecodedFrame → List ℕ → AgentTunnel → Outcome
  decoded_next rest (failed e) s t = some (failed e, t)
  decoded_next rest (ok d) s t = went_on rest s (dispatch platform d d.frame.frame_type t)

  abbrev pub read_next :
      (List ℕ → AgentTunnel → Outcome) → Result (Option (List ℕ)) × List ℕ → AgentTunnel → Outcome
  read_next rest (failed e, s) t = some (failed e, t)
  read_next rest (ok none, s) t = some (ok tt, t)
  read_next rest (ok (some bytes), s) t =
      decoded_next rest (decode_frame platform.json bytes max_frame_bytes) s t

  unfoldable pub serve_stream : ℕ → List ℕ → AgentTunnel → Outcome
  unfolding dispatch decode_frame agent_read_one_frame
  serve_stream zero s t = none
  serve_stream (suc rounds) s t =
      let rest = serve_stream rounds in
      read_next rest (agent_read_one_frame platform.json max_frame_bytes s) t

  abbrev pub ended : Outcome → Outcome
  ended none = none
  ended (some p) = some (finished platform p)

  -- The whole handler, the `finally` included.
  unfoldable pub handle_byte_stream : ℕ → List ℕ → Outcome
  unfolding serve_stream
  handle_byte_stream rounds s = ended (serve_stream rounds s new_tunnel)

  -- The loop over the frames that were read, and then the end of the reading.
  abbrev pub served_then : List DecodedFrame → Result (Unit {0}) → Action AgentTunnel (Unit {0})
  served_then ds r = serve platform ds >> lift r

  -- The frames that the bytes hold, in order, and how the reading ends: the stream's end, or the
  -- exception of the reader or of decode_frame. Nothing of the loop stands here.
  pub data Reads : List ℕ → List DecodedFrame → Result (Unit {0}) → Type 0 where
    at_end :
        {s s' : List ℕ}
        → agent_read_one_frame platform.json max_frame_bytes s ≡ (ok none, s')
        → Reads s [] (ok tt)
    unreadable :
        {s s' : List ℕ} {e : Error}
        → agent_read_one_frame platform.json max_frame_bytes s ≡ (failed e, s')
        → Reads s [] (failed e)
    undecodable :
        {s s' bytes : List ℕ} {e : Error}
        → agent_read_one_frame platform.json max_frame_bytes s ≡ (ok (some bytes), s')
        → decode_frame platform.json bytes max_frame_bytes ≡ failed e
        → Reads s [] (failed e)
    next_frame :
        {s s' bytes : List ℕ} {d : DecodedFrame} {ds : List DecodedFrame} {r : Result (Unit {0})}
        → agent_read_one_frame platform.json max_frame_bytes s ≡ (ok (some bytes), s')
        → decode_frame platform.json bytes max_frame_bytes ≡ ok d
        → Reads s' ds r
        → Reads s (d ∷ ds) r

  -- `out` serves the frames of the bytes.
  abbrev pub IsServed : List ℕ → (AgentTunnel → Outcome) → Type 0
  IsServed s out =
      (ds : List DecodedFrame) × (r : Result (Unit {0})) × Reads s ds r
      × ((t : AgentTunnel) → out t ≡ some (served_then ds r t))

  went_on-served :
      (rest : List ℕ → AgentTunnel → Outcome) (s : List ℕ) (d : DecodedFrame)
      (ds : List DecodedFrame) (r : Result (Unit {0}))
      → ((t : AgentTunnel) → rest s t ≡ some (served_then ds r t))
      → (p : Result (Unit {0}) × AgentTunnel)
      → went_on rest s p ≡ some (continue (λ u. lift r) (continue (λ u. serve platform ds) p))
  unfolding ◌>>=◌
  went_on-served rest s d ds r h (failed e, t) = refl
  went_on-served rest s d ds r h (ok u, t) = h t

  decoded_next-IsServed :
      (rest : List ℕ → AgentTunnel → Outcome) (q : Result DecodedFrame) (s s' bytes : List ℕ)
      → agent_read_one_frame platform.json max_frame_bytes s ≡ (ok (some bytes), s')
      → decode_frame platform.json bytes max_frame_bytes ≡ q
      → IsServed s' (rest s')
      → IsServed s (decoded_next rest q s')
  unfolding serve ◌>>=◌ lift pure
  decoded_next-IsServed rest (failed e) s s' bytes read decoded h =
      ([], failed e, undecodable read decoded, λ t. refl)
  decoded_next-IsServed rest (ok d) s s' bytes read decoded (ds, r, reads, h) = (
    d ∷ ds,
    r,
    next_frame read decoded reads,
    λ t. went_on-served rest s' d ds r h (dispatch platform d d.frame.frame_type t),
  )

  read_next-IsServed :
      (rest : List ℕ → AgentTunnel → Outcome) (s : List ℕ) (p : Result (Option (List ℕ)) × List ℕ)
      → agent_read_one_frame platform.json max_frame_bytes s ≡ p
      → ((bytes : List ℕ) → p.0 ≡ ok (some bytes) → IsServed p.1 (rest p.1))
      → IsServed s (read_next rest p)
  unfolding serve ◌>>=◌ lift pure
  read_next-IsServed rest s (failed e, s') read h = ([], failed e, unreadable read, λ t. refl)
  read_next-IsServed rest s (ok none, s') read h = ([], ok tt, at_end read, λ t. refl)
  read_next-IsServed rest s (ok (some bytes), s') read h =
      decoded_next-IsServed rest (decode_frame platform.json bytes max_frame_bytes) s s' bytes read
        refl (h bytes refl)

  serve_stream-IsServed :
      (rounds : ℕ) (s : List ℕ) → length s < rounds → IsServed s (serve_stream rounds s)
  unfolding serve_stream
  serve_stream-IsServed zero s h = absurd (omega arith)
  serve_stream-IsServed (suc rounds) s h =
      let p = agent_read_one_frame platform.json max_frame_bytes s in
      read_next-IsServed (serve_stream rounds) s p refl (λ bytes e.
        let less =
          agent_read_one_frame-shrinks platform.json max_frame_bytes s p.1 bytes
            (ap (λ q. (q, p.1)) e) in
        serve_stream-IsServed rounds p.1 (omega (arith, h, less)))

  -- On every byte stream that ends, the agent's loop ends: with more rounds than the stream has
  -- bytes it returns or raises. What it does, the closing of the channels included, is what the loop
  -- does on the frames that the reader and decode_frame take from these bytes in order, followed by
  -- the way in which that reading ends: a return at the end of the stream, or the exception of the
  -- reader or of decode_frame.
  pub handle_byte_stream-ends :
      (rounds : ℕ) (s : List ℕ)
      → length s < rounds
      → (ds : List DecodedFrame) × (r : Result (Unit {0})) × Reads s ds r
        × (handle_byte_stream rounds s ≡ some (finished platform (served_then ds r new_tunnel)))
  unfolding handle_byte_stream
  handle_byte_stream-ends rounds s h =
      let (ds, r, reads, e) = serve_stream-IsServed rounds s h in
      (ds, r, reads, ap ended (e new_tunnel))
