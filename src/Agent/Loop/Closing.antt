-- ===== src/Agent/Loop/Closing.antt =====
-- handle_agent_tunnel_stream: the connections to the local sshd and their channels.
use vibe_connect.Base.{
  ℕ, ◌≡◌, String, true, false, Option, none, some, List, [], ◌∷◌, Result, ok, raise as failed, ◌==◌,
  string_eq, nat_eq, refl, ap, ◌∙◌, Bool-cases, inl, inr, eq_self,
}
use vibe_connect.Base.Action.{◌>>=◌}
use vibe_connect.Base.Action.Invariants.{bind-Preserves, invariants}
use vibe_connect.Base.Dict.{Dict, get}
use vibe_connect.Frame.{
  FrameType, auth_ok, heartbeat, open_session, session_data, resize_pty, close_session,
  DecodedFrame,
}
use vibe_connect.Agent.Loop.{
  AgentTunnel, new_tunnel, AgentPlatform, close_local, close_found, close_agent_channel,
  send_heartbeat, open_agent_channel, forward_data, dispatch, serve, close_listed, after_finally,
  handle_agent_tunnel_stream,
}
use vibe_connect.Agent.Loop.Listed.{
  closed_popped, stays_open, stays_open-close_local, Kept, write_local-Listed, add_channel-Listed,
  closed_popped-Listed, require_channel_id-Kept, sent-Listed, Listed,
}

module _ (platform : AgentPlatform) (calm : (n : ℕ) → platform.task_fails n ≡ false)
    (waited : (n : ℕ) → platform.waits_closed n ≡ true) where
  send_heartbeat-Kept : (r : String) → Kept (send_heartbeat platform r)
  unfolding send_heartbeat
  send_heartbeat-Kept r = search (invariants, sent-Listed) depth 9

  open_agent_channel-Kept : (i : String) → Kept (open_agent_channel platform i)
  unfolding open_agent_channel ◌>>=◌
  open_agent_channel-Kept i = record { from = λ s h. go s (get i s.channels) refl h }
    where
      go :
          (s : AgentTunnel) (o : Option ℕ)
          → get i s.channels ≡ o
          → Listed s
          → Listed (open_agent_channel platform i s).1
      go s (some n) e h = rw e h
      go s none e h = rw e (elim (Bool-cases (platform.connects s.opened)) [
        | inl yes' ↦ rw yes' (add_channel-Listed i s e h)
        | inr no' ↦ rw no' h
      ])

  forward_data-Kept : (o : Option ℕ) (payload : List ℕ) → Kept (forward_data platform o payload)
  unfolding forward_data
  forward_data-Kept none payload = search invariants
  forward_data-Kept (some n) payload = search (invariants, write_local-Listed)

  closed_by_found :
      (o : Option ℕ) (t : AgentTunnel) → (close_found platform o t).1 ≡ closed_popped o t
  unfolding close_found closed_popped
  closed_by_found none t = refl
  closed_by_found (some n) t = rw (calm, waited) refl

  close_agent_channel-Kept : (i : String) → Kept (close_agent_channel platform i)
  unfolding close_agent_channel
  close_agent_channel-Kept i = record {
    from = λ t h. rw closed_by_found (closed_popped-Listed i (get i t.channels) t refl h);
  }

  dispatch-Kept : (d : DecodedFrame) (t : FrameType) → Kept (dispatch platform d t)
  unfolding dispatch
  dispatch-Kept d auth_ok = search invariants
  dispatch-Kept d heartbeat = send_heartbeat-Kept d.frame.request_id
  dispatch-Kept d open_session =
      search (invariants, require_channel_id-Kept, open_agent_channel-Kept)
  dispatch-Kept d session_data = search (invariants, require_channel_id-Kept, forward_data-Kept)
  dispatch-Kept d resize_pty = search (invariants, require_channel_id-Kept)
  dispatch-Kept d close_session =
      search (invariants, require_channel_id-Kept, close_agent_channel-Kept)
  dispatch-Kept d _ = search invariants

  serve-Kept : (ds : List DecodedFrame) → Kept (serve platform ds)
  unfolding serve
  serve-Kept [] = search invariants
  serve-Kept (d ∷ ds) =
      bind-Preserves Listed (dispatch platform d d.frame.frame_type) (λ u. serve platform ds)
        (dispatch-Kept d d.frame.frame_type) (λ u. serve-Kept ds)

  -- Closing all the listed connections leaves no one of them open.
  close_listed_keeps :
      (d : Dict String ℕ) (n : ℕ) (t : AgentTunnel)
      → stays_open n t ≡ false
      → stays_open n (close_listed platform d t).1 ≡ false
  unfolding close_listed
  close_listed_keeps [] n t h = h
  close_listed_keeps ((c, m) ∷ d) n t h =
      rw (calm, waited)
        (close_listed_keeps d n (close_local m t) (
          rw stays_open-close_local
            (elim (Bool-cases (m == n)) [ inl same ↦ rw same refl | inr other ↦ rw other h ])))

  close_listed_closes :
      (d : Dict String ℕ) (c : String) (n : ℕ) (t : AgentTunnel)
      → get c d ≡ some n
      → stays_open n (close_listed platform d t).1 ≡ false
  unfolding close_listed get
  close_listed_closes [] c n t e = cc
  close_listed_closes ((i, m) ∷ d) c n t e = elim (Bool-cases (i == c)) [
    | inl same ↦
        let q : m ≡ n = cc (rw same at e) in
        rw (calm, waited)
          (close_listed_keeps d n (close_local m t)
            (rw (stays_open-close_local, q, eq_self n) refl))
    | inr other ↦ rw (calm, waited) (close_listed_closes d c n (close_local m t) (rw other at e))
  ]

  new_tunnel-Listed : Listed new_tunnel
  unfolding get
  new_tunnel-Listed = record { channel_of = λ n o. cc }

  closed_of_Listed :
      (n : ℕ) (t : AgentTunnel)
      → Listed t
      → stays_open n (close_listed platform t.channels t).1 ≡ false
  closed_of_Listed n t h = elim (Bool-cases (stays_open n t)) [
    | inl o ↦ let (c, e) = h.channel_of n o in close_listed_closes t.channels c n t e
    | inr shut' ↦ close_listed_keeps t.channels n t shut'
  ]

  after_finally_state :
      (r : Result (Unit {0})) (x : Result (Unit {0}) × AgentTunnel) → (after_finally r x).1 ≡ x.1
  after_finally_state r (ok u, t) = refl
  after_finally_state r (failed e, t) = refl

  -- Where no copying task ended with an exception and the wait_closed of every connection returns:
  -- whatever frames the server sends and however the loop ends, by the end of the stream, by a frame
  -- that it refuses or by a failed connection or write, no connection to the local sshd stays open.
  pub handle_agent_tunnel_stream-closes :
      (frames : List DecodedFrame) (n : ℕ)
      → stays_open n (handle_agent_tunnel_stream platform frames).1 ≡ false
  unfolding handle_agent_tunnel_stream
  handle_agent_tunnel_stream-closes frames n =
      ap (stays_open n) (after_finally_state _ _)
      ∙ closed_of_Listed n (serve platform frames new_tunnel).1
          ((serve-Kept frames).from new_tunnel new_tunnel-Listed)
