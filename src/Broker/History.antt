-- ===== src/Broker/History.antt =====
-- The broker under any sequence of events: tunnels that start, send frames and end, and sessions
-- that the server opens, uses and closes.
use vibe_connect.Base.{
  ℕ, ◌≡◌, String, Option, none, some, List, [], ◌∷◌, ok, string_eq, nat_eq, ◌!=◌, arith, refl, sym,
  ap, ◌∙◌, contains, Bool-cases, inl, inr,
}
use vibe_connect.Base.Action.{Action, modify}
use vibe_connect.Base.Action.Invariants.{bind-Preserves, bind_lift-Preserves}
use vibe_connect.Base.Dict.{get}
use vibe_connect.Value.{Value, dict, Fields}
use vibe_connect.Frame.{FrameType, heartbeat, session_data, close_session, DecodedFrame}
use vibe_connect.Tunnel.Channels.{Channels, new_channels}
use vibe_connect.Tunnel.Channels.Lifecycle.{new_channels-IsValid}
use vibe_connect.Tunnel.Heartbeat.{HeartbeatState, new_heartbeat, mark_seen}
use vibe_connect.Tunnel.Registry.{Registry, connect}
use vibe_connect.Tunnel.Auth.{AgentTunnelRecord, PeerCertificateBinding}
use vibe_connect.Broker.Platform.{Platform}
use vibe_connect.Broker.State.{feed_eof, Connection, Broker, on_connection, on_stream}
use vibe_connect.Broker.Frames.{
  handle_channel_frame, handle_other_frame, handle_agent_frame, receive_frame,
}
use vibe_connect.Broker.Tunnels.{
  feed_eof_all, drop_object, drop_current, drop_connection, on_registry, decode_auth_payload,
  member_text, auth_values, authenticate_stream, new_connection, add_connection,
  register_connection,
}
use vibe_connect.Broker.Consistency.{IsConsistent, on_stream-IsConsistent}
use vibe_connect.Broker.Objects.{
  AllConsistent, Kept, kept_rules, put-AllConsistent, on_connection-Kept, modify-Kept, feeds-Kept,
  retire_channel-Kept,
}

-- Frames.
handle_channel_frame-Kept :
    (k : String) (t : FrameType) (i : String) (payload : List ℕ)
    → Kept (handle_channel_frame k t i payload)
unfolding handle_channel_frame
handle_channel_frame-Kept k session_data i payload = search feeds-Kept
handle_channel_frame-Kept k close_session i payload =
    search (kept_rules, feeds-Kept, retire_channel-Kept)
handle_channel_frame-Kept k _ i payload = search kept_rules

pub handle_agent_frame-Kept :
    (k : String) (t : FrameType) (i : Option String) (payload : List ℕ)
    → Kept (handle_agent_frame k t i payload)
unfolding handle_agent_frame handle_other_frame
handle_agent_frame-Kept k heartbeat i payload = search kept_rules
handle_agent_frame-Kept k _ none payload = search kept_rules
handle_agent_frame-Kept k _ (some i) payload = handle_channel_frame-Kept k _ i payload

seen-Kept :
    (k : String) (t : ℕ)
    → Kept (on_connection k (modify λ c. record c { heartbeat = mark_seen t c.heartbeat }))
unfolding modify
seen-Kept k t =
    on_connection-Kept k _
      (λ c h. record { valid = h.valid; listed = h.listed; streamed = h.streamed })

pub receive_frame-Kept :
    (k : String) (a : ℕ) (d : DecodedFrame) (t : ℕ) → Kept (receive_frame k a d t)
unfolding receive_frame
receive_frame-Kept k a d t = search (kept_rules, seen-Kept, handle_agent_frame-Kept)

-- The end of a tunnel.
feed_eof_all-IsConsistent :
    (is : List String) (c : Connection) → IsConsistent c → IsConsistent (feed_eof_all is c)
unfolding feed_eof_all
feed_eof_all-IsConsistent [] c h = h
feed_eof_all-IsConsistent (i ∷ is) c h =
    feed_eof_all-IsConsistent is (on_stream i feed_eof c) (on_stream-IsConsistent i c h feed_eof)

drop_object-AllConsistent :
    (a : ℕ) (k : String) (b : Broker) (o : Option Connection)
    → get k b.objects ≡ o
    → AllConsistent b
    → AllConsistent (drop_object a o k b)
drop_object-AllConsistent a k b none e h = record { each = h.each }
drop_object-AllConsistent a k b (some c) e h = record {
  each =
      put-AllConsistent k (feed_eof_all c.adapters c) b.objects h.each
        (feed_eof_all-IsConsistent c.adapters c (h.each k c e));
}

drop_current-AllConsistent :
    (a : ℕ) (o : Option String) (k : String) (b : Broker)
    → AllConsistent b
    → AllConsistent (drop_current a o k b)
drop_current-AllConsistent a none k b h = h
drop_current-AllConsistent a (some current) k b h = elim (Bool-cases (current != k)) [
  | inl other ↦ rw other h
  | inr own ↦ rw own (drop_object-AllConsistent a current b (get current b.objects) refl h)
]

pub drop_connection-AllConsistent :
    (a : ℕ) (k : String) (b : Broker) → AllConsistent b → AllConsistent (drop_connection a k b)
unfolding drop_connection
drop_connection-AllConsistent a k b h = record {
  each = (drop_current-AllConsistent a (get a b.connections) k b h).each;
}

-- The start of a tunnel.
on_registry_same :
    {A : Type 0} (m : Action Registry A) (b : Broker) → (on_registry m b).1.objects ≡ b.objects
unfolding on_registry
on_registry_same m b = refl

on_registry-Kept : {A : Type 0} (m : Action Registry A) → Kept (on_registry m)
on_registry-Kept m = record {
  from = λ b h. record { each = λ k c p. h.each k c (sym (ap (get k) (on_registry_same m b)) ∙ p) };
}

new_connection-IsConsistent :
    (agent : AgentTunnelRecord) (k : String) (n : ℕ) (channels : Channels) (h : HeartbeatState)
    → new_channels n ≡ ok channels
    → IsConsistent (new_connection agent k channels h)
unfolding new_connection contains new_channels
new_connection-IsConsistent agent k n channels h e = record {
  valid = new_channels-IsValid n channels e;
  listed = λ i. ground arith;
  streamed = λ i m. cc;
}

add_connection-Kept : (c : Connection) → IsConsistent c → Kept (modify (add_connection c))
unfolding modify add_connection
add_connection-Kept c n = record {
  from = λ b h. record { each = put-AllConsistent c.connection_id c b.objects h.each n };
}

member_text-Kept :
    (platform : Platform) (key : String) (f : Fields) → Kept (member_text platform key f)
unfolding member_text
member_text-Kept platform key f = search kept_rules

auth_values-Kept : (platform : Platform) (v : Option Value) → Kept (auth_values platform v)
unfolding auth_values
auth_values-Kept platform none = search kept_rules
auth_values-Kept platform (some (dict f)) = search kept_rules
auth_values-Kept platform (some _) = search kept_rules

module _ (platform : Platform) where
  decode_auth_payload-Kept : (payload : List ℕ) → Kept (decode_auth_payload platform payload)
  unfolding decode_auth_payload
  decode_auth_payload-Kept payload =
      search (kept_rules, member_text-Kept, auth_values-Kept) depth 20

  pub authenticate_stream-Kept :
      (first : DecodedFrame) (peer : PeerCertificateBinding) (now : ℕ)
      → Kept (authenticate_stream platform first peer now)
  unfolding authenticate_stream
  authenticate_stream-Kept first peer now = search (kept_rules, decode_auth_payload-Kept) depth 12

pub register-Kept :
    (n s : ℕ) (agent : AgentTunnelRecord) (k : String) (t : ℕ)
    → Kept (register_connection n s agent k t)
unfolding register_connection
register-Kept n s agent k t = bind_lift-Preserves AllConsistent (new_channels n) _ λ channels e.
    bind_lift-Preserves AllConsistent (new_heartbeat s) _ λ fresh e'.
      let added : Kept
          (modify (add_connection (new_connection agent k channels (mark_seen t fresh)))) =
        add_connection-Kept _
          (new_connection-IsConsistent agent k n channels (mark_seen t fresh) e) in
      bind-Preserves AllConsistent _ _ (modify-Kept _ (λ b. refl)) (λ _.
        bind-Preserves AllConsistent _ _ (on_registry-Kept (connect agent.agent_id k)) (λ _. added))
