-- ===== src/Broker/Runs.antt =====
-- The broker through any sequence of events, from a start with no tunnel.
use vibe_connect.Base.{ℕ, String, List, [], ◌∷◌, string_eq}
use vibe_connect.Base.Dict.{get}
use vibe_connect.Frame.{DecodedFrame}
use vibe_connect.Tunnel.Auth.{PeerCertificateBinding, AgentStore}
use vibe_connect.Broker.Platform.{Platform}
use vibe_connect.Broker.State.{Broker, empty_broker}
use vibe_connect.Broker.Sessions.{
  open_broker_session, send_data, resize_broker_pty, begin_close, retire_channel,
}
use vibe_connect.Broker.Frames.{receive_frame}
use vibe_connect.Broker.Tunnels.{drop_connection, accept_stream}
use vibe_connect.Broker.Objects.{
  AllConsistent, Kept, kept_rules, retire_channel-Kept, write_frame-Kept, open-Kept, send_data-Kept,
  resize-Kept, begin_close-Kept,
}
use vibe_connect.Broker.History.{
  receive_frame-Kept, drop_connection-AllConsistent, register-Kept, authenticate_stream-Kept,
}

-- What the tasks of the broker do between two suspensions: a tunnel starts, brings a frame or ends;
-- the server opens a session, sends data, resizes, begins to close, or finishes closing.
pub data Event : Type 0 where
  starts : DecodedFrame → PeerCertificateBinding → String → ℕ → ℕ → Event
  brings : String → ℕ → DecodedFrame → ℕ → Event
  ends : ℕ → String → Event
  opens : ℕ → String → String → String → String → String → ℕ → String → Event
  sends : String → List ℕ → String → Event
  resizes : String → ℕ → ℕ → String → Event
  begins_close finishes_close : String → String → Event

module _ (platform : Platform) (max_sessions heartbeat_seconds max_frame_bytes : ℕ) where
  accept_stream-Kept :
      (first : DecodedFrame) (peer : PeerCertificateBinding) (k : String) (now seen : ℕ)
      → Kept (
          accept_stream platform max_sessions heartbeat_seconds max_frame_bytes first peer k now
            seen)
  unfolding accept_stream
  accept_stream-Kept first peer k now seen =
      search (kept_rules, authenticate_stream-Kept, register-Kept, write_frame-Kept)

  unfoldable pub happen : Event → Broker → Broker
  happen (starts first peer k now seen) b =
      (accept_stream platform max_sessions heartbeat_seconds max_frame_bytes first peer k now seen
        b).1
  happen (brings k a d t) b = (receive_frame k a d t b).1
  happen (ends a k) b = drop_connection a k b
  happen (opens a i node key user principal now r) b =
      (open_broker_session platform max_frame_bytes a i node key user principal now r b).1
  happen (sends i payload r) b = (send_data platform max_frame_bytes i payload r b).1
  happen (resizes i w h r) b = (resize_broker_pty platform max_frame_bytes i w h r b).1
  happen (begins_close i r) b = (begin_close platform max_frame_bytes i r b).1
  happen (finishes_close k i) b = (retire_channel k i b).1

  unfoldable pub run : List Event → Broker → Broker
  unfolding happen
  run [] b = b
  run (e ∷ es) b = run es (happen e b)

  happen-AllConsistent : (e : Event) (b : Broker) → AllConsistent b → AllConsistent (happen e b)
  unfolding happen
  happen-AllConsistent (starts first peer k now seen) b =
      (accept_stream-Kept first peer k now seen).from b
  happen-AllConsistent (brings k a d t) b = (receive_frame-Kept k a d t).from b
  happen-AllConsistent (ends a k) b = drop_connection-AllConsistent a k b
  happen-AllConsistent (opens a i node key user principal now r) b =
      (open-Kept platform max_frame_bytes a i node key user principal now r).from b
  happen-AllConsistent (sends i payload r) b =
      (send_data-Kept platform max_frame_bytes i payload r).from b
  happen-AllConsistent (resizes i w h r) b = (resize-Kept platform max_frame_bytes i w h r).from b
  happen-AllConsistent (begins_close i r) b = (begin_close-Kept platform max_frame_bytes i r).from b
  happen-AllConsistent (finishes_close k i) b = (retire_channel-Kept k i).from b

  run-AllConsistent_from :
      (es : List Event) (b : Broker) → AllConsistent b → AllConsistent (run es b)
  unfolding run
  run-AllConsistent_from [] b h = h
  run-AllConsistent_from (e ∷ es) b h =
      run-AllConsistent_from es (happen e b) (happen-AllConsistent e b h)

  empty_broker-AllConsistent : (store : AgentStore) → AllConsistent (empty_broker store)
  unfolding get
  empty_broker-AllConsistent store = record { each = λ k c p. cc }

  -- From a broker without tunnels and after any events in any order, on every connection object the open channels are within the
  -- limit and apart from the retired ones, the listed adapters are exactly the open channels, and
  -- every listed adapter has its stream.
  pub run-AllConsistent :
      (store : AgentStore) (es : List Event) → AllConsistent (run es (empty_broker store))
  run-AllConsistent store es =
      run-AllConsistent_from es (empty_broker store) (empty_broker-AllConsistent store)
