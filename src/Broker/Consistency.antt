-- ===== src/Broker/Consistency.antt =====
-- One connection object: the listed adapters are the open channels, and each has its stream.
use text.Mathlib.TextEquality.{eq_iff}
use vibe_connect.Base.{
  ℕ, ◌≡◌, ◌≢◌, String, true, false, Option, none, some, Result, ok, raise, Error, key_error,
  string_eq, contains, arith, tunnel_state_error, Bool-cases, inl, inr, ◌⊎◌, is_none, ◌∙◌,
}
use vibe_connect.Base.Sets.{add, discard, contains-add, contains-discard}
use vibe_connect.Base.Action.{◌>>=◌}
use vibe_connect.Base.Dict.{get, put, get-put}
use vibe_connect.Tunnel.Channels.{is_open, require_open, apply_to_channel}
use vibe_connect.Tunnel.Channels.Lifecycle.{IsValid, open_channel-IsValid, apply_to_channel-IsValid}
use vibe_connect.Tunnel.Heartbeat.{allows_new_jump}
use vibe_connect.Tunnel.Channels.Outcomes.{
  with_open, with_retired, open_channel_cases, close_session_cases,
}
use vibe_connect.Frame.{close_session}
use vibe_connect.Broker.State.{BrokerStream, new_stream, Connection, on_channels, on_stream, fed}
use vibe_connect.Broker.Sessions.{open_on_connection, retire_on_connection}
use vibe_connect.Broker.Frames.{feed_adapter}

pub record IsConsistent (c : Connection) : Type 0 where
  pub valid : IsValid c.channels
  pub listed : (i : String) → contains c.adapters i ≡ is_open c.channels i
  pub streamed : (i : String) → contains c.adapters i ≡ true → is_none (get i c.streams) ≡ false

-- The connection with the channel opened, and with the channel closed and no longer listed.
abbrev pub opened : String → Connection → Connection
opened i c = record c {
  channels = with_open i c.channels;
  adapters = add i c.adapters;
  streams = put i new_stream c.streams;
}

abbrev pub retired : String → Connection → Connection
retired i c = record c { channels = with_retired i c.channels; adapters = discard i c.adapters }

module _ (i : String) (c : Connection) where
  abbrev pub RaisesOr : Result (Unit {0}) × Connection → Connection → Type 0
  RaisesOr outcome after = ((e : Error) × (outcome ≡ (raise e, c))) ⊎ (outcome ≡ (ok tt, after))

  pub open_on_connection_cases : (now : ℕ) → RaisesOr (open_on_connection i now c) (opened i c)
  unfolding open_on_connection on_channels apply_to_channel ◌>>=◌
  open_on_connection_cases now = elim (Bool-cases (allows_new_jump now c.heartbeat)) [
    | inl fresh ↦ rw fresh (elim (open_channel_cases i c.channels) [
      | inl (e, refused) ↦ inl (e, rw refused)
      | inr done ↦ inr (rw done)
    ])
    | inr stale ↦ inl (tunnel_state_error "agent heartbeat is stale", rw stale)
  ]

  pub retire_on_connection_cases : RaisesOr (retire_on_connection i c) (retired i c)
  unfolding retire_on_connection on_channels apply_to_channel ◌>>=◌
  retire_on_connection_cases = elim (close_session_cases i c.channels) [
    | inl (e, refused) ↦ inl (e, rw refused)
    | inr done ↦ inr (rw done)
  ]

  abbrev pub with_fed : (BrokerStream → BrokerStream) → Connection
  with_fed f = on_stream i f c

  pub feed_adapter_cases :
      (f : BrokerStream → BrokerStream) → RaisesOr (feed_adapter i f c) (with_fed f)
  unfolding feed_adapter on_channels require_open ◌>>=◌
  feed_adapter_cases f = elim (Bool-cases (is_open c.channels i)) [
    | inl known ↦ rw known (elim (Bool-cases (contains c.adapters i)) [
      | inl there ↦ inr (rw there)
      | inr missing ↦ inl (key_error, rw missing)
    ])
    | inr unknown ↦ inl (tunnel_state_error "unknown channel", rw unknown)
  ]

module _ (i : String) (c : Connection) (h : IsConsistent c) where
  opened-IsValid : (now : ℕ) → IsValid (open_on_connection i now c).1.channels
  unfolding open_on_connection on_channels apply_to_channel ◌>>=◌
  opened-IsValid now = elim (Bool-cases (allows_new_jump now c.heartbeat)) [
    | inl fresh ↦ rw fresh (elim (open_channel_cases i c.channels) [
      | inl (e, refused) ↦ rw refused h.valid
      | inr done ↦ rw done (rw done at (open_channel-IsValid i c.channels h.valid))
    ])
    | inr stale ↦ rw stale h.valid
  ]

  retired-IsValid : IsValid (retire_on_connection i c).1.channels
  unfolding retire_on_connection on_channels apply_to_channel ◌>>=◌
  retired-IsValid = elim (close_session_cases i c.channels) [
    | inl (e, refused) ↦ rw refused h.valid
    | inr done ↦ rw done (rw done at (apply_to_channel-IsValid i c.channels h.valid close_session))
  ]

  pub open_on_connection-IsConsistent : (now : ℕ) → IsConsistent (open_on_connection i now c).1
  open_on_connection-IsConsistent now = elim (open_on_connection_cases i c now) [
    | inl (e, refused) ↦ rw refused h
    | inr done ↦ rw done (record {
      valid = rw done at (opened-IsValid now);
      listed = λ j. opened_listed j;
      streamed = λ j. opened_streamed j;
    })
  ]
    where
      opened_listed :
          (j : String) → contains (add i c.adapters) j ≡ contains (add i c.channels.open_channels) j
      opened_listed j = rw (contains-add, contains-add, h.listed j)

      opened_streamed :
          (j : String)
          → contains (add i c.adapters) j ≡ true
          → is_none (get j (put i new_stream c.streams)) ≡ false
      opened_streamed j m = ground (
        arith,
        get-put i j new_stream c.streams,
        contains-add i j c.adapters,
        h.streamed j,
        eq_iff i j,
        eq_iff j i,
      )

  pub retire_on_connection-IsConsistent : IsConsistent (retire_on_connection i c).1
  retire_on_connection-IsConsistent = elim (retire_on_connection_cases i c) [
    | inl (e, refused) ↦ rw refused h
    | inr done ↦ rw done (record {
      valid = rw done at retired-IsValid;
      listed = λ j. retired_listed j;
      streamed = λ j. retired_streamed j;
    })
  ]
    where
      retired_listed :
          (j : String)
          → contains (discard i c.adapters) j ≡ contains (discard i c.channels.open_channels) j
      retired_listed j = rw (contains-discard, contains-discard, h.listed j)

      retired_streamed :
          (j : String)
          → contains (discard i c.adapters) j ≡ true
          → is_none (get j c.streams) ≡ false
      retired_streamed j m = ground (arith, contains-discard i j c.adapters, h.streamed j)

  pub on_stream-IsConsistent : (f : BrokerStream → BrokerStream) → IsConsistent (on_stream i f c)
  unfolding on_stream
  on_stream-IsConsistent f = fed_consistent (get i c.streams)
    where
      kept :
          (s : BrokerStream) (j : String)
          → is_none (get j c.streams) ≡ false
          → is_none (get j (put i s c.streams)) ≡ false
      kept s j p = ground (arith, get-put i j s c.streams)

      fed_consistent : (o : Option BrokerStream) → IsConsistent (fed o f i c)
      fed_consistent none = h
      fed_consistent (some s) = record {
        valid = h.valid;
        listed = h.listed;
        streamed = λ j m. kept (f s) j (h.streamed j m);
      }

  pub feed_adapter-IsConsistent :
      (f : BrokerStream → BrokerStream) → IsConsistent (feed_adapter i f c).1
  feed_adapter-IsConsistent f = elim (feed_adapter_cases i c f) [
    | inl (e, refused) ↦ rw refused h
    | inr done ↦ rw done (on_stream-IsConsistent f)
  ]

  -- On a consistent connection the lookup of the adapter of an open channel does not fail.
  pub feed_adapter-ne-key_error :
      (f : BrokerStream → BrokerStream) → (feed_adapter i f c).0 ≢ raise key_error
  unfolding feed_adapter on_channels require_open ◌>>=◌
  feed_adapter-ne-key_error f = elim (Bool-cases (is_open c.channels i)) [
    | inl known ↦ rw (known, h.listed i ∙ known) (λ e. cc)
    | inr unknown ↦ rw unknown (λ e. cc)
  ]
