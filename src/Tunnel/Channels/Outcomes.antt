-- ===== src/Tunnel/Channels/Outcomes.antt =====
-- TunnelChannelRegistry: each method raises and changes nothing, or makes its one change.
use vibe_connect.Base.{
  ◌≡◌, ◌⊎◌, inl, inr, String, ◌||◌, Result, ok, raise, Error, tunnel_state_error, Bool-cases, ◌==◌,
  string_eq, leb, length,
}
use vibe_connect.Base.Sets.{add, discard}
use vibe_connect.Frame.{close_session}
use vibe_connect.Tunnel.Channels.{
  Channels, is_open, is_retired, open_channel, close_channel, apply_to_channel,
}

abbrev pub with_open : String → Channels → Channels
with_open i c = record c { open_channels = add i c.open_channels }

abbrev pub with_retired : String → Channels → Channels
with_retired i c = record c {
  open_channels = discard i c.open_channels;
  retired_channels = add i c.retired_channels;
}

module _ (i : String) (c : Channels) where
  -- A method's outcome: it raised and left the state, or returned in the state `after`.
  abbrev pub RaisesOr : Result (Unit {0}) × Channels → Channels → Type 0
  RaisesOr outcome after = ((e : Error) × (outcome ≡ (raise e, c))) ⊎ (outcome ≡ (ok tt, after))

  pub open_channel_cases : RaisesOr (open_channel i c) (with_open i c)
  unfolding open_channel
  open_channel_cases = elim (Bool-cases (i == "")) [
    | inl empty ↦ inl (tunnel_state_error "channel_id is required", rw empty)
    | inr named ↦ rw named (elim (Bool-cases (is_open c i || is_retired c i)) [
      | inl used ↦ inl (tunnel_state_error "channel_id reuse", rw used)
      | inr fresh ↦ rw fresh (elim (Bool-cases (leb c.max_sessions (length c.open_channels))) [
        | inl full ↦ inl (tunnel_state_error "max sessions exceeded", rw full)
        | inr room ↦ inr (rw room)
      ])
    ])
  ]

  pub close_session_cases : RaisesOr (apply_to_channel close_session i c) (with_retired i c)
  unfolding apply_to_channel
  close_session_cases = elim (Bool-cases (is_open c i)) [
    | inl known ↦ inr (rw known (rw (known, close_channel)))
    | inr unknown ↦ inl (tunnel_state_error "unknown channel", rw unknown)
  ]
