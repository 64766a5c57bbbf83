-- ===== src/Tunnel/Channels/Lifecycle.antt =====
-- TunnelChannelRegistry: its invariant, and the life of a channel's identifier.
use text.Mathlib.TextEquality.{eq_iff}
use vibe_connect.Base.{
  ℕ, ◌≡◌, ◌≢◌, ◌↔◌, ◌⊎◌, inl, inr, refl, ap, sym, ◌∙◌, suc, Result, Error, ◌==◌, if◌then◌else◌, ◌<◌,
  ◌≤◌, String, true, false, Option, none, some, List, [], ◌∷◌, ok, raise, tunnel_state_error,
  string_eq, contains, length, arith,
}
use vibe_connect.Base.Sets.{
  add, Distinct, contains-add, contains-discard, discard-Distinct, length-discard-le,
}
use vibe_connect.Tunnel.Channels.Outcomes.{with_open, open_channel_cases}
use vibe_connect.Frame.{FrameType, open_session, session_data, resize_pty, close_session}
use vibe_connect.Tunnel.Channels.{
  Channels, new_channels, is_open, is_retired, open_channel, close_channel, require_open,
  apply_to_channel, apply_channel_frame,
}

-- At most `max_sessions` channels are open, none twice, and no open channel is retired.
pub record IsValid (c : Channels) : Type 0 where
  pub within : length c.open_channels ≤ c.max_sessions
  pub distinct : Distinct c.open_channels
  pub apart : (j : String) → is_open c j ≡ true → is_retired c j ≡ false

module _ (i : String) (c : Channels) (v : IsValid c) where
  pub open_channel-IsValid : IsValid (open_channel i c).1
  unfolding open_channel add
  open_channel-IsValid = record {
    within = ground (arith, v.within);
    distinct = ground (arith, v.distinct);
    apart = λ j. ground (arith, v.apart j, contains-add i j c.open_channels, eq_iff j i);
  }

  pub close_channel-IsValid : IsValid (close_channel i c).1
  unfolding close_channel
  close_channel-IsValid = record {
    within = ground (arith, v.within, length-discard-le i c.open_channels);
    distinct = ground (arith, v.distinct, discard-Distinct i c.open_channels v.distinct);
    apart = λ j. ground (
      arith,
      v.apart j,
      contains-discard i j c.open_channels,
      contains-add i j c.retired_channels,
      eq_iff j i,
    );
  }

  require_open-IsValid : IsValid (require_open i c).1
  unfolding require_open
  require_open-IsValid = record {
    within = ground (arith, v.within);
    distinct = ground (arith, v.distinct);
    apart = λ j. ground (arith, v.apart j);
  }

  -- `close_session` requires the channel to be open, then closes it: the test is made twice.
  close_session_lem : (apply_to_channel close_session i c).1 ≡ (close_channel i c).1
  unfolding apply_to_channel
  close_session_lem = ground arith

  pub apply_to_channel-IsValid : (t : FrameType) → IsValid (apply_to_channel t i c).1
  unfolding apply_to_channel
  apply_to_channel-IsValid open_session = open_channel-IsValid
  apply_to_channel-IsValid session_data = require_open-IsValid
  apply_to_channel-IsValid resize_pty = require_open-IsValid
  apply_to_channel-IsValid close_session = rw close_session_lem close_channel-IsValid
  apply_to_channel-IsValid _ = v

unscoped_same : (t : FrameType) (c : Channels) → (apply_channel_frame t none c).1 ≡ c
unfolding apply_channel_frame
unscoped_same t c = ground arith

-- The frames of one tunnel, in order; a refused one leaves the state.
unfoldable pub apply_frames : List (FrameType × Option String) → Channels → Channels
apply_frames [] c = c
apply_frames ((t, i) ∷ frames) c = apply_frames frames (apply_channel_frame t i c).1

apply_channel_frame-IsValid :
    (t : FrameType) (i : Option String) (c : Channels)
    → IsValid c
    → IsValid (apply_channel_frame t i c).1
apply_channel_frame-IsValid t none c v = rw unscoped_same v
apply_channel_frame-IsValid t (some i) c v =
    unfold apply_channel_frame in apply_to_channel-IsValid i c v t

apply_frames-IsValid_from :
    (frames : List (FrameType × Option String)) (c : Channels)
    → IsValid c
    → IsValid (apply_frames frames c)
unfolding apply_frames
apply_frames-IsValid_from [] c v = v
apply_frames-IsValid_from ((t, i) ∷ frames) c v =
    apply_frames-IsValid_from frames (apply_channel_frame t i c).1
      (apply_channel_frame-IsValid t i c v)

pub new_channels-IsValid : (m : ℕ) (c : Channels) → new_channels m ≡ ok c → IsValid c
unfolding new_channels contains
new_channels-IsValid m c h = record {
  within = ground arith;
  distinct = ground arith;
  apart = λ j. ground arith;
}

-- A tunnel's channels stay valid through any frames, accepted or refused: never more than
-- `max_sessions` open, none twice, and none that was retired.
pub apply_frames-IsValid :
    (m : ℕ) (c : Channels) (frames : List (FrameType × Option String))
    → new_channels m ≡ ok c
    → IsValid (apply_frames frames c)
apply_frames-IsValid m c frames h = apply_frames-IsValid_from frames c (new_channels-IsValid m c h)

-- `i` was opened, and nothing else changed.
pub record Opened (i : String) (c d : Channels) : Type 0 where
  pub opened : (j : String) → is_open d j ≡ (if j == i then true else is_open c j)
  pub counted : length d.open_channels ≡ suc (length c.open_channels)
  pub retired_same : d.retired_channels ≡ c.retired_channels
  pub limit_same : d.max_sessions ≡ c.max_sessions

with_open-Opened : (i : String) (c : Channels) → is_open c i ≡ false → Opened i c (with_open i c)
unfolding add
with_open-Opened i c new = record {
  opened = λ j. contains-add i j c.open_channels;
  counted = ground (arith, new);
  retired_same = refl;
  limit_same = refl;
}

fresh_if_ok : (i : String) (c : Channels) → (open_channel i c).0 ≡ ok tt → is_open c i ≡ false
unfolding open_channel
fresh_if_ok i c h = ground arith

ok-ne-raise : (e : Error) → ◌≡◌ {A = Result (Unit {0})} (ok tt) (raise e) → ⊥
ok-ne-raise e h = cc h

open_channel-outcome :
    (i : String) (c : Channels)
    → (((open_channel i c).0 ≡ ok tt) × Opened i c (open_channel i c).1)
      ⊎ (((open_channel i c).0 ≢ ok tt) × ((open_channel i c).1 ≡ c))
open_channel-outcome i c = elim (open_channel_cases i c) [
  | inl (e, h) ↦ inr (λ k. ok-ne-raise e (sym k ∙ ap (λ p. p.0) h), ap (λ p. p.1) h)
  | inr h ↦ inl (ap (λ p. p.0) h, rw h (with_open-Opened i c (fresh_if_ok i c (ap (λ p. p.0) h))))
]

-- open_channel returns exactly when the identifier is not empty, is neither open nor retired, and
-- fewer channels than the limit are open. Where it returns, the channel is open, one more channel
-- is open than before, and every other identifier is open or retired as before; where it raises,
-- nothing changed.
pub open_channel_iff :
    (i : String) (c : Channels)
    → (((open_channel i c).0 ≡ ok tt) ↔ (
        (i ≢ "")
        × (is_open c i ≡ false)
        × (is_retired c i ≡ false)
        × (length c.open_channels < c.max_sessions)))
      × ((((open_channel i c).0 ≡ ok tt) × Opened i c (open_channel i c).1)
          ⊎ (((open_channel i c).0 ≢ ok tt) × ((open_channel i c).1 ≡ c)))
unfolding open_channel
open_channel_iff i c = (
  (
    λ h. (λ e. ground (arith, eq_iff i ""), ground arith, ground arith, ground arith),
    λ h. ground (arith, eq_iff i ""),
  ),
  open_channel-outcome i c,
)

module _ (i : String) where
  retired_step :
      (t : FrameType) (j : Option String) (c : Channels)
      → is_retired c i ≡ true
      → is_retired (apply_channel_frame t j c).1 i ≡ true
  unfolding apply_channel_frame
  retired_step t none c h = ground arith
  retired_step open_session (some j) c h = ground arith
  retired_step session_data (some j) c h = ground arith
  retired_step resize_pty (some j) c h = ground arith
  retired_step close_session (some j) c h = ground (arith, contains-add j i c.retired_channels)
  retired_step _ (some j) c h = h

  retired_through :
      (frames : List (FrameType × Option String)) (c : Channels)
      → is_retired c i ≡ true
      → is_retired (apply_frames frames c) i ≡ true
  unfolding apply_frames
  retired_through [] c h = h
  retired_through ((t, j) ∷ frames) c h =
      retired_through frames (apply_channel_frame t j c).1 (retired_step t j c h)

  refused_if_retired :
      (c : Channels)
      → i ≢ ""
      → is_retired c i ≡ true
      → open_channel i c ≡ (raise (tunnel_state_error "channel_id reuse"), c)
  unfolding open_channel
  refused_if_retired c ne h = ground (arith, eq_iff i "")

  closed_retired :
      (c : Channels) → (close_channel i c).0 ≡ ok tt → is_retired (close_channel i c).1 i ≡ true
  unfolding close_channel
  closed_retired c h = ground (arith, contains-add i i c.retired_channels, eq_iff i i)

  -- The identifier, other than the empty one, of a channel that was closed is retired for good: after any further frames an
  -- attempt to open it again is refused as a reuse and changes nothing.
  pub no_channel_reuse :
      (c : Channels) (frames : List (FrameType × Option String))
      → i ≢ ""
      → (close_channel i c).0 ≡ ok tt
      → let later = apply_frames frames (close_channel i c).1 in
        open_channel i later ≡ (raise (tunnel_state_error "channel_id reuse"), later)
  no_channel_reuse c frames ne h =
      refused_if_retired (apply_frames frames (close_channel i c).1) ne
        (retired_through frames (close_channel i c).1 (closed_retired c h))
