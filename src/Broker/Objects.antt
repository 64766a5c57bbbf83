-- ===== src/Broker/Objects.antt =====
-- The consistency of all connection objects, and what keeps it.
use mathlib.Core.Path.{subst}
use vibe_connect.Base.{
  ℕ, ◌≡◌, String, Option, none, some, List, Error, string_eq, nat_eq, ◌==◌, refl, Bool-cases, sym,
  ap, ◌∙◌, inl, inr,
}
use vibe_connect.Base.Action
use vibe_connect.Base.Action.{Action, modify, raise_if, gets, lift, pure, ◌>>=◌, ◌>>◌}
use vibe_connect.Base.Action.Invariants.{Preserves, invariants}
use vibe_connect.Base.Dict.{Dict, get, put, get-put}
use vibe_connect.Frame.{FrameType}
use vibe_connect.Tunnel.Channels.{is_open, require_open}
use vibe_connect.Broker.Platform.{Platform}
use vibe_connect.Broker.State.{BrokerStream, Connection, Broker, on_connection, on_channels, run_on}
use vibe_connect.Broker.Sessions.{
  require, require_connection, require_channel_connection, open_on_connection, retire_on_connection,
  retire_channel, write_frame, open_broker_session, require_open_channel, send_data,
  resize_broker_pty, begin_close,
}
use vibe_connect.Broker.Frames.{feed_adapter}
use vibe_connect.Broker.Consistency.{
  IsConsistent, open_on_connection-IsConsistent, retire_on_connection-IsConsistent,
  feed_adapter-IsConsistent,
}

pub record AllConsistent (b : Broker) : Type 0 where
  pub each : (k : String) (c : Connection) → get k b.objects ≡ some c → IsConsistent c

-- A consistent object in the place of another.
pub put-AllConsistent :
    (k : String) (c : Connection) (objects : Dict String Connection)
    → ((j : String) (d : Connection) → get j objects ≡ some d → IsConsistent d)
    → IsConsistent c
    → (j : String) (d : Connection) → get j (put k c objects) ≡ some d
    → IsConsistent d
put-AllConsistent k c objects h n j d p = elim (Bool-cases (k == j)) [
  | inl same ↦
      let found : some c ≡ some d = rw same at (sym (get-put k j c objects) ∙ p) in
      let e : c ≡ d = cc in subst IsConsistent e n
  | inr other ↦ h j d (rw other at (sym (get-put k j c objects) ∙ p))
]

abbrev pub Kept : {A : Type 0} → Action Broker A → Type 0
Kept = Preserves AllConsistent

module _ {A : Type 0} (k : String) (m : Action Connection A)
    (keep : (c : Connection) → IsConsistent c → IsConsistent (m c).1) where
  run_on-AllConsistent :
      (b : Broker) (o : Option Connection)
      → get k b.objects ≡ o
      → AllConsistent b
      → AllConsistent (run_on k m o b).1
  run_on-AllConsistent b none e h = h
  run_on-AllConsistent b (some c) e h = record {
    each = put-AllConsistent k (m c).1 b.objects h.each (keep c (h.each k c e));
  }

  pub on_connection-Kept : Kept (on_connection k m)
  unfolding on_connection
  on_connection-Kept = record { from = λ b h. run_on-AllConsistent b (get k b.objects) refl h }

pub require-Kept : {A : Type 0} (o : Option A) (e : Error) → Kept (require o e)
unfolding pure Action.raise
require-Kept none e = record { from = λ b h. h }
require-Kept (some a) e = record { from = λ b h. h }

-- A change that leaves the objects alone.
pub modify-Kept :
    (f : Broker → Broker) → ((b : Broker) → (f b).objects ≡ b.objects) → Kept (modify f)
unfolding modify
modify-Kept f same = record {
  from = λ b h. record { each = λ k c p. h.each k c (sym (ap (get k) (same b)) ∙ p) };
}

pub kept_objects : (b : Broker) → b.objects ≡ b.objects
kept_objects b = refl

pub ruleset kept_rules = (invariants, require-Kept, modify-Kept, kept_objects)

require_connection-Kept : (a : ℕ) (i : String) → Kept (require_connection a i)
unfolding require_connection
require_connection-Kept a i = search kept_rules

require_channel_connection-Kept : (i : String) → Kept (require_channel_connection i)
unfolding require_channel_connection
require_channel_connection-Kept i = search kept_rules

require_open_same : (i : String) (c : Connection) → (on_channels (require_open i) c).1 ≡ c
unfolding on_channels require_open
require_open_same i c = elim (Bool-cases (is_open c.channels i)) [
  | inl known ↦ rw known
  | inr unknown ↦ rw unknown
]

requires-Kept : (k i : String) → Kept (on_connection k (on_channels (require_open i)))
requires-Kept k i = on_connection-Kept k _ (λ c h. rw require_open_same h)

opens-Kept : (k i : String) (now : ℕ) → Kept (on_connection k (open_on_connection i now))
opens-Kept k i now = on_connection-Kept k _ (λ c h. open_on_connection-IsConsistent i c h now)

retires-Kept : (k i : String) → Kept (on_connection k (retire_on_connection i))
retires-Kept k i = on_connection-Kept k _ (λ c h. retire_on_connection-IsConsistent i c h)

pub feeds-Kept :
    (k i : String) (f : BrokerStream → BrokerStream) → Kept (on_connection k (feed_adapter i f))
feeds-Kept k i f = on_connection-Kept k _ (λ c h. feed_adapter-IsConsistent i c h f)

pub retire_channel-Kept : (k i : String) → Kept (retire_channel k i)
unfolding retire_channel
retire_channel-Kept k i = search (kept_rules, retires-Kept)

require_open_channel-Kept : (i : String) → Kept (require_open_channel i)
unfolding require_open_channel
require_open_channel-Kept i = search (kept_rules, require_channel_connection-Kept, requires-Kept)

module _ (platform : Platform) (m : ℕ) where
  pub write_frame-Kept :
      (k : String) (t : FrameType) (r : String) (i : Option String) (payload : List ℕ)
      → Kept (write_frame platform m k t r i payload)
  unfolding write_frame
  write_frame-Kept k t r i payload = search kept_rules depth 9

  pub send_data-Kept :
      (i : String) (payload : List ℕ) (r : String) → Kept (send_data platform m i payload r)
  unfolding send_data
  send_data-Kept i payload r = search (kept_rules, require_open_channel-Kept, write_frame-Kept)

  pub resize-Kept :
      (i : String) (w h : ℕ) (r : String) → Kept (resize_broker_pty platform m i w h r)
  unfolding resize_broker_pty
  resize-Kept i w h r = search (kept_rules, require_open_channel-Kept, write_frame-Kept)

  pub begin_close-Kept : (i r : String) → Kept (begin_close platform m i r)
  unfolding begin_close
  begin_close-Kept i r = search (kept_rules, require_open_channel-Kept, write_frame-Kept)

  pub open-Kept :
      (a : ℕ) (i node key user principal : String) (now : ℕ) (r : String)
      → Kept (open_broker_session platform m a i node key user principal now r)
  unfolding open_broker_session
  open-Kept a i node key user principal now r =
      search (kept_rules, require_connection-Kept, opens-Kept, write_frame-Kept) depth 9
