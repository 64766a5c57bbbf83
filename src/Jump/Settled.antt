-- ===== src/Jump/Settled.antt =====
-- What the calls of a close leave: the broker without the channel, the row not open.
use vibe_connect.Base.{
  ℕ, ◌≡◌, ◌≢◌, String, Bool, Option, none, some, Result, ok, inl, inr, ap, sym, ◌∙◌, Bool-cases,
  Option-cases, if◌then◌else◌, string_eq, nat_eq, eq_self, arith,
}
use vibe_connect.Base.Action.{Action, bind-eq-ok, ok-injective, pure, gets, modify, raise_if, ◌>>=◌}
use vibe_connect.Base.Dict.{get, get-pop, get-put}
use vibe_connect.Broker.State.{Broker}
use vibe_connect.Broker.Platform.{Platform}
use vibe_connect.Broker.Sessions.{close_broker_session, retire_channel}
use vibe_connect.Jump.World.{World, SessionRow, SessionStatus, status_open, JumpEvent, on_broker}
use vibe_connect.Jump.Store.{is_open_status, close_session_row, statement, update_row, updated}
use vibe_connect.Jump.Opener.{JumpPlatform}
use vibe_connect.Jump.Checks.{audit}
use vibe_connect.Jump.Bridge.{Bridge, on_world}

pub modify-eq-ok {ℓ} :
    {S : Type ℓ} (f : S → S) (s t : S) {u : Unit {0}} → modify f s ≡ (ok u, t) → f s ≡ t
unfolding modify
modify-eq-ok f s t h = ap (λ p. p.1) h

pub close_broker_session-releases :
    (platform : Platform) (max_frame_bytes : ℕ) (channel_id request_id : String) (b b' : Broker)
    {u : Unit {0}}
    → close_broker_session platform max_frame_bytes channel_id request_id b ≡ (ok u, b')
    → get channel_id b'.channel_agents ≡ none
unfolding close_broker_session retire_channel
close_broker_session-releases platform max_frame_bytes channel_id request_id b b' h =
    let (_, b1, _, h1) = bind-eq-ok _ _ h in
    let (_, b2, _, h2) = bind-eq-ok _ _ h1 in
    rw (← modify-eq-ok _ b2 b' h2)
      (get-pop channel_id channel_id b2.channel_agents ∙ rw (eq_self channel_id))

-- The row is missing or no longer open.
abbrev pub IsSettled : ℕ → World → Type 0
IsSettled session_id w =
    (row : SessionRow) → get session_id w.sessions ≡ some row → row.status ≢ status_open

updated-settled :
    (status : SessionStatus) (ended_at : ℕ) (path : String) (hmac : Option String)
    (row : SessionRow)
    → status ≢ status_open
    → (updated status ended_at path hmac row).status ≢ status_open
unfolding updated
updated-settled status ended_at path hmac row h = elim (Bool-cases (is_open_status row.status)) [
  | inl was_open ↦ rw was_open h
  | inr other ↦ rw other (λ e. absurd (cc other))
]

row_of :
    (session_id : ℕ) (row r : SessionRow) (w : Option SessionRow)
    → (if nat_eq.beq session_id session_id then some row else w) ≡ some r
    → row ≡ r
row_of session_id row r w h = some_inj (rw (eq_self session_id) at h)
  where
    some_inj : ◌≡◌ {A = Option SessionRow} (some row) (some r) → row ≡ r
    some_inj e = cc e

update_row-IsSettled :
    (session_id : ℕ) (f : SessionRow → SessionRow) (w : World)
    → ((row : SessionRow) → (f row).status ≢ status_open)
    → IsSettled session_id (update_row session_id f w)
unfolding update_row
update_row-IsSettled session_id f w settles = elim (Option-cases (get session_id w.sessions)) [
  | inl missing ↦ rw missing (λ row found. absurd (cc (sym missing ∙ found)))
  | inr (row, found) ↦ rw found (λ r e s.
      let same = sym (get-put session_id session_id (f row) w.sessions) ∙ e in
      settles row
        (ap (λ q. q.status) (row_of session_id (f row) r (get session_id w.sessions) same) ∙ s))
]

pub close_session_row-IsSettled :
    (answers : ℕ → Bool) (session_id : ℕ) (status : SessionStatus) (ended_at : ℕ) (path : String)
    (hmac : Option String) (w w' : World) {u : Unit {0}}
    → status ≢ status_open
    → close_session_row answers session_id status ended_at path hmac w ≡ (ok u, w')
    → IsSettled session_id w'
unfolding close_session_row
close_session_row-IsSettled answers session_id status ended_at path hmac w w' ends h =
    let (_, w1, _, h1) = bind-eq-ok (statement answers) _ h in
    rw (← modify-eq-ok _ w1 w' h1) (
      update_row-IsSettled session_id (updated status ended_at path hmac) w1
        (λ row. updated-settled status ended_at path hmac row ends))

pub audit-keeps :
    (platform : JumpPlatform) (event : JumpEvent) (w : World)
    → ((audit platform event w).1.broker ≡ w.broker)
      × ((audit platform event w).1.sessions ≡ w.sessions)
unfolding audit ◌>>=◌ gets modify raise_if pure
audit-keeps platform event w = ground arith

pub on_world-ok {ℓ} :
    {A : Type ℓ} (m : Action World A) (b b' : Bridge) (a : A)
    → on_world m b ≡ (ok a, b')
    → (m b.world ≡ (ok a, b'.world)) × (b'.jump ≡ b.jump)
unfolding on_world
on_world-ok {A = A} m b b' a h =
    (ap {B = Result A × World} (λ p. (p.0, p.1.world)) h, sym (ap (λ p. p.1.jump) h))

pub on_broker-ok {ℓ} :
    {A : Type ℓ} (m : Action Broker A) (w w' : World) (a : A)
    → on_broker m w ≡ (ok a, w')
    → (m w.broker ≡ (ok a, w'.broker)) × (w'.sessions ≡ w.sessions)
unfolding on_broker
on_broker-ok {A = A} m w w' a h =
    (ap {B = Result A × Broker} (λ p. (p.0, p.1.broker)) h, sym (ap (λ p. p.1.sessions) h))

pub gets_value {ℓ κ} :
    {S : Type ℓ} {A : Type κ} (f : S → A) (s t : S) (a : A) → gets f s ≡ (ok a, t) → f s ≡ a
unfolding gets
gets_value f s t a h = ok-injective (ap (λ p. p.0) h)

pub same-IsSettled :
    (session_id : ℕ) (w v : World)
    → v.sessions ≡ w.sessions
    → IsSettled session_id w
    → IsSettled session_id v
same-IsSettled session_id w v e h = rw e h
