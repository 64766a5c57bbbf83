-- ===== src/Agent/Loop/Listed.antt =====
-- The agent's connections to the local sshd, those that are open, and the channels that list them.
use vibe_connect.Base.{
  ℕ, ◌≡◌, String, Bool, true, false, not, Option, none, some, List, ◌∷◌, ◌==◌, string_eq, nat_eq,
  if◌then◌else◌, refl, arith, ap, sym, ◌∙◌, Bool-cases, inl, inr, eq_self, eq_of_beq,
}
use vibe_connect.Base.Action.{Action, pure, raise}
use vibe_connect.Base.Action.Invariants.{Preserves}
use vibe_connect.Base.Dict.{Dict, get, put, pop, get-put, get-pop}
use vibe_connect.Agent.Loop.{
  LocalWriter, AgentTunnel, require_channel_id, shut, write_found, write_local, close_local,
  fresh_writer, add_channel,
}

-- A channel that was taken off the list, with its connection closed.
unfoldable pub closed_popped : Option ℕ → AgentTunnel → AgentTunnel
closed_popped none t = t
closed_popped (some number) t = close_local number t

abbrev pub open_of : Option LocalWriter → Bool
open_of none = false
open_of (some w) = not w.closed

-- Whether the connection of this number is open.
abbrev pub stays_open : ℕ → AgentTunnel → Bool
stays_open n t = open_of (get n t.connections)

pub stays_open-close_local :
    (n m : ℕ) (t : AgentTunnel)
    → stays_open n (close_local m t) ≡ (if m == n then false else stays_open n t)
unfolding close_local
stays_open-close_local n m t = rw get-put (elim (Bool-cases (m == n)) [
  | inl same ↦ rw same (shut_closed (get m t.connections))
  | inr other ↦ rw other refl
])
  where
    shut_closed : (o : Option LocalWriter) → open_of (some (shut o)) ≡ false
    shut_closed none = refl
    shut_closed (some w) = refl

pub write_found_lem :
    (n m : ℕ) (payload : List ℕ) (o : Option LocalWriter) (t : AgentTunnel)
    → get m t.connections ≡ o
    → stays_open n (write_found m payload o t) ≡ stays_open n t
unfolding write_found
write_found_lem n m payload none t e = refl
write_found_lem n m payload (some w) t e = rw get-put (elim (Bool-cases (m == n)) [
  | inl same ↦ rw (same, ← eq_of_beq m n same, e) refl
  | inr other ↦ rw other refl
])

pub stays_open-write_local :
    (n m : ℕ) (payload : List ℕ) (t : AgentTunnel)
    → stays_open n (write_local m payload t) ≡ stays_open n t
unfolding write_local
stays_open-write_local n m payload t = write_found_lem n m payload (get m t.connections) t refl

-- Every open connection is that of a listed channel.
pub record Listed (t : AgentTunnel) : Type 0 where
  pub channel_of : (n : ℕ) → stays_open n t ≡ true → (c : String) × (get c t.channels ≡ some n)

abbrev pub Kept : {A : Type 0} → Action AgentTunnel A → Type 0
Kept = Preserves Listed

pub write_found_channels :
    (m : ℕ) (payload : List ℕ) (o : Option LocalWriter) (t : AgentTunnel)
    → (write_found m payload o t).channels ≡ t.channels
unfolding write_found
write_found_channels m payload none t = refl
write_found_channels m payload (some w) t = refl

pub write_local_channels :
    (m : ℕ) (payload : List ℕ) (t : AgentTunnel) → (write_local m payload t).channels ≡ t.channels
unfolding write_local
write_local_channels m payload t = write_found_channels m payload (get m t.connections) t

pub write_local-Listed :
    (m : ℕ) (payload : List ℕ) (t : AgentTunnel) → Listed t → Listed (write_local m payload t)
write_local-Listed m payload t h = record {
  channel_of = λ n o.
      let (c, e) = h.channel_of n (sym (stays_open-write_local n m payload t) ∙ o) in
      (c, ap (get c) (write_local_channels m payload t) ∙ e);
}

pub fresh_channel :
    (c i : String) (n m : ℕ) (d : Dict String ℕ)
    → get i d ≡ none
    → get c d ≡ some n
    → get c (put i m d) ≡ some n
fresh_channel c i n m d new e = rw get-put (elim (Bool-cases (i == c)) [
  | inl same ↦ absurd (cc (rw (← eq_of_beq i c same) at e, new))
  | inr other ↦ rw other e
])

pub add_channel-Listed :
    (i : String) (t : AgentTunnel) → get i t.channels ≡ none → Listed t → Listed (add_channel i t)
unfolding add_channel
add_channel-Listed i t new h = record { channel_of = λ n o. go n (rw get-put at o) }
  where
    go :
        (n : ℕ)
        → open_of (if t.opened == n then some fresh_writer else get n t.connections) ≡ true
        → (c : String) × (get c (put i t.opened t.channels) ≡ some n)
    go n o = elim (Bool-cases (t.opened == n)) [
      | inl same ↦
          (i, get-put i i t.opened t.channels ∙ rw (eq_self i, eq_of_beq t.opened n same) refl)
      | inr other ↦
          let (c, e) = h.channel_of n (rw other at o) in
          (c, fresh_channel c i n t.opened t.channels new e)
    ]

pub numbers_apart : {A : Type 0} (m n : ℕ) → (m == n) ≡ false → some m ≡ some n → A
numbers_apart m n other e = absurd (ground (arith, nat_eq.beq_iff m n))

pub closed_popped-Listed :
    (i : String) (o : Option ℕ) (t : AgentTunnel)
    → get i t.channels ≡ o
    → Listed t
    → Listed (closed_popped o (record t { channels = pop i t.channels }))
unfolding closed_popped
closed_popped-Listed i none t e h = record {
  channel_of = λ n o. let (c, f) = h.channel_of n o in (c, kept n c f);
}
  where
    kept : (n : ℕ) (c : String) → get c t.channels ≡ some n → get c (pop i t.channels) ≡ some n
    kept n c f = rw get-pop (elim (Bool-cases (i == c)) [
      | inl same ↦ absurd (cc (rw (← eq_of_beq i c same) at f, e))
      | inr other ↦ rw other f
    ])
closed_popped-Listed i (some m) t e h = record {
  channel_of = λ n o. go n (rw stays_open-close_local at o);
}
  where
    go :
        (n : ℕ)
        → (if m == n then false else stays_open n t) ≡ true
        → (c : String) × (get c (close_local m (record t { channels = pop i t.channels })).channels
            ≡ some n)
    go n o = elim (Bool-cases (m == n)) [
      | inl same ↦ absurd (cc (rw same at o))
      | inr other ↦
          let (c, f) = h.channel_of n (rw other at o) in
          (
            c,
            unfold close_local in
                (rw get-pop (elim (Bool-cases (i == c)) [
                  | inl same ↦ numbers_apart m n other (sym e ∙ rw (← eq_of_beq i c same) at f)
                  | inr apart ↦ rw apart f
                ])),
          )
    ]

pub require_channel_id-Kept : (o : Option String) → Kept (require_channel_id o)
unfolding require_channel_id raise pure
require_channel_id-Kept none = record { from = λ s h. h }
require_channel_id-Kept (some i) = elim (Bool-cases (i == "")) [
  | inl empty ↦ rw empty (record { from = λ s h. h })
  | inr named ↦ rw named (record { from = λ s h. h })
]

pub sent-Listed :
    (frame : List ℕ) (t : AgentTunnel) → Listed t → Listed (record t { sent = frame ∷ t.sent })
sent-Listed frame t h = record { channel_of = h.channel_of }
