-- ===== src/Tunnel/Backpressure.antt =====
-- server/tunnel.py: `TunnelBackpressure`, the bytes that wait for a slow channel. `drain`'s count
-- is a natural: its check for a negative count has no case here.
use vibe_connect.Base.{
  ℕ, ◌≡◌, ◌≤◌, ◌+◌, ◌-◌, List, [], ◌∷◌, Result, ok, tunnel_state_error, ltb, leb, if◌then◌else◌,
  length, arith,
}
use vibe_connect.Base.Action.{Action, raise_if, modify, ◌>>=◌, ◌>>◌}

pub record Backpressure : Type 0 where
  pub max_pending_bytes : ℕ
  pub pending_bytes : ℕ

unfoldable pub new_backpressure : ℕ → Result Backpressure
new_backpressure max_pending_bytes =
    if leb max_pending_bytes 0
    then Result.raise (tunnel_state_error "max_pending_bytes must be positive")
    else ok (record { max_pending_bytes = max_pending_bytes; pending_bytes = 0 })

unfoldable pub queue : List ℕ → Action Backpressure (Unit {0})
unfolding ◌>>=◌
queue payload b =
    (raise_if (ltb b.max_pending_bytes (b.pending_bytes + length payload))
          (tunnel_state_error "downstream backpressure limit exceeded")
        >> modify (λ b. record b { pending_bytes = b.pending_bytes + length payload }))
      b

-- `max(0, pending - byte_count)`
unfoldable pub drain : ℕ → Backpressure → Backpressure
drain byte_count b = record b { pending_bytes = b.pending_bytes - byte_count }

pub data Traffic : Type 0 where
  queued : List ℕ → Traffic
  drained : ℕ → Traffic

-- Any sequence of calls; a refused `queue` leaves the count.
unfoldable pub traffic : List Traffic → Backpressure → Backpressure
unfolding queue drain
traffic [] b = b
traffic (queued payload ∷ rest) b = traffic rest (queue payload b).1
traffic (drained n ∷ rest) b = traffic rest (drain n b)

module _ (m : ℕ) where
  abbrev Bounded : Backpressure → Type 0
  Bounded b = (b.pending_bytes ≤ m) × (b.max_pending_bytes ≡ m)

  queue-Bounded : (payload : List ℕ) (b : Backpressure) → Bounded b → Bounded (queue payload b).1
  unfolding queue
  queue-Bounded payload b h = ground arith

  traffic-Bounded : (ts : List Traffic) (b : Backpressure) → Bounded b → Bounded (traffic ts b)
  unfolding traffic
  traffic-Bounded [] b h = h
  traffic-Bounded (queued payload ∷ rest) b h =
      traffic-Bounded rest (queue payload b).1 (queue-Bounded payload b h)
  traffic-Bounded (drained n ∷ rest) b h = traffic-Bounded rest (drain n b) (omega arith)

-- From a new object, whatever is queued and drained, the waiting bytes stay within the limit, and
-- the limit is the one that was given.
pub traffic_bounded :
    (m : ℕ) (b : Backpressure) (ts : List Traffic)
    → new_backpressure m ≡ ok b
    → ((traffic ts b).pending_bytes ≤ m) × ((traffic ts b).max_pending_bytes ≡ m)
unfolding new_backpressure
traffic_bounded m b ts h = traffic-Bounded m ts b (ground arith, ground arith)
