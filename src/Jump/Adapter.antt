-- ===== src/Jump/Adapter.antt =====
-- TunnelStreamAdapter: the queue of what the node sent, `none` for its end. What is sent to the node
-- goes through the broker, whose calls are the parameters `sends`, `resizes` and `closes`.
use vibe_connect.Base.{
  ℕ, Bool, true, false, ◌&&◌, ◌||◌, Option, none, some, List, [], ◌∷◌, ◌++◌, String, Result, ok,
  raise as failed, jump_error, string_eq, leb, ◌==◌, if◌then◌else◌,
}
use vibe_connect.Base.Action.{Action, pure, lift, raise_if, modify, gets, ◌>>=◌, ◌>>◌}

pub record Adapter : Type 0 where
  pub channel_id : String
  pub incoming : List (Option (List ℕ))
  pub adapter_closed : Bool
  pub eof : Bool

unfoldable pub new_adapter : String → Result Adapter
new_adapter channel_id =
    if channel_id == ""
    then failed (jump_error "channel_id is required")
    else ok (record { channel_id = channel_id; incoming = []; adapter_closed = false; eof = false })

abbrev pub is_empty : List (Option (List ℕ)) → Bool
is_empty [] = true
is_empty (x ∷ xs) = false

-- `queue.get()`: a read of an empty queue waits, which is `none`.
unfoldable pub take_incoming : List (Option (List ℕ)) → Adapter → Option (List ℕ) × Adapter
take_incoming [] a = (none, a)
take_incoming (none ∷ rest) a = (some [], record a { incoming = rest; eof = true })
take_incoming (some payload ∷ rest) a = (some payload, record a { incoming = rest })

unfoldable pub read_adapter : Adapter → Option (List ℕ) × Adapter
unfolding take_incoming
read_adapter a = if a.eof && is_empty a.incoming then (some [], a) else take_incoming a.incoming a

unfoldable pub ensure_adapter_open : Action Adapter (Unit {0})
ensure_adapter_open = do
  closed ← gets (λ a. a.adapter_closed)
  raise_if closed (jump_error "jump channel is closed")

unfoldable pub feed_adapter_data : List ℕ → Action Adapter (Unit {0})
unfolding ensure_adapter_open
feed_adapter_data payload = do
  ensure_adapter_open
  eof ← gets (λ a. a.eof)
  raise_if eof (jump_error "jump channel has reached EOF")
  modify λ a. record a { incoming = a.incoming ++ (some payload ∷ []) }

unfoldable pub feed_adapter_eof : Action Adapter (Unit {0})
feed_adapter_eof = do
  eof ← gets (λ a. a.eof)
  if eof
      then pure tt
      else modify (λ a. record a { incoming = a.incoming ++ (none ∷ []); eof = true })

module _ (sends : String → List ℕ → Result (Unit {0}))
    (resizes : String → ℕ → ℕ → Result (Unit {0})) (closes : String → Result (Unit {0})) where
  unfoldable pub write_adapter : List ℕ → Action Adapter (Unit {0})
  unfolding ensure_adapter_open
  write_adapter payload = do
    ensure_adapter_open
    channel_id ← gets (λ a. a.channel_id)
    lift (sends channel_id payload)

  unfoldable pub resize_adapter : ℕ → ℕ → Action Adapter (Unit {0})
  unfolding ensure_adapter_open
  resize_adapter width height = do
    ensure_adapter_open
    raise_if (leb width 0 || leb height 0) (jump_error "PTY size must be positive")
    channel_id ← gets (λ a. a.channel_id)
    lift (resizes channel_id width height)

  unfoldable pub close_open_adapter : Action Adapter (Unit {0})
  unfolding feed_adapter_eof
  close_open_adapter = do
    modify λ a. record a { adapter_closed = true }
    feed_adapter_eof
    channel_id ← gets (λ a. a.channel_id)
    lift (closes channel_id)

  unfoldable pub close_adapter : Action Adapter (Unit {0})
  unfolding close_open_adapter
  close_adapter = do
    closed ← gets (λ a. a.adapter_closed)
    if closed then pure tt else close_open_adapter
