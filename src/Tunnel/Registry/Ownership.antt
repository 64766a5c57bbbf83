-- ===== src/Tunnel/Registry/Ownership.antt =====
-- ActiveTunnelRegistry: who owns an agent's slot, through any sequence of calls.
use vibe_connect.Base.{
  ℕ, ◌≡◌, ◌≢◌, ◌⊎◌, String, some, List, [], ◌∷◌, arith, nat_eq, string_eq, nat_beq_iff,
}
use vibe_connect.Base.Dict.{get, get-put, get-pop}
use vibe_connect.Tunnel.Registry.{Registry, connect, disconnect, revoke}
use text.Mathlib.TextEquality.{eq_iff}

-- A call of one of the registry's methods; a raise changes nothing.
pub data Call : Type 0 where
  connects disconnects : ℕ → String → Call
  revokes : ℕ → Call

unfoldable pub call : Call → Registry → Registry
call (connects a c) active = (connect a c active).1
call (disconnects a c) active = disconnect a c active
call (revokes a) active = (revoke a active).1

unfoldable pub calls : List Call → Registry → Registry
unfolding call
calls [] active = active
calls (k ∷ ks) active = calls ks (call k active)

-- The call neither revokes the agent nor disconnects it under that connection.
abbrev pub Spares : ℕ → String → Call → Type 0
Spares a c (connects b d) = Unit
Spares a c (disconnects b d) = (b ≢ a) ⊎ (d ≢ c)
Spares a c (revokes b) = b ≢ a

abbrev pub AllSpare : ℕ → String → List Call → Type 0
AllSpare a c [] = Unit
AllSpare a c (k ∷ ks) = Spares a c k × AllSpare a c ks

module _ (a : ℕ) (c : String) where
  call-keeps_owner :
      (k : Call) (active : Registry)
      → Spares a c k
      → get a active ≡ some c
      → get a (call k active) ≡ some c
  unfolding call connect disconnect revoke
  call-keeps_owner (connects b d) active h e =
      ground (arith, get-put b a d active, nat_beq_iff b a, eq_iff c d)
  call-keeps_owner (disconnects b d) active h e =
      ground (arith, get-pop b a active, nat_beq_iff b a, eq_iff c d)
  call-keeps_owner (revokes b) active h e = ground (arith, get-pop b a active, nat_beq_iff b a)

  -- A connection that owns an agent's slot keeps it through every sequence of calls, successful or
  -- refused, that neither disconnects the agent under that connection nor revokes the agent.
  pub calls-keep_owner :
      (ks : List Call) (active : Registry)
      → AllSpare a c ks
      → get a active ≡ some c
      → get a (calls ks active) ≡ some c
  unfolding calls
  calls-keep_owner [] active h e = e
  calls-keep_owner (k ∷ ks) active h e =
      calls-keep_owner ks (call k active) h.1 (call-keeps_owner k active h.0 e)
