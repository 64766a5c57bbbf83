-- ===== src/Tunnel/Auth/Renewal.antt =====
-- AgentCertificateRenewer: what a renewal changes in the store.
use vibe_connect.Base.{
  ℕ, ◌≡◌, ◌<◌, String, some, Result, ok, ap, sym, ◌∙◌, >>=-eq-ok, raise_if-then-eq-ok, or_raise,
  or_raise-eq-ok, tunnel_auth_error, eq_self, nat_eq, string_eq, arith, false,
}
use vibe_connect.Base.Dict.{get, put, get-put}
use vibe_connect.Tunnel.Auth.{
  AgentTunnelRecord, TunnelAuthRequest, AgentStore, IssuedAgentCertificate, RenewedAgentCertificate,
  with_certificate, get_agent, update_agent_certificate, may_not_renew, renew, authenticate,
}
use vibe_connect.Tunnel.Auth.Decision.{IsBound, authenticate_iff}

module _ (issue : String → String → ℕ → ℕ → Result IssuedAgentCertificate) (id : ℕ)
    (node key : String) (now : ℕ) (store : AgentStore) where
  -- What a renewal that returned `c` and left `store'` has done.
  pub record Renews (c : RenewedAgentCertificate) (store' : AgentStore) : Type 0 where
    pub old : AgentTunnelRecord
    pub found : get_agent id store ≡ some old
    pub live : may_not_renew old node ≡ false
    pub same_key : c.public_key_pem ≡ key
    pub records :
        store'.records
        ≡ put id (with_certificate key c.cert_serial c.cert_expires_at old) store.records

  update_lem :
      (found : AgentTunnelRecord) (k s : String) (t : ℕ) (store' : AgentStore)
      → get id store.records ≡ some found
      → update_agent_certificate id k s t store ≡ ok store'
      → store'.records ≡ put id (with_certificate k s t found) store.records
  unfolding update_agent_certificate
  update_lem found k s t store' e h = ground arith

  renew-Renews :
      (c : RenewedAgentCertificate) (store' : AgentStore)
      → renew issue id node key now store ≡ ok (c, store')
      → Renews c store'
  unfolding renew
  renew-Renews c store' h =
      let (old, e1, h1) =
        >>=-eq-ok
          (or_raise (get_agent id store) (tunnel_auth_error "agent cannot renew certificate")) _
          h in
      let (live, h2) = raise_if-then-eq-ok (may_not_renew old node) _ _ h1 in
      let (issued, e3, h3) = >>=-eq-ok (issue key node id now) _ h2 in
      let (after, e4, h4) =
        >>=-eq-ok (update_agent_certificate id key issued.serial issued.expires_at store) _ h3 in
      renews_of old issued after (or_raise-eq-ok _ _ e1) live e4 h4
    where
      renews_of :
          (old : AgentTunnelRecord) (issued : IssuedAgentCertificate) (after : AgentStore)
          → get_agent id store ≡ some old
          → may_not_renew old node ≡ false
          → update_agent_certificate id key issued.serial issued.expires_at store ≡ ok after
          → ◌≡◌ {A = Result (RenewedAgentCertificate × AgentStore)}
              (ok (
                record {
                  public_key_pem = key;
                  certificate_pem = issued.certificate_pem;
                  cert_serial = issued.serial;
                  cert_expires_at = issued.expires_at;
                },
                after,
              ))
              (ok (c, store'))
          → Renews c store'
      renews_of old issued after found live e h = record {
        old = old;
        found = found;
        live = live;
        same_key = ground arith;
        records = ground (arith, update_lem old key issued.serial issued.expires_at after found e);
      }

  record_after :
      (c : RenewedAgentCertificate) (store' : AgentStore) (n : Renews c store')
      → get_agent id store' ≡ some (with_certificate key c.cert_serial c.cert_expires_at n.old)
  unfolding get_agent
  record_after c store' n = ap (get id) n.records ∙ get-put id id _ store.records ∙ rw (eq_self id)

  -- After a renewal the agent is authenticated only under the renewed certificate: a request of
  -- this agent that the new store admits carries the new serial number and the new key, for the
  -- node that was named, before the new certificate expires.
  pub renew-authenticate :
      (sha256_hex_text : String → String) (c : RenewedAgentCertificate) (store' : AgentStore)
      (request : TunnelAuthRequest) (later : ℕ) (r : AgentTunnelRecord)
      → renew issue id node key now store ≡ ok (c, store')
      → request.agent_id ≡ id
      → authenticate sha256_hex_text request later store' ≡ ok r
      → (request.cert_serial ≡ c.cert_serial)
        × (request.cert_public_key ≡ key)
        × (request.node_name ≡ node)
        × (later < c.cert_expires_at)
  unfolding with_certificate
  renew-authenticate sha c store' request later r h same admitted =
      let n = renew-Renews c store' h in
      let (stored, bound) = (authenticate_iff sha request later store' r).0 admitted in
      let e = ap (λ i. get_agent i store') (sym same) ∙ stored in
      renewed_only n.old n.live (sym (record_after c store' n) ∙ e) bound
    where
      renewed_only :
          (old : AgentTunnelRecord)
          → may_not_renew old node ≡ false
          → some (with_certificate key c.cert_serial c.cert_expires_at old) ≡ some r
          → IsBound sha request later r
          → (request.cert_serial ≡ c.cert_serial)
            × (request.cert_public_key ≡ key)
            × (request.node_name ≡ node)
            × (later < c.cert_expires_at)
      renewed_only old live e b =
          let q : r ≡ with_certificate key c.cert_serial c.cert_expires_at old = cc in
          let node_kept : old.node_name ≡ node =
            ground (arith, string_eq.beq_iff old.node_name node) in
          (
            sym b.serial ∙ ap (λ x. x.cert_serial) q,
            sym b.public_key ∙ ap (λ x. x.x509_public_key) q,
            sym b.node ∙ ap (λ x. x.node_name) q ∙ node_kept,
            rw (ap (λ x. x.cert_expires_at) q) at b.current,
          )
