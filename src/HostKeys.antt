-- ===== src/HostKeys.antt =====
-- server/host_keys.py: the check and the normal form of a node's SSH host key. `importable` is
-- whether `asyncssh.import_public_key` returns.
use vibe_connect.Base.{
  String, Bool, not, List, [], ◌∷◌, Result, ok, raise, value_error, ◌>>◌, raise_if, ◌==◌, string_eq,
}
use vibe_connect.Text.{join, strip, split}

-- `" ".join(key_parts[:2])`, where there are two parts
unfoldable pub two_parts : List String → Result String
unfolding join
two_parts (a ∷ b ∷ rest) = ok (join " " (a ∷ b ∷ []))
two_parts _ = raise (value_error "node sshd host key is invalid")

module _ (importable : String → Bool) where
  unfoldable pub validate_node_ssh_host_public_key : String → Result String
  unfolding strip split two_parts
  validate_node_ssh_host_public_key value = do
    let host_key = strip value
    raise_if (host_key == "") (value_error "node sshd host key is required")
    raise_if (not (importable host_key)) (value_error "node sshd host key is invalid")
    two_parts (split host_key)
