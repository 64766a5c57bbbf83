-- ===== src/Enrollment/Store.antt =====
-- server/enrollment.py: `InMemoryEnrollmentStore`. A token is its hash, an instant a number of
-- microseconds in UTC.
pub mod SingleUse
pub mod Replacement
use vibe_connect.Base.{
  ℕ, String, Bool, true, false, not, ◌&&◌, ◌||◌, Option, none, some, List, [], ◌∷◌, leb, ◌==◌, ◌!=◌,
  string_eq, nat_eq, is_none, if◌then◌else◌,
}
use vibe_connect.Base.Dict.{Dict, get, put}

pub record EnrollmentTokenRecord : Type 0 where
  pub token_hash : String
  pub node_name : String
  pub labels : List String
  pub node_ssh_host_public_key : String

pub record StoredAgent : Type 0 where
  pub agent_id : ℕ
  pub node_name : String
  pub labels : List String
  pub x509_public_key : String
  pub node_ssh_host_public_key : String
  pub tunnel_secret_hash : String
  pub cert_serial : String
  pub cert_expires_at : ℕ

-- the dict that stands for a token's row
pub record TokenRow : Type 0 where
  pub node_name : String
  pub labels : List String
  pub node_ssh_host_public_key : String
  pub created_by : String
  pub expires_at : ℕ
  pub used : Bool
  pub used_at : Option ℕ
  pub disabled_at : Option ℕ

pub record EnrollmentStore : Type 0 where
  pub tokens : Dict String TokenRow
  pub agents : Dict ℕ StoredAgent

abbrev pub empty_store : EnrollmentStore
empty_store = record { tokens = []; agents = [] }

abbrev pub is_active_for : String → TokenRow → Bool
is_active_for node_name row = row.node_name == node_name && not row.used && is_none row.disabled_at

unfoldable pub disable_row : String → ℕ → TokenRow → TokenRow
disable_row node_name now row =
    if is_active_for node_name row then record row { disabled_at = some now } else row

unfoldable pub disable_rows : String → ℕ → Dict String TokenRow → Dict String TokenRow
unfolding disable_row
disable_rows node_name now [] = []
disable_rows node_name now ((h, row) ∷ rows) =
    (h, disable_row node_name now row) ∷ disable_rows node_name now rows

abbrev pub new_row : String → List String → String → String → ℕ → TokenRow
new_row node_name labels node_ssh_host_public_key created_by expires_at = record {
  node_name = node_name;
  labels = labels;
  node_ssh_host_public_key = node_ssh_host_public_key;
  created_by = created_by;
  expires_at = expires_at;
  used = false;
  used_at = none;
  disabled_at = none;
}

-- `now` is the time of the call.
unfoldable pub create_enrollment_token :
    String → String → List String → String → String → ℕ → ℕ → EnrollmentStore → EnrollmentStore
unfolding disable_rows
create_enrollment_token token_hash node_name labels host_key created_by expires_at now store =
    record store {
      tokens =
          put token_hash (new_row node_name labels host_key created_by expires_at)
            (disable_rows node_name now store.tokens);
    }

-- The checks of `consume_enrollment_token`.
unfoldable pub is_consumable : String → ℕ → TokenRow → Bool
is_consumable node_name now row =
    not (row.node_name != node_name)
    && not (row.used || not (is_none row.disabled_at))
    && not (leb row.expires_at now)

unfoldable pub record_of : String → String → TokenRow → EnrollmentTokenRecord
record_of token_hash node_name row = record {
  token_hash = token_hash;
  node_name = node_name;
  labels = row.labels;
  node_ssh_host_public_key = row.node_ssh_host_public_key;
}

abbrev pub spend : ℕ → TokenRow → TokenRow
spend now row = record row { used = true; used_at = some now }

unfoldable pub consume_row :
    String
    → String
    → ℕ
    → Option TokenRow
    → EnrollmentStore
    → Option EnrollmentTokenRecord × EnrollmentStore
unfolding is_consumable record_of
consume_row token_hash node_name now none store = (none, store)
consume_row token_hash node_name now (some row) store =
    if is_consumable node_name now row
    then (
      some (record_of token_hash node_name row),
      record store { tokens = put token_hash (spend now row) store.tokens },
    )
    else (none, store)

unfoldable pub consume_enrollment_token :
    String → String → ℕ → EnrollmentStore → Option EnrollmentTokenRecord × EnrollmentStore
unfolding consume_row
consume_enrollment_token token_hash node_name now store =
    consume_row token_hash node_name now (get token_hash store.tokens) store

unfoldable pub persist_agent : StoredAgent → EnrollmentStore → EnrollmentStore
persist_agent agent store = record store { agents = put agent.agent_id agent store.agents }
