-- ===== src/Replay/Pruning.antt =====
-- prune_replays: the removal of expired recordings. `listed` has the `*.cast` files of the
-- directory in the order of their paths, with the text of the path, its stem, and the time of the
-- last modification; a cutoff before the epoch is 0.
use vibe_connect.Base.{
  ℕ, ◌-◌, ◌*◌, String, Bool, not, none, List, [], ◌∷◌, Result, replay_error, value_error, os_error,
  ltb, leb, length, or_raise, if◌then◌else◌,
}
use vibe_connect.Base.Action.{Action, pure, lift, raise_if, modify, gets, ◌>>=◌, ◌>>◌}
use vibe_connect.Value.{Items, Fields, str, int, pos, list, item, nil, field, end}
use vibe_connect.Audit.Writer.{replay_pruned}
use vibe_connect.Tunnel.Heartbeat.{microseconds}
use vibe_connect.Replay.Storage.{Disk, ReplayPlatform, write_replay_event, unlink}

pub record CastFile : Type 0 where
  pub path : String
  pub stem : String
  pub modified : ℕ

-- The files, and the sessions whose replay pointer was cleared, the last one first.
pub record ReplayArchive : Type 0 where
  pub disk : Disk
  pub cleared : List ℕ

abbrev pub on_archive {ℓ} :
    {A : Type ℓ} → ReplayArchive → Result A × Disk → Result A × ReplayArchive
on_archive a (r, d) = (r, record a { disk = d })

unfoldable pub on_files {ℓ} : {A : Type ℓ} → Action Disk A → Action ReplayArchive A
on_files m a = on_archive a (m a.disk)

unfoldable pub path_items : List String → Items
path_items [] = nil
path_items (path ∷ paths) = item (str path) (path_items paths)

unfoldable pub replay_pruned_audit_metadata : List String → Fields
unfolding path_items
replay_pruned_audit_metadata paths = field "event_type" (str "replay_pruned") (
    field "pruned_count" (int (pos (length paths)))
      (field "replay_paths" (list (path_items paths)) end))

module _ (platform : ReplayPlatform) (clears : List ℕ → ℕ → Bool) where
  -- `session_store.prune_replay_pointer`
  unfoldable pub prune_replay_pointer : ℕ → Action ReplayArchive (Unit {0})
  prune_replay_pointer session_id = do
    cleared ← gets (λ a. clears a.cleared session_id)
    raise_if (not cleared) os_error
    modify λ a. record a { cleared = session_id ∷ a.cleared }

  -- One file of the loop that has expired.
  unfoldable pub prune_file : CastFile → Action ReplayArchive (Unit {0})
  unfolding on_files unlink prune_replay_pointer
  prune_file file = do
    session_id ← lift (or_raise (platform.uuid_of file.stem) (value_error "badly formed"))
    on_files (unlink platform file.path)
    prune_replay_pointer session_id

  unfoldable pub prune_loop : ℕ → List CastFile → Action ReplayArchive (List String)
  prune_loop cutoff [] = pure []
  prune_loop cutoff (file ∷ files) =
      let rest = prune_loop cutoff files in
      if leb cutoff file.modified
      then rest
      else (do prune_file file; pruned ← rest; pure (file.path ∷ pruned))

  unfoldable pub audit_pruned : Bool → List String → Action ReplayArchive (Unit {0})
  unfolding on_files write_replay_event replay_pruned_audit_metadata
  audit_pruned audited [] = pure tt
  audit_pruned audited (path ∷ paths) = on_files (
      write_replay_event platform audited (record {
        event_type = replay_pruned;
        session_id = none;
        metadata = replay_pruned_audit_metadata (path ∷ paths);
      }))

  unfoldable pub prune_replays : List CastFile → ℕ → Bool → ℕ → Action ReplayArchive (List String)
  unfolding prune_loop audit_pruned
  prune_replays listed retention_days audited now = do
    raise_if (ltb retention_days 1) (replay_error "retention_days must be positive")
    pruned ← prune_loop (now - retention_days * 24 * 60 * 60 * microseconds) listed
    audit_pruned audited pruned
    pure pruned
