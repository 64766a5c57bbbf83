-- ===== src/Replay/Expiry.antt =====
-- The files that expire, and what prune_replays keeps.
use vibe_connect.Base.{
  ℕ, ◌≡◌, ◌-◌, ◌*◌, String, Bool, true, false, Option, List, [], ◌∷◌, map, inl, inr, ◌==◌, nat_eq,
  string_eq, contains, if◌then◌else◌, arith, leb, Bool-cases,
}
use vibe_connect.Base.Action.{lift, pure, raise_if, gets, modify, ◌>>=◌}
use vibe_connect.Base.Action.Invariants.{
  Preserves, bind-Preserves, pure-Preserves, raise_if-Preserves,
}
use vibe_connect.Base.Dict.{get, get-pop}
use vibe_connect.Tunnel.Heartbeat.{microseconds}
use vibe_connect.Replay.Storage.{ReplayPlatform, unlink, write_replay_event}
use vibe_connect.Replay.Pruning.{
  CastFile, ReplayArchive, on_files, prune_replay_pointer, prune_file, prune_loop, audit_pruned,
  prune_replays,
}

-- The files that were last modified before the cutoff, and their paths.
unfoldable pub expired_files : ℕ → List CastFile → List CastFile
expired_files cutoff [] = []
expired_files cutoff (file ∷ files) =
    let rest = expired_files cutoff files in if leb cutoff file.modified then rest else file ∷ rest

unfoldable pub expired_paths : ℕ → List CastFile → List String
expired_paths cutoff files = map (λ file. file.path) (expired_files cutoff files)

expired_fresh :
    (cutoff : ℕ) (file : CastFile) (files : List CastFile)
    → leb cutoff file.modified ≡ true
    → expired_paths cutoff (file ∷ files) ≡ expired_paths cutoff files
unfolding expired_paths expired_files
expired_fresh cutoff file files h = rw h

expired_old :
    (cutoff : ℕ) (file : CastFile) (files : List CastFile)
    → leb cutoff file.modified ≡ false
    → expired_paths cutoff (file ∷ files) ≡ file.path ∷ expired_paths cutoff files
unfolding expired_paths expired_files
expired_old cutoff file files h = rw h

not_first :
    (path first : String) (rest : List String)
    → contains (first ∷ rest) path ≡ false
    → ((first == path) ≡ false) × (contains rest path ≡ false)
unfolding contains
not_first path first rest h =
    ground (arith, string_eq.beq_iff path first, string_eq.beq_iff first path)

module _ (platform : ReplayPlatform) (clears : List ℕ → ℕ → Bool) where
  module _ (path : String) (kept : Option (List ℕ)) where
    abbrev pub IsKept : ReplayArchive → Type 0
    IsKept a = get path a.disk.files ≡ kept

    prune_file-IsKept :
        (file : CastFile)
        → (file.path == path) ≡ false
        → Preserves IsKept (prune_file platform clears file)
    unfolding prune_file prune_replay_pointer on_files unlink ◌>>=◌ lift gets modify raise_if pure
    prune_file-IsKept file other = record {
      from = λ a h. ground (arith, get-pop file.path path a.disk.files);
    }

    prune_loop-IsKept :
        (cutoff : ℕ) (files : List CastFile)
        → contains (expired_paths cutoff files) path ≡ false
        → Preserves IsKept (prune_loop platform clears cutoff files)
    unfolding prune_loop expired_paths
    prune_loop-IsKept cutoff [] h = pure-Preserves _ _
    prune_loop-IsKept cutoff (file ∷ files) h = elim (Bool-cases (leb cutoff file.modified)) [
      | inl fresh ↦
          rw fresh
            (prune_loop-IsKept cutoff files (rw (expired_fresh cutoff file files fresh) at h))
      | inr old ↦
          let (other, rest) =
            not_first path file.path (expired_paths cutoff files)
              (rw (expired_old cutoff file files old) at h) in
          rw old (
            bind-Preserves IsKept _ _ (prune_file-IsKept file other) (λ u.
              bind-Preserves IsKept _ _ (prune_loop-IsKept cutoff files rest)
                (λ pruned. pure-Preserves _ _)))
    ]

    audit_pruned-IsKept :
        (audited : Bool) (paths : List String)
        → Preserves IsKept (audit_pruned platform clears audited paths)
    unfolding audit_pruned on_files write_replay_event ◌>>=◌ gets modify raise_if pure
    audit_pruned-IsKept audited [] = record { from = λ a h. h }
    audit_pruned-IsKept audited (p ∷ ps) = record { from = λ a h. ground arith }

    pub prune_replays-IsKept :
        (listed : List CastFile) (retention_days : ℕ) (audited : Bool) (now : ℕ)
        → contains (expired_paths (now - retention_days * 24 * 60 * 60 * microseconds) listed) path
          ≡ false
        → Preserves IsKept (prune_replays platform clears listed retention_days audited now)
    unfolding prune_replays
    prune_replays-IsKept listed retention_days audited now h =
        bind-Preserves IsKept _ _ (raise_if-Preserves IsKept _ _) (λ u.
          bind-Preserves IsKept _ _ (prune_loop-IsKept _ listed h) (λ pruned.
            bind-Preserves IsKept _ _ (audit_pruned-IsKept audited pruned)
              (λ v. pure-Preserves _ _)))
