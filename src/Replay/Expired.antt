-- ===== src/Replay/Expired.antt =====
-- What prune_replays removes.
use vibe_connect.Base.{
  ℕ, ◌≡◌, ◌-◌, ◌*◌, String, Bool, true, false, none, some, List, [], ◌∷◌, refl, ap, sym, ◌∙◌,
  Result, ok, inl, inr, nat_eq, string_eq, eq_self, contains, arith, ltb, leb, Bool-cases,
  Option-cases, All,
}
use vibe_connect.Base.Action.{lift, pure, raise_if, gets, modify, ◌>>=◌, bind-eq-ok, raise_if-false}
use vibe_connect.Base.Action.Invariants.{Preserves, bind-Preserves, pure-Preserves}
use vibe_connect.Base.Dict.{get, get-pop}
use vibe_connect.Tunnel.Heartbeat.{microseconds}
use vibe_connect.Replay.Storage.{ReplayPlatform, unlink, write_replay_event}
use vibe_connect.Replay.Pruning.{
  CastFile, ReplayArchive, on_files, prune_replay_pointer, prune_file, prune_loop, audit_pruned,
  prune_replays,
}
use vibe_connect.Replay.Expiry.{expired_files, expired_paths, prune_replays-IsKept}

ok_inj : {a b : List String} → ◌≡◌ {A = Result (List String)} (ok a) (ok b) → a ≡ b
ok_inj h = cc h

module _ (platform : ReplayPlatform) (clears : List ℕ → ℕ → Bool) where
  -- The file is gone, and its session's pointer was cleared.
  abbrev pub IsPruned : ReplayArchive → CastFile → Type 0
  IsPruned a file =
      (get file.path a.disk.files ≡ none)
      × (session_id : ℕ) × (platform.uuid_of file.stem ≡ some session_id)
      × (contains a.cleared session_id ≡ true)

  prune_file-IsPruned :
      (file : CastFile) (a t : ReplayArchive) {u : Unit {0}}
      → prune_file platform clears file a ≡ (ok u, t)
      → IsPruned t file
  unfolding prune_file prune_replay_pointer on_files unlink ◌>>=◌ lift gets modify raise_if pure
      contains
  prune_file-IsPruned file a t h = elim (Option-cases (platform.uuid_of file.stem)) [
    | inl missing ↦ absurd (cc (ap (λ p. p.0) (rw missing at h)))
    | inr (session_id, found) ↦
        let done = rw found at h in
        (
          ground (arith, get-pop file.path file.path a.disk.files, eq_self file.path),
          session_id,
          found,
          ground (arith, eq_self session_id),
        )
  ]

  prune_file_keeps-IsPruned :
      (other file : CastFile) → Preserves (λ a. IsPruned a other) (prune_file platform clears file)
  unfolding prune_file prune_replay_pointer on_files unlink ◌>>=◌ lift gets modify raise_if pure
      contains
  prune_file_keeps-IsPruned other file = record {
    from = λ a h. ground (arith, get-pop file.path other.path a.disk.files);
  }

  audit_pruned_keeps-IsPruned :
      (other : CastFile) (audited : Bool) (paths : List String)
      → Preserves (λ a. IsPruned a other) (audit_pruned platform clears audited paths)
  unfolding audit_pruned on_files write_replay_event ◌>>=◌ gets modify raise_if pure
  audit_pruned_keeps-IsPruned other audited [] = record { from = λ a h. h }
  audit_pruned_keeps-IsPruned other audited (p ∷ ps) = record { from = λ a h. ground arith }

  prune_loop_keeps-IsPruned :
      (other : CastFile) (cutoff : ℕ) (files : List CastFile)
      → Preserves (λ a. IsPruned a other) (prune_loop platform clears cutoff files)
  unfolding prune_loop
  prune_loop_keeps-IsPruned other cutoff [] = pure-Preserves _ _
  prune_loop_keeps-IsPruned other cutoff (file ∷ files) =
      elim (Bool-cases (leb cutoff file.modified)) [
        | inl fresh ↦ rw fresh (prune_loop_keeps-IsPruned other cutoff files)
        | inr old ↦ rw old (
            bind-Preserves _ _ _ (prune_file_keeps-IsPruned other file) (λ u.
              bind-Preserves _ _ _ (prune_loop_keeps-IsPruned other cutoff files)
                (λ pruned. pure-Preserves _ _)))
      ]

  abbrev IsSwept : ℕ → List CastFile → List String → ReplayArchive → Type 0
  IsSwept cutoff files pruned t =
      (pruned ≡ expired_paths cutoff files) × All (IsPruned t) (expired_files cutoff files)

  -- The rest of the loop after a file that was pruned.
  sweep_first :
      (cutoff : ℕ) (file : CastFile) (files : List CastFile) (a t : ReplayArchive) {u : Unit {0}}
      {pruned : List String}
      → leb cutoff file.modified ≡ false
      → prune_file platform clears file a ≡ (ok u, t)
      → (v : ReplayArchive) → prune_loop platform clears cutoff files t ≡ (ok pruned, v)
      → IsSwept cutoff files pruned v
      → IsSwept cutoff (file ∷ files) (file.path ∷ pruned) v
  unfolding expired_paths expired_files
  sweep_first cutoff file files a t old first v second swept = rw old (
    ap (λ ps. file.path ∷ ps) swept.0,
    (
      rw (ap (λ p. p.1) second) at (
          (prune_loop_keeps-IsPruned file cutoff files).from t
            (prune_file-IsPruned file a t first)),
      swept.1,
    ),
  )

  returned :
      (cutoff : ℕ) (files : List CastFile) (ps : List String) (a : ReplayArchive) {qs : List String}
      {t : ReplayArchive}
      → pure ps a ≡ (ok qs, t)
      → IsSwept cutoff files ps a
      → IsSwept cutoff files qs t
  unfolding pure
  returned cutoff files ps a h swept =
      (sym (ok_inj (ap (λ p. p.0) h)) ∙ swept.0, rw (ap (λ p. p.1) h) at swept.1)

  prune_loop-IsSwept :
      (cutoff : ℕ) (files : List CastFile) (a t : ReplayArchive) {pruned : List String}
      → prune_loop platform clears cutoff files a ≡ (ok pruned, t)
      → IsSwept cutoff files pruned t
  unfolding prune_loop expired_paths expired_files pure
  prune_loop-IsSwept cutoff [] a t h = (sym (ok_inj (ap (λ p. p.0) h)), tt)
  prune_loop-IsSwept cutoff (file ∷ files) a t h = elim (Bool-cases (leb cutoff file.modified)) [
    | inl fresh ↦ rw fresh (prune_loop-IsSwept cutoff files a t (rw fresh at h))
    | inr old ↦
        let (_, a1, first, h1) = bind-eq-ok _ _ (rw old at h) in
        let (pruned, a2, second, h2) = bind-eq-ok _ _ h1 in
        let swept = prune_loop-IsSwept cutoff files a1 a2 second in
        returned cutoff (file ∷ files) (file.path ∷ pruned) a2 h2
          (sweep_first cutoff file files a a1 old first a2 second swept)
  ]

pair_of {ℓ κ} : {A : Type ℓ} {S : Type κ} (p : Result A × S) {a : A} → p.0 ≡ ok a → p ≡ (ok a, p.1)
pair_of p h = ap (λ r. (r, p.1)) h

audited-All :
    (platform : ReplayPlatform) (clears : List ℕ → ℕ → Bool) (audited : Bool) (ps : List String)
    (a t : ReplayArchive) {u : Unit {0}}
    → audit_pruned platform clears audited ps a ≡ (ok u, t)
    → (files : List CastFile) → All (IsPruned platform clears a) files
    → All (IsPruned platform clears t) files
audited-All platform clears audited ps a t h [] all = tt
audited-All platform clears audited ps a t h (file ∷ files) all = (
  rw (ap (λ p. p.1) h) at
      ((audit_pruned_keeps-IsPruned platform clears file audited ps).from a all.0),
  audited-All platform clears audited ps a t h files all.1,
)

returned_sweep :
    (platform : ReplayPlatform) (clears : List ℕ → ℕ → Bool) (listed : List CastFile)
    (retention_days : ℕ) (audited : Bool) (now : ℕ) (a t : ReplayArchive) (pruned : List String)
    → prune_replays platform clears listed retention_days audited now a ≡ (ok pruned, t)
    → let cutoff = now - retention_days * 24 * 60 * 60 * microseconds in
      (ltb retention_days 1 ≡ false)
      × (pruned ≡ expired_paths cutoff listed)
      × All (IsPruned platform clears t) (expired_files cutoff listed)
unfolding prune_replays
returned_sweep platform clears listed retention_days audited now a t pruned h =
    let (_, a1, first, h1) = bind-eq-ok _ _ h in
    let (ps, a2, second, h2) = bind-eq-ok _ _ h1 in
    let (_, a3, third, h3) = bind-eq-ok _ _ h2 in
    let cutoff = now - retention_days * 24 * 60 * 60 * microseconds in
    let (paths, all) = prune_loop-IsSwept platform clears cutoff listed a1 a2 second in
    let (same, swept) = returned platform clears cutoff listed ps a3 h3 (
      paths,
      audited-All platform clears audited ps a2 a3 third (expired_files cutoff listed) all,
    ) in
    (raise_if-false (ltb retention_days 1) _ a a1 first, same, swept)

-- In every outcome of prune_replays, which may raise between two files, a path that is not that of
-- a listed file last modified before the cutoff (now less the retention, or the epoch) keeps its
-- contents. Where it returns, the retention is at least one day, the returned paths are those of
-- the expired files in the order of the listing, and each of these files is gone and has a UUID as
-- its stem whose replay pointer was cleared.
pub prune_replays-IsSwept :
    (platform : ReplayPlatform) (clears : List ℕ → ℕ → Bool) (listed : List CastFile)
    (retention_days : ℕ) (audited : Bool) (now : ℕ) (a : ReplayArchive)
    → let cutoff = now - retention_days * 24 * 60 * 60 * microseconds in
      let p = prune_replays platform clears listed retention_days audited now a in
      ((path : String)
        → contains (expired_paths cutoff listed) path ≡ false
        → get path p.1.disk.files ≡ get path a.disk.files)
      × ((pruned : List String)
          → p.0 ≡ ok pruned
          → (ltb retention_days 1 ≡ false)
            × (pruned ≡ expired_paths cutoff listed)
            × All (IsPruned platform clears p.1) (expired_files cutoff listed))
prune_replays-IsSwept platform clears listed retention_days audited now a = (
  λ path other.
      (prune_replays-IsKept platform clears path (get path a.disk.files) listed retention_days
          audited now other).from
        a refl,
  λ pruned h.
      returned_sweep platform clears listed retention_days audited now a _ pruned (pair_of _ h),
)
