-- ===== src/Jump/Delivery.antt =====
-- What a TunnelStreamAdapter delivers.
use vibe_connect.Base.{
  ◌&&◌, ℕ, zero, suc, ◌≡◌, ◌≤◌, ◌++◌, String, true, Option, none, some, List, [], ◌∷◌, refl, Result,
  ok, raise as failed, inl, inr, ap, sym, ◌∙◌, Bool-cases, ◌==◌, string_eq, arith, length,
  append-nil, append_assoc,
}
use vibe_connect.Base.Action.{ok-injective, ◌>>=◌, gets, modify, raise_if, pure, lift}
use vibe_connect.Jump.Adapter.{
  Adapter, new_adapter, is_empty, take_incoming, read_adapter, ensure_adapter_open,
  feed_adapter_data, feed_adapter_eof, close_adapter, close_open_adapter,
}

-- The calls of the broker's side and of the reader, in any order.
pub data Use : Type 0 where
  feed : List ℕ → Use
  feed_end : Use
  read_next : Use
  shut : Use

abbrev pub bytes_in : List (Option (List ℕ)) → List ℕ
bytes_in [] = []
bytes_in (none ∷ xs) = bytes_in xs
bytes_in (some payload ∷ xs) = payload ++ bytes_in xs

abbrev pub or_nothing : Option (List ℕ) → List ℕ
or_nothing none = []
or_nothing (some bytes) = bytes

abbrev pub accepted_bytes : List ℕ → Result (Unit {0}) → List ℕ
accepted_bytes payload (ok u) = payload
accepted_bytes payload (failed e) = []

-- The bytes that were accepted and those that were read, in order, and the adapter.
pub record Traffic : Type 0 where
  pub fed : List ℕ
  pub seen : List ℕ
  pub adapter : Adapter

module _ (closes : String → Result (Unit {0})) where
  abbrev pub used : Use → Traffic → Traffic
  used (feed payload) t =
      let (r, a) = feed_adapter_data payload t.adapter in
      record { fed = t.fed ++ accepted_bytes payload r; seen = t.seen; adapter = a }
  used feed_end t = record t { adapter = (feed_adapter_eof t.adapter).1 }
  used read_next t =
      let (bytes, a) = read_adapter t.adapter in
      record { fed = t.fed; seen = t.seen ++ or_nothing bytes; adapter = a }
  used shut t = record t {
    adapter = (close_adapter (λ c p. ok tt) (λ c w h. ok tt) closes t.adapter).1;
  }

  abbrev pub traffic : List Use → Traffic → Traffic
  traffic [] t = t
  traffic (u ∷ us) t = traffic us (used u t)

  bytes_in-append :
      (xs ys : List (Option (List ℕ))) → bytes_in (xs ++ ys) ≡ bytes_in xs ++ bytes_in ys
  bytes_in-append [] ys = refl
  bytes_in-append (none ∷ xs) ys = bytes_in-append xs ys
  bytes_in-append (some p ∷ xs) ys =
      ap (λ t. p ++ t) (bytes_in-append xs ys) ∙ sym (append_assoc p (bytes_in xs) (bytes_in ys))

  abbrev pub IsFaithful : Traffic → Type 0
  IsFaithful t = t.fed ≡ t.seen ++ bytes_in t.adapter.incoming

  eof-bytes : (a : Adapter) → bytes_in (feed_adapter_eof a).1.incoming ≡ bytes_in a.incoming
  unfolding feed_adapter_eof ◌>>=◌ gets modify pure
  eof-bytes a = elim (Bool-cases a.eof) [
    | inl done ↦ simp done
    | inr more ↦ simp (more, bytes_in-append, append-nil)
  ]

  close-bytes :
      (a : Adapter)
      → bytes_in (close_adapter (λ c p. ok tt) (λ c w h. ok tt) closes a).1.incoming
        ≡ bytes_in a.incoming
  unfolding close_adapter close_open_adapter feed_adapter_eof ◌>>=◌ gets modify pure lift
  close-bytes a = elim (Bool-cases a.adapter_closed) [
    | inl closed ↦ simp closed
    | inr still ↦ elim (Bool-cases a.eof) [
      | inl done ↦ simp (still, done)
      | inr more ↦ simp (still, more, bytes_in-append, append-nil)
    ]
  ]

  feed-bytes :
      (payload : List ℕ) (a : Adapter)
      → bytes_in (feed_adapter_data payload a).1.incoming
        ≡ bytes_in a.incoming ++ accepted_bytes payload (feed_adapter_data payload a).0
  unfolding feed_adapter_data ensure_adapter_open ◌>>=◌ gets modify raise_if
  feed-bytes payload a = elim (Bool-cases a.adapter_closed) [
    | inl closed ↦ simp (closed, append-nil)
    | inr still ↦ elim (Bool-cases a.eof) [
      | inl done ↦ simp (still, done, append-nil)
      | inr more ↦ simp (still, more, bytes_in-append, append-nil)
    ]
  ]

  take-bytes :
      (xs : List (Option (List ℕ))) (a : Adapter)
      → a.incoming ≡ xs
      → or_nothing (take_incoming xs a).0 ++ bytes_in (take_incoming xs a).1.incoming ≡ bytes_in xs
  unfolding take_incoming
  take-bytes [] a e = rw e
  take-bytes (none ∷ xs) a e = refl
  take-bytes (some p ∷ xs) a e = refl

  read-bytes :
      (a : Adapter)
      → or_nothing (read_adapter a).0 ++ bytes_in (read_adapter a).1.incoming ≡ bytes_in a.incoming
  unfolding read_adapter take_incoming
  read-bytes a = elim (Bool-cases (a.eof && is_empty a.incoming)) [
    | inl over ↦ rw over
    | inr more ↦ rw more (take-bytes a.incoming a refl)
  ]

  used-IsFaithful : (u : Use) (t : Traffic) → IsFaithful t → IsFaithful (used u t)
  used-IsFaithful (feed payload) t h =
      rw (feed-bytes payload t.adapter, h)
        (append_assoc t.seen (bytes_in t.adapter.incoming)
          (accepted_bytes payload (feed_adapter_data payload t.adapter).0))
  used-IsFaithful feed_end t h = rw (eof-bytes t.adapter) h
  used-IsFaithful read_next t h =
      h
      ∙ ap (λ x. t.seen ++ x) (sym (read-bytes t.adapter))
      ∙ sym (
          append_assoc t.seen (or_nothing (read_adapter t.adapter).0)
            (bytes_in (read_adapter t.adapter).1.incoming))
  used-IsFaithful shut t h = rw (close-bytes t.adapter) h

  traffic-IsFaithful : (us : List Use) (t : Traffic) → IsFaithful t → IsFaithful (traffic us t)
  traffic-IsFaithful [] t h = h
  traffic-IsFaithful (u ∷ us) t h = traffic-IsFaithful us (used u t) (used-IsFaithful u t h)

abbrev pub then_read : Option (List ℕ) → Option (List ℕ) × Adapter → Option (List ℕ) × Adapter
then_read none (r, a) = (none, a)
then_read (some first) (none, a) = (none, a)
then_read (some first) (some bytes, a) = (some (first ++ bytes), a)

-- The bytes of so many calls of `read` in a row; `none` where one of them waits.
unfoldable pub read_times : ℕ → Adapter → Option (List ℕ) × Adapter
read_times zero a = (some [], a)
read_times (suc n) a = let (first, b) = read_adapter a in then_read first (read_times n b)

abbrev pub drained : Adapter → Adapter
drained a = record a { incoming = [] }

read_at_end : (a : Adapter) → a.eof ≡ true → a.incoming ≡ [] → read_adapter a ≡ (some [], a)
unfolding read_adapter take_incoming
read_at_end a e h = simp (e, h)

read_head :
    (a : Adapter) (payload : List ℕ) (xs : List (Option (List ℕ)))
    → a.incoming ≡ some payload ∷ xs
    → read_adapter a ≡ (some payload, record a { incoming = xs })
unfolding read_adapter take_incoming
read_head a payload xs h = elim (Bool-cases a.eof) [ inl e ↦ simp (e, h) | inr e ↦ simp (e, h) ]

read_mark :
    (a : Adapter) (xs : List (Option (List ℕ)))
    → a.eof ≡ true
    → a.incoming ≡ none ∷ xs
    → read_adapter a ≡ (some [], record a { incoming = xs })
unfolding read_adapter take_incoming
read_mark a xs e h = simp (e, h)

read_times-drains :
    (n : ℕ) (xs : List (Option (List ℕ))) (a : Adapter)
    → a.eof ≡ true
    → a.incoming ≡ xs
    → length xs ≤ n
    → read_times n a ≡ (some (bytes_in xs), drained a)
unfolding read_times
read_times-drains zero [] a e h le = ap (λ ys. (some [], record a { incoming = ys })) h
read_times-drains zero (x ∷ xs) a e h le = absurd (omega arith)
read_times-drains (suc n) [] a e h le =
    rw (read_at_end a e h, read_times-drains n [] a e h (omega arith)) refl
read_times-drains (suc n) (none ∷ xs) a e h le =
    rw
      (read_mark a xs e h, read_times-drains n xs (record a { incoming = xs }) e refl (omega arith))
      refl
read_times-drains (suc n) (some p ∷ xs) a e h le =
    rw
      (read_head a p xs h, read_times-drains n xs (record a { incoming = xs }) e refl (omega arith))
      refl

empty_at :
    (channel_id : String) (a : Adapter) → new_adapter channel_id ≡ ok a → [] ≡ bytes_in a.incoming
unfolding new_adapter
empty_at channel_id a h = elim (Bool-cases (channel_id == "")) [
  | inl missing ↦ absurd (cc (rw missing at h))
  | inr given ↦ ap (λ b. bytes_in b.incoming) (ok-injective (rw given at h))
]

-- For an adapter that was created and then used by any calls of feed_data, feed_eof, read and close
-- in any order: the bytes that feed_data accepted are, in order, those that the reads returned and
-- those that the queue still holds; and where feed_eof or close has marked the end, or a read has
-- passed it, a reader that calls read once for each entry of the queue, or more often, never waits
-- and gets exactly the rest of the accepted bytes.
pub adapter_delivers :
    (closes : String → Result (Unit {0})) (channel_id : String) (a : Adapter) (us : List Use)
    → new_adapter channel_id ≡ ok a
    → let t = traffic closes us (record { fed = []; seen = []; adapter = a }) in
      IsFaithful closes t
      × (t.adapter.eof ≡ true
          → (n : ℕ) → length t.adapter.incoming ≤ n
          → (rest : List ℕ) × (read_times n t.adapter ≡ (some rest, drained t.adapter))
            × (t.fed ≡ t.seen ++ rest))
adapter_delivers closes channel_id a us created =
    let t = traffic closes us (record { fed = []; seen = []; adapter = a }) in
    let faithful =
      traffic-IsFaithful closes us (record { fed = []; seen = []; adapter = a })
        (empty_at channel_id a created) in
    (
      faithful,
      λ e n le. (
        bytes_in t.adapter.incoming,
        read_times-drains n t.adapter.incoming t.adapter e refl le,
        faithful,
      ),
    )
