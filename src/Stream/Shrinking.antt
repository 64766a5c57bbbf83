-- ===== src/Stream/Shrinking.antt =====
-- agent/tunnel.py: a frame that the reader returns takes bytes from the stream.
use vibe_connect.Base.{
  ℕ, ◌≡◌, ◌≤◌, ◌<◌, Option, none, some, List, [], ◌∷◌, ap, arith, length, length-drop, ltb,
  Bool-cases, inl, inr, ok,
}
use vibe_connect.Base.Action.{bind-eq-ok, raise, pure}
use vibe_connect.Base.Action.Invariants.{Preserves, invariants}
use vibe_connect.Value.{Json}
use vibe_connect.Stream.{readexactly, agent_header_prefix, agent_frame_body, agent_read_one_frame}

module _ (bound : ℕ) where
  abbrev IsWithin : List ℕ → Type 0
  IsWithin s = length s ≤ bound

  readexactly-IsWithin : (n : ℕ) → Preserves IsWithin (readexactly n)
  unfolding readexactly raise pure
  readexactly-IsWithin n = record {
    from = λ s h. elim (Bool-cases (ltb (length s) n)) [
      | inl short ↦ rw short (omega (arith, h))
      | inr enough ↦ rw enough (omega (arith, h, length-drop n s))
    ];
  }

  agent_frame_body-IsWithin :
      (json : Json) (max_frame_bytes : ℕ) (prefix : Option (List ℕ))
      → Preserves IsWithin (agent_frame_body json max_frame_bytes prefix)
  unfolding agent_frame_body
  agent_frame_body-IsWithin json max_frame_bytes none = search invariants
  agent_frame_body-IsWithin json max_frame_bytes (some prefix) =
      search (invariants, readexactly-IsWithin) depth 12

agent_header_prefix-shrinks :
    (s s' prefix : List ℕ) → agent_header_prefix s ≡ (ok (some prefix), s') → length s' < length s
unfolding agent_header_prefix raise pure
agent_header_prefix-shrinks [] s' prefix h = absurd (cc (ap (λ p. p.0) h))
agent_header_prefix-shrinks (x ∷ s) s' prefix h = elim (Bool-cases (ltb (length (x ∷ s)) 4)) [
  | inl short ↦ absurd (cc (ap (λ p. p.0) (rw short at h)))
  | inr enough ↦
      let kept = ap (λ p. length p.1) (rw enough at h) in omega (arith, kept, length-drop 4 (x ∷ s))
]

body_shrinks :
    (json : Json) (max_frame_bytes : ℕ) (s s1 s' bytes : List ℕ) (prefix : Option (List ℕ))
    → agent_header_prefix s ≡ (ok prefix, s1)
    → agent_frame_body json max_frame_bytes prefix s1 ≡ (ok (some bytes), s')
    → length s' < length s
unfolding agent_frame_body pure
body_shrinks json max_frame_bytes s s1 s' bytes none e h = absurd (cc (ap (λ p. p.0) h))
body_shrinks json max_frame_bytes s s1 s' bytes (some prefix) e h =
    let less = agent_header_prefix-shrinks s s1 prefix e in
    let within =
      (agent_frame_body-IsWithin (length s1) json max_frame_bytes (some prefix)).from s1
        (omega arith) in
    omega (arith, less, rw (ap (λ p. p.1) h) at within)

pub agent_read_one_frame-shrinks :
    (json : Json) (max_frame_bytes : ℕ) (s s' bytes : List ℕ)
    → agent_read_one_frame json max_frame_bytes s ≡ (ok (some bytes), s')
    → length s' < length s
unfolding agent_read_one_frame
agent_read_one_frame-shrinks json max_frame_bytes s s' bytes h =
    let (prefix, s1, e1, h1) =
      bind-eq-ok agent_header_prefix (agent_frame_body json max_frame_bytes) {s = s} h in
    body_shrinks json max_frame_bytes s s1 s' bytes prefix e1 h1
