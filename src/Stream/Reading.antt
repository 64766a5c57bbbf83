-- ===== src/Stream/Reading.antt =====
-- The readers against `encode_frame`.
use vibe_connect.Base.{
  ℕ, ◌≡◌, ◌<◌, ◌≤◌, ◌++◌, String, Option, some, List, ok, arith, refl, ap, ◌∙◌, length, take-append,
  drop-append, length-append, ltb, append_assoc, take-append-drop, false,
}
use vibe_connect.Base.Action.{lift, raise_if, bind-eq-ok, raise_if_keeps}
use vibe_connect.Value.{Json, IsJson, get_field}
use vibe_connect.Frame.{
  FrameType, DecodedFrame, decode_object, header_fields, bad_header_length, frame_header_max_bytes,
  encode_frame, decode_frame, pack_u32, unpack_u32,
}
use vibe_connect.Frame.{unpack_u32-pack_u32, length-pack_u32}
use vibe_connect.Frame.RoundTrip.{
  as_sent, written, header, header_fields-is_flat, encode_frame_ok, decode_frame-encode_frame,
}
use vibe_connect.Stream.{
  agent_header_prefix, header_payload_length, readexactly, announced_length, read_one_frame,
  agent_read_one_frame,
}

readexactly-append : (xs rest : List ℕ) → readexactly (length xs) (xs ++ rest) ≡ (ok xs, rest)
unfolding readexactly
readexactly-append xs rest =
    let fits : length xs ≤ length (xs ++ rest) = omega (arith, length-append xs rest) in
    ground (arith, take-append xs rest, drop-append xs rest)

readexactly-pack_u32 :
    (n : ℕ) (rest : List ℕ) → readexactly 4 (pack_u32 n ++ rest) ≡ (ok (pack_u32 n), rest)
readexactly-pack_u32 n rest = rw (length-pack_u32 n) at (readexactly-append (pack_u32 n) rest)

agent_header_prefix-pack_u32 :
    (n : ℕ) (rest : List ℕ)
    → agent_header_prefix (pack_u32 n ++ rest) ≡ (ok (some (pack_u32 n)), rest)
unfolding agent_header_prefix pack_u32
agent_header_prefix-pack_u32 n rest = ground arith

module _ (json : Json) (t : FrameType) (r : String) (c : Option String) (payload : List ℕ)
    (max_frame_bytes : ℕ) (codec : IsJson json) where
  announced_written :
      length payload ≤ max_frame_bytes
      → announced_length max_frame_bytes (get_field "payload_length" (written t r c payload))
        ≡ ok (length payload)
  unfolding announced_length header_fields get_field
  announced_written h = ground arith

  payload_length-written :
      header_payload_length (get_field "payload_length" (written t r c payload))
      ≡ ok (length payload)
  unfolding header_payload_length header_fields get_field
  payload_length-written = refl

  header_fits :
      0 < length (header json t r c payload max_frame_bytes)
      → length (header json t r c payload max_frame_bytes) ≤ frame_header_max_bytes
      → bad_header_length
          (unpack_u32 (pack_u32 (length (header json t r c payload max_frame_bytes))))
        ≡ false
  header_fits h k =
      rw (unpack_u32-pack_u32 (length (header json t r c payload max_frame_bytes)) (omega arith))
        (ground arith)

  -- Under a codec that reads its own objects back, the server's reader takes exactly one frame that
  -- `encode_frame` wrote under its bound, returns what was sent, and leaves what follows for the
  -- next call.
  pub read_one_frame-encode_frame :
      (bytes rest : List ℕ)
      → encode_frame json t r c payload max_frame_bytes ≡ ok bytes
      → read_one_frame json max_frame_bytes (bytes ++ rest) ≡ (ok (as_sent t r c payload), rest)
  unfolding read_one_frame
  read_one_frame-encode_frame bytes rest h =
      let ((a, b, ne, k), e) = encode_frame_ok json t r c payload max_frame_bytes bytes h in
      let (gs, reads, same) =
        codec.reads_back (written t r c payload) (header_fields-is_flat t r c (length payload)) in
      let some_header = codec.nonempty (written t r c payload) in
      let hd : List ℕ = header json t r c payload max_frame_bytes in
      let unpacked : unpack_u32 (pack_u32 (length hd)) ≡ length hd =
        unpack_u32-pack_u32 (length hd) (omega arith) in
      rw (e, append_assoc, append_assoc, readexactly-pack_u32, header_fits some_header k, unpacked)
        (rw
          (
            readexactly-append hd (payload ++ rest),
            reads,
            same "payload_length",
            announced_written b,
          )
          (rw (readexactly-append payload rest) (
            rw (
              decode_frame-encode_frame json t r c payload max_frame_bytes
                (pack_u32 (length hd) ++ (hd ++ payload)) codec (h ∙ ap ok e)))))

  -- Under a codec that reads its own objects back, the agent's reader takes exactly one frame that
  -- `encode_frame` wrote under its bound, returns its bytes, and leaves what follows.
  pub agent_read_one_frame-encode_frame :
      (bytes rest : List ℕ)
      → encode_frame json t r c payload max_frame_bytes ≡ ok bytes
      → agent_read_one_frame json max_frame_bytes (bytes ++ rest) ≡ (ok (some bytes), rest)
  unfolding agent_read_one_frame
  agent_read_one_frame-encode_frame bytes rest h =
      let ((a, b, ne, k), e) = encode_frame_ok json t r c payload max_frame_bytes bytes h in
      let (gs, reads, same) =
        codec.reads_back (written t r c payload) (header_fields-is_flat t r c (length payload)) in
      let some_header = codec.nonempty (written t r c payload) in
      let hd : List ℕ = header json t r c payload max_frame_bytes in
      let unpacked : unpack_u32 (pack_u32 (length hd)) ≡ length hd =
        unpack_u32-pack_u32 (length hd) (omega arith) in
      let small : ltb max_frame_bytes (length payload) ≡ false = ground arith in
      rw
        (
          e,
          append_assoc,
          append_assoc,
          agent_header_prefix-pack_u32,
          header_fits some_header k,
          unpacked,
        )
        (rw
          (
            readexactly-append hd (payload ++ rest),
            reads,
            same "payload_length",
            payload_length-written,
            small,
          )
          (rw (readexactly-append payload rest)))

readexactly-splits : (n : ℕ) (s xs s' : List ℕ) → readexactly n s ≡ (ok xs, s') → s ≡ xs ++ s'
unfolding readexactly
readexactly-splits n s xs s' h = ground (arith, take-append-drop n s)

rejoin :
    (p hd payload : List ℕ) {s s1 s2 s3 s4 s5 s6 rest : List ℕ}
    → s ≡ p ++ s1
    → s1 ≡ s2
    → s2 ≡ hd ++ s3
    → s3 ≡ s4
    → s4 ≡ s5
    → s5 ≡ payload ++ s6
    → s6 ≡ rest
    → s ≡ (p ++ (hd ++ payload)) ++ rest
rejoin p hd payload e1 e2 e3 e4 e5 e6 e7 =
    rw (e1, e2, e3, e4, e5, e6, e7, append_assoc, append_assoc)

-- Whatever the stream holds: a frame that the server's reader returns is what `decode_frame` makes
-- of the bytes that it consumed, and it consumed no more.
pub read_one_frame-consumes :
    (json : Json) (max_frame_bytes : ℕ) (s rest : List ℕ) (d : DecodedFrame)
    → read_one_frame json max_frame_bytes s ≡ (ok d, rest)
    → (p : List ℕ) × (s ≡ p ++ rest) × (decode_frame json p max_frame_bytes ≡ ok d)
unfolding read_one_frame
read_one_frame-consumes json max_frame_bytes s rest d h =
    let (prefix, s1, e1, h1) = bind-eq-ok (readexactly 4) _ h in
    let (u, s2, e2, h2) = bind-eq-ok (raise_if (bad_header_length (unpack_u32 prefix)) _) _ h1 in
    let (hd, s3, e3, h3) = bind-eq-ok (readexactly (unpack_u32 prefix)) _ h2 in
    let (values, s4, e4, h4) = bind-eq-ok (lift (decode_object (json.loads hd))) _ h3 in
    let (n, s5, e5, h5) =
      bind-eq-ok (lift (announced_length max_frame_bytes (get_field "payload_length" values))) _
        h4 in
    let (payload, s6, e6, h6) = bind-eq-ok (readexactly n) _ h5 in
    let joined =
      rejoin prefix hd payload (readexactly-splits 4 s prefix s1 e1) (raise_if_keeps _ _ s1 s2 e2)
        (readexactly-splits (unpack_u32 prefix) s2 hd s3 e3) (ap (λ q. q.1) e4) (ap (λ q. q.1) e5)
        (readexactly-splits n s5 payload s6 e6) (ap (λ q. q.1) h6) in
    (prefix ++ (hd ++ payload), joined, ap (λ q. q.0) h6)
