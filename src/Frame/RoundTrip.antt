-- ===== src/Frame/RoundTrip.antt =====
-- encode_frame and decode_frame against one another.
use text.Mathlib.TextEquality.{eq_iff}
use vibe_connect.Base.{
  ℕ, ◌≡◌, ◌≢◌, ◌<◌, ◌≤◌, ◌+◌, String, Option, none, some, List, ◌++◌, ok, arith, refl, ◌∙◌, length,
  take, drop, take-append, drop-append, length-append, true, string_eq, beq_of_ne, eq_self, nat_eq,
}
use vibe_connect.Value.{dict, str, Fields, get_field, is_flat, Json, IsJson}
use vibe_connect.Frame.{
  FrameType, frame_type_value, frame_type_of, DecodedFrame, frame_header_max_bytes,
  validate_payload_length, optional_str, header_fields, decode_frame_type, decode_channel_id,
  decode_header, split_frame, decode_request_id, decode_payload_length, pack_u32, unpack_u32,
  encode_frame, decode_frame,
}
use vibe_connect.Frame.Pack.{
  unpack_u32-pack_u32, length-pack_u32, take-pack_u32, drop-pack_u32, drop-pack_u32_whole,
}

pub frame_type_of-frame_type_value : (t : FrameType) → frame_type_of (frame_type_value t) ≡ some t
unfolding frame_type_of
frame_type_of-frame_type_value FrameType.auth = refl
frame_type_of-frame_type_value _ = refl

pub header_fields-is_flat :
    (t : FrameType) (r : String) (c : Option String) (n : ℕ)
    → is_flat (header_fields t r c n) ≡ true
unfolding is_flat header_fields get_field
header_fields-is_flat t r none n = refl
header_fields-is_flat t r (some c) n = refl

split_frame_lem :
    (b : List ℕ) (n : ℕ)
    → unpack_u32 (take 4 b) ≡ n
    → 0 < n
    → n ≤ frame_header_max_bytes
    → 4 + n ≤ length b
    → split_frame b ≡ ok (take n (drop 4 b), drop (4 + n) b)
unfolding split_frame
split_frame_lem b n e h k l = rw e (ground arith)

-- Whatever the header says, the frame is cut where the packed length says.
pub split_frame-append :
    (header payload : List ℕ)
    → 0 < length header
    → length header ≤ frame_header_max_bytes
    → split_frame (pack_u32 (length header) ++ (header ++ payload)) ≡ ok (header, payload)
split_frame-append header payload h k =
    split_frame_lem _ n (rw (take-pack_u32, unpack_u32-pack_u32 n (omega arith))) h k framed
    ∙ rw (drop-pack_u32_whole, drop-pack_u32, take-append, drop-append)
  where
    n : ℕ
    n = length header

    framed : 4 + n ≤ length (pack_u32 n ++ (header ++ payload))
    framed = omega (
      arith,
      length-append (pack_u32 n) (header ++ payload),
      length-pack_u32 n,
      length-append header payload,
    )

-- `gs` has the members of the header that `encode_frame` writes.
abbrev SameMembers : Fields → Fields → Type 0
SameMembers fs gs = (key : String) → get_field key gs ≡ get_field key fs

decode_channel_id-optional_str :
    (c : Option String) → decode_channel_id (some (optional_str c)) ≡ ok c
unfolding decode_channel_id
decode_channel_id-optional_str none = refl
decode_channel_id-optional_str (some c) = refl

decode_frame_type-value :
    (t : FrameType) → decode_frame_type (some (str (frame_type_value t))) ≡ ok t
unfolding decode_frame_type
decode_frame_type-value FrameType.auth = refl
decode_frame_type-value _ = refl

module _ (t : FrameType) (r : String) (c : Option String) (payload : List ℕ) where
  abbrev pub written : Fields
  written = header_fields t r c (length payload)

  abbrev pub as_sent : DecodedFrame
  as_sent = record {
    frame = record {
      frame_type = t;
      request_id = r;
      channel_id = c;
      payload_length = length payload;
    };
    payload = payload;
  }

  type_written : decode_frame_type (get_field "type" written) ≡ ok t
  unfolding header_fields get_field
  type_written = decode_frame_type-value t

  request_written : r ≢ "" → decode_request_id (get_field "request_id" written) ≡ ok r
  unfolding header_fields get_field decode_request_id
  request_written ne = rw (beq_of_ne r "" ne)

  channel_written : decode_channel_id (get_field "channel_id" written) ≡ ok c
  unfolding header_fields get_field
  channel_written = decode_channel_id-optional_str c

  length-written : decode_payload_length (get_field "payload_length" written) ≡ ok (length payload)
  unfolding header_fields get_field decode_payload_length
  length-written = refl

  decode_header-written :
      (max_frame_bytes : ℕ) (gs : Fields)
      → SameMembers written gs
      → r ≢ ""
      → validate_payload_length (length payload) max_frame_bytes ≡ ok tt
      → decode_header (some (dict gs)) payload max_frame_bytes ≡ ok as_sent
  unfolding decode_header
  decode_header-written max_frame_bytes gs same ne fits =
      rw (same "type", type_written)
        (rw (same "request_id", request_written ne)
          (rw (same "channel_id", channel_written)
            (rw (same "payload_length", length-written) (rw (fits, eq_self (length payload))))))

module _ (json : Json) (t : FrameType) (r : String) (c : Option String) (payload : List ℕ)
    (max_frame_bytes : ℕ) where
  abbrev pub header : List ℕ
  header = json.dumps (dict (header_fields t r c (length payload)))

  -- The conditions under which the source writes a frame.
  abbrev pub Encodable : Type 0
  Encodable =
      (0 < max_frame_bytes)
      × (length payload ≤ max_frame_bytes)
      × (r ≢ "")
      × (length header ≤ frame_header_max_bytes)

  validate_encodable : Encodable → validate_payload_length (length payload) max_frame_bytes ≡ ok tt
  unfolding validate_payload_length
  validate_encodable h = ground arith

  pub encode_frame_total :
      Encodable
      → encode_frame json t r c payload max_frame_bytes
        ≡ ok (pack_u32 (length header) ++ (header ++ payload))
  unfolding encode_frame
  encode_frame_total (a, b, ne, k) = rw (beq_of_ne r "" ne) (ground arith)

  pub encode_frame_ok :
      (bytes : List ℕ)
      → encode_frame json t r c payload max_frame_bytes ≡ ok bytes
      → Encodable × (bytes ≡ pack_u32 (length header) ++ (header ++ payload))
  unfolding encode_frame
  encode_frame_ok bytes h =
      ((ground arith, ground arith, λ e. ground (arith, eq_iff r ""), ground arith), ground arith)

  -- What `encode_frame` writes, `decode_frame` under the same bound reads back: the type, both
  -- identifiers, the length and the payload, for every codec that reads its own objects back.
  pub decode_frame-encode_frame :
      (bytes : List ℕ)
      → IsJson json
      → encode_frame json t r c payload max_frame_bytes ≡ ok bytes
      → decode_frame json bytes max_frame_bytes ≡ ok (as_sent t r c payload)
  unfolding decode_frame
  decode_frame-encode_frame bytes codec h =
      let ((a, b, ne, k), e) = encode_frame_ok bytes h in
      let (gs, reads, same) =
        codec.reads_back (header_fields t r c (length payload))
          (header_fields-is_flat t r c (length payload)) in
      rw (e, split_frame-append header payload (codec.nonempty _) k, reads)
        (decode_header-written t r c payload max_frame_bytes gs same ne
          (validate_encodable (a, b, ne, k)))
