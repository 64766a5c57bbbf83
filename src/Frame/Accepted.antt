-- ===== src/Frame/Accepted.antt =====
-- What holds of every frame that decode_frame accepts, whatever the codec and the bytes.
use text.Mathlib.TextEquality.{eq_iff}
use vibe_connect.Base.{
  ℕ, ◌≡◌, ◌≢◌, ◌<◌, ◌≤◌, ◌+◌, String, Option, none, some, List, ok, arith, ap, raise_if,
  raise_if-eq-ok, length, take, drop, length-drop, >>=-eq-ok, ◌!=◌, nat_eq, false,
}
use vibe_connect.Value.{Value, str, Json, get_field}
use vibe_connect.Frame.{
  FrameType, DecodedFrame, validate_payload_length, split_frame, decode_object, decode_frame_type,
  decode_request_id, decode_channel_id, decode_payload_length, decode_header, unpack_u32,
  decode_frame, frame_header_max_bytes,
}

decode_request_id-nonempty : (v : Option Value) (r : String) → decode_request_id v ≡ ok r → r ≢ ""
unfolding decode_request_id
decode_request_id-nonempty (some (str s)) r h e = ground (arith, eq_iff s "")
decode_request_id-nonempty none r h e = cc
decode_request_id-nonempty (some _) r h e = cc

validate_payload_length-bounds : (n m : ℕ) → validate_payload_length n m ≡ ok tt → (0 < m) × (n ≤ m)
unfolding validate_payload_length
validate_payload_length-bounds n m h = ground arith

-- The identifier is there, and the payload is as long as the header says, within the bound.
abbrev pub IsAccepted : DecodedFrame → List ℕ → ℕ → Type 0
IsAccepted d payload max_frame_bytes =
    (d.payload ≡ payload)
    × (length payload ≡ d.frame.payload_length)
    × (d.frame.payload_length ≤ max_frame_bytes)
    × (0 < max_frame_bytes)
    × (d.frame.request_id ≢ "")

decode_header-IsAccepted :
    (v : Option Value) (payload : List ℕ) (m : ℕ) (d : DecodedFrame)
    → decode_header v payload m ≡ ok d
    → IsAccepted d payload m
unfolding decode_header
decode_header-IsAccepted v payload m d h =
    let (fs, e1, h1) = >>=-eq-ok (decode_object v) _ h in
    let (t, e2, h2) = >>=-eq-ok (decode_frame_type (get_field "type" fs)) _ h1 in
    let (r, e3, h3) = >>=-eq-ok (decode_request_id (get_field "request_id" fs)) _ h2 in
    let (c, e4, h4) = >>=-eq-ok (decode_channel_id (get_field "channel_id" fs)) _ h3 in
    let (n, e5, h5) = >>=-eq-ok (decode_payload_length (get_field "payload_length" fs)) _ h4 in
    let (u, e6, h6) = >>=-eq-ok (validate_payload_length n m) _ h5 in
    let (w, e7, h7) = >>=-eq-ok (raise_if (length payload != n) _) _ h6 in
    accepted t r c n (decode_request_id-nonempty (get_field "request_id" fs) r e3)
      (validate_payload_length-bounds n m e6) (raise_if-eq-ok _ _ e7) h7
  where
    accepted :
        (t : FrameType) (r : String) (c : Option String) (n : ℕ)
        → r ≢ ""
        → (0 < m) × (n ≤ m)
        → (length payload != n) ≡ false
        → ok (record {
          frame = record { frame_type = t; request_id = r; channel_id = c; payload_length = n };
          payload = payload;
        })
          ≡ ok d
        → IsAccepted d payload m
    accepted t r c n ne (a, b) same h =
        (ground arith, ground arith, ground arith, a, λ e. ne (ground arith))

split_frame_ok :
    (b header payload : List ℕ)
    → split_frame b ≡ ok (header, payload)
    → let n = unpack_u32 (take 4 b) in
      (0 < n) × (n ≤ frame_header_max_bytes) × (4 + n ≤ length b) × (payload ≡ drop (4 + n) b)
unfolding split_frame
split_frame_ok b header payload h = (ground arith, ground arith, ground arith, ground arith)

-- A frame that `decode_frame` accepts: its identifier is not empty, its payload is what follows
-- the header, as long as the header says and within the bound, and the bytes are the four of the
-- header's length, the header, which is neither empty nor over the limit, and that payload.
pub decode_frame-IsAccepted :
    (json : Json) (b : List ℕ) (m : ℕ) (d : DecodedFrame)
    → decode_frame json b m ≡ ok d
    → let n = unpack_u32 (take 4 b) in
      IsAccepted d (drop (4 + n) b) m
      × (0 < n)
      × (n ≤ frame_header_max_bytes)
      × (length b ≡ 4 + n + d.frame.payload_length)
unfolding decode_frame
decode_frame-IsAccepted json b m d h =
    let (parts, e, h1) = >>=-eq-ok (split_frame b) _ h in
    let (low, high, fits, rest) = split_frame_ok b parts.0 parts.1 e in
    let good = decode_header-IsAccepted (json.loads parts.0) parts.1 m d h1 in
    (
      rw (← rest) good,
      low,
      high,
      omega (arith, length-drop (4 + unpack_u32 (take 4 b)) b, good.1, ap (length {A = ℕ}) rest),
    )
