-- ===== src/Wire/V3/RoundTrip.antt =====
-- The frames that src/wire_v3.rs encodes are those that it parses, field by field.
use c37_118_simulator.Prelude.{
  ℕ, ◌+◌, ◌-◌, ◌*◌, ◌%◌, ◌^◌, ◌≤◌, ◌<◌, ◌≡◌, refl, sym, ap, ap₂, ◌∙◌, true, List, [], ◌∷◌, ◌++◌,
  some, none, length, take, drop, replicate, bit_or, arith, ==_iff, ◌==◌, length-append,
  ltb-eq-false, if◌then◌else◌, All,
}
use c37_118_simulator.Prelude.Bits.{holds_below, holds_below_lem, bit_and_nibble}
use c37_118_simulator.Wire.Bytes.{IsByte, IsU16}
use c37_118_simulator.Wire.Frame.{Timestamp, IsTimestamp, FrameView, ok}
use c37_118_simulator.Wire.Crc.{seal}
use c37_118_simulator.Wire.Image.{Layout, Fits, frame_size, payload, image}
use c37_118_simulator.Wire.Image
use c37_118_simulator.Wire.V3.{
  parse_with_limit, frame_type, version, stream_id, timestamp, body, write_common, blank_frame,
  encode_frame,
}
use c37_118_simulator.Wire.V3.Parse.{parse_with_limit_accepts}

-- The layout of a version 3 frame.
abbrev pub layout : ℕ → ℕ → Timestamp → List ℕ → Layout
layout frame_type idcode timestamp body = record {
  first = bit_or (frame_type * 2 ^ 4 % 256) 3;
  idcode = idcode;
  time = timestamp;
  quality = 0;
  body = body;
}

first_byte_table : holds_below (λ t. bit_or (t * 2 ^ 4 % 256) 3 == t * 16 + 3) 16 ≡ true
unfolding holds_below
first_byte_table = refl

pub first_byte : (t : ℕ) → t < 16 → bit_or (t * 2 ^ 4 % 256) 3 ≡ t * 16 + 3
first_byte t h = (==_iff _ _).0 (holds_below_lem _ 16 first_byte_table t h)

pub write_common_lem :
    (output : List ℕ) (t id : ℕ) (ts : Timestamp)
    → 14 ≤ length output
    → write_common output t id ts
      ≡ Image.header (length output % 65536) (layout t id ts []) ++ drop 14 output
unfolding write_common
write_common_lem (a ∷ b ∷ c ∷ d ∷ e ∷ f ∷ g ∷ h ∷ i ∷ j ∷ k ∷ l ∷ m ∷ n ∷ rest) t id ts long = refl
write_common_lem _ t id ts long = absurd (omega arith)

blank_frame_lem : (body : List ℕ) → blank_frame body ≡ replicate 14 0 ++ (body ++ 0 ∷ 0 ∷ [])
unfolding blank_frame
blank_frame_lem body =
    ap₂ (λ short n. if short then take (16 + length body) zeros else (zeros ++ replicate n 0))
      (ltb-eq-false (16 + length body) (length zeros) (omega arith)) room
  where
    zeros : List ℕ
    zeros = replicate 14 0 ++ body

    room : 16 + length body - length zeros ≡ 2
    room = omega arith

-- The writes of `encode_frame` produce the frame of its layout.
pub encode_frame-image :
    (t id : ℕ) (ts : Timestamp) (body : List ℕ)
    → 16 + length body < 65536
    → encode_frame t id ts body ≡ some (image (layout t id ts body))
unfolding encode_frame
encode_frame-image t id ts body fits =
    ap₂ (λ big f. if big then none else some (seal f (16 + length body - 2)))
      (ltb-eq-false 65535 (16 + length body) (omega arith)) written
    ∙ ap some (Image.seal-image (layout t id ts body) 0 0)
  where
    blank : List ℕ
    blank = replicate 14 0 ++ (body ++ 0 ∷ 0 ∷ [])

    size : length blank % 65536 ≡ 16 + length body
    size = omega (arith, length-append body (0 ∷ 0 ∷ []))

    written :
        write_common (blank_frame body) t id ts
        ≡ Image.header (16 + length body) (layout t id ts body) ++ (body ++ 0 ∷ 0 ∷ [])
    written =
        ap (λ o. write_common o t id ts) (blank_frame_lem body)
        ∙ write_common_lem blank t id ts (omega arith)
        ∙ ap (λ n. Image.header n (layout t id ts body) ++ (body ++ 0 ∷ 0 ∷ [])) size

pub parse-image :
    (t id : ℕ) (ts : Timestamp) (body : List ℕ) (maximum_size : ℕ)
    → t < 16
    → Fits (layout t id ts body)
    → 16 + length body ≤ maximum_size
    → parse_with_limit (image (layout t id ts body)) maximum_size
      ≡ ok (record { bytes = image (layout t id ts body) })
unfolding image
parse-image t id ts body maximum_size low fits bounded =
    parse_with_limit_accepts (image l) maximum_size (record {
      long = omega (arith, Image.length-image l);
      sync = refl;
      declared = Image.image_size l fits ∙ sym (Image.length-image l);
      bounded = omega (arith, Image.length-image l);
      checked = Image.checksum_matches-image l fits;
    })
  where
    l : Layout
    l = layout t id ts body

-- The fields that the accessors read from a frame.
pub record Decodes (view : FrameView) (t id : ℕ) (ts : Timestamp) (content : List ℕ) : Type 0 where
  pub has_type : frame_type view ≡ t
  pub has_version : version view ≡ 3
  pub has_idcode : stream_id view ≡ id
  pub has_timestamp : timestamp view ≡ ts
  pub has_body : body view ≡ content

pub image-Decodes :
    (t id : ℕ) (ts : Timestamp) (content : List ℕ)
    → t < 16
    → Fits (layout t id ts content)
    → Decodes (record { bytes = image (layout t id ts content) }) t id ts content
unfolding image frame_type version stream_id timestamp body
image-Decodes t id ts content low fits = record {
  has_type = omega (arith, first_byte t low);
  has_version = omega (arith, first_byte t low, bit_and_nibble (bit_or (t * 2 ^ 4 % 256) 3));
  has_idcode = omega (arith, fits.idcode_fits);
  has_timestamp = ground (arith, fits.time_fits);
  has_body = Image.image_body (layout t id ts content);
}

pub layout-Fits :
    (t id : ℕ) (ts : Timestamp) (content : List ℕ)
    → t < 16
    → IsU16 id
    → IsTimestamp ts
    → All IsByte content
    → 16 + length content < 65536
    → Fits (layout t id ts content)
layout-Fits t id ts content low hid hts hb size = record {
  first_byte = omega (arith, first_byte t low);
  idcode_fits = hid;
  time_fits = hts;
  quality_byte = omega arith;
  body_bytes = hb;
  size_fits = size;
}

-- Whatever the type, the stream, the time and the body, if they fit their fields and the frame its
-- size field, then `encode_frame` returns a frame of the declared size, every limit that is not
-- below that size lets it parse, and the accessors read back what was encoded.
pub parse-encode_frame_v3 :
    (t id : ℕ) (ts : Timestamp) (content : List ℕ) (maximum_size : ℕ)
    → t < 16
    → IsU16 id
    → IsTimestamp ts
    → All IsByte content
    → 16 + length content < 65536
    → 16 + length content ≤ maximum_size
    → (frame : List ℕ) × (encode_frame t id ts content ≡ some frame)
      × (length frame ≡ 16 + length content)
      × (parse_with_limit frame maximum_size ≡ ok (record { bytes = frame }))
      × Decodes (record { bytes = frame }) t id ts content
parse-encode_frame_v3 t id ts content maximum_size low hid hts hb size bounded = (
  image l,
  encode_frame-image t id ts content size,
  Image.length-image l,
  parse-image t id ts content maximum_size low fits bounded,
  image-Decodes t id ts content low fits,
)
  where
    l : Layout
    l = layout t id ts content

    fits : Fits l
    fits = layout-Fits t id ts content low hid hts hb size
