-- ===== src/Wire/V2/Commands.antt =====
-- `parse_command` and `encode_command` of src/wire_v2.rs.
use c37_118_simulator.Prelude.{ℕ, ◌<◌, ◌≡◌, ◌↔◌, ap, some, List, length, get_or, arith}
use c37_118_simulator.Wire.Bytes.{IsU16, be16, be16-All, from_be16}
use c37_118_simulator.Wire.Frame.{Timestamp, IsTimestamp, FrameView, ok}
use c37_118_simulator.Wire.Image.{Layout, Fits, image}
use c37_118_simulator.Wire.Image
use c37_118_simulator.Wire.V2.{
  Command, CommandRequest, parse, parse_command, frame_type, version, idcode, encode_command,
  code_of_command, command_of_code, stop,
}
use c37_118_simulator.Wire.V2.Parse.{command_of_code-code_of_command, command_of_code_sound}
use c37_118_simulator.Wire.V2.RoundTrip.{
  layout, Decodes, encode_frame-image, parse-image, image-Decodes, layout-Fits,
}

-- The command code of a frame.
abbrev code_field : FrameView → ℕ
code_field view = from_be16 (get_or view.bytes 14 0) (get_or view.bytes 15 0)

-- What a frame must be to carry the request `r`.
pub record Carries (view : FrameView) (r : CommandRequest) : Type 0 where
  pub has_version : version view ≡ 2
  pub has_type : frame_type view ≡ 4
  pub has_size : length view.bytes ≡ 18
  pub has_code : code_field view ≡ code_of_command r.command
  pub has_idcode : idcode view ≡ r.idcode

parse_command_sound :
    (view : FrameView) (r : CommandRequest) → parse_command view ≡ ok r → Carries view r
unfolding parse_command
parse_command_sound view r h = ground (arith, command_of_code_sound (code_field view) r.command)

parse_command_complete :
    (view : FrameView) (r : CommandRequest) → Carries view r → parse_command view ≡ ok r
unfolding parse_command
parse_command_complete view r c =
    ground (arith, command_of_code-code_of_command r.command, ap command_of_code c.has_code)

-- `parse_command` answers a request exactly when the frame is a command frame of version 2 and of
-- eighteen bytes whose code is that of the request's command and whose IDCODE is the request's.
pub parse_command_iff :
    (view : FrameView) (r : CommandRequest) → (parse_command view ≡ ok r) ↔ Carries view r
parse_command_iff view r = (parse_command_sound view r, parse_command_complete view r)

code-IsU16 : (c : Command) → code_of_command c < 65536
code-IsU16 stop = omega arith
code-IsU16 _ = omega arith

image-code :
    (id code : ℕ) (ts : Timestamp)
    → IsU16 code
    → code_field (record { bytes = image (layout 4 id ts (be16 code)) }) ≡ code
unfolding image
image-code id code ts h = omega arith

-- For every stream and command, and a time that fits the frame, `encode_command` returns a frame
-- that parses, and `parse_command` reads the same stream and command from it.
pub parse_command-encode_command :
    (id : ℕ) (c : Command) (ts : Timestamp)
    → IsU16 id
    → IsTimestamp ts
    → (frame : List ℕ) × (encode_command id c ts ≡ some frame)
      × (parse frame ≡ ok (record { bytes = frame }))
      × (parse_command (record { bytes = frame }) ≡ ok (record { idcode = id; command = c }))
unfolding encode_command parse
parse_command-encode_command id c ts hid hts = (
  image l,
  encode_frame-image 4 id ts content (omega arith),
  parse-image 4 id ts content 65535 (omega arith) fits (omega arith),
  parse_command_complete (record { bytes = image l }) _
      (record {
        has_version = d.has_version;
        has_type = d.has_type;
        has_size = Image.length-image l;
        has_code = image-code id (code_of_command c) ts (code-IsU16 c);
        has_idcode = d.has_idcode;
      }),
)
  where
    content : List ℕ
    content = be16 (code_of_command c)

    l : Layout
    l = layout 4 id ts content

    fits : Fits l
    fits =
        layout-Fits 4 id ts content (omega arith) hid hts (be16-All (code_of_command c))
          (omega arith)

    d : Decodes (record { bytes = image l }) 4 id ts content
    d = image-Decodes 4 id ts content (omega arith) fits
