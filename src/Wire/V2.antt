-- ===== src/Wire/V2.antt =====
-- src/wire_v2.rs: the frames of IEEE 37.118.2-2011, version 2. A call that panics returns `none`;
-- the debug assertions are hypotheses of the theorems.
pub mod Parse
pub mod RoundTrip
pub mod Commands
use c37_118_simulator.Prelude.{
  ℕ, ◌+◌, ◌-◌, ◌*◌, ◌/◌, ◌%◌, ◌^◌, not, ◌||◌, List, ◌++◌, Option, none, some, length, take, drop,
  get_or, set, copy_at, resize, replicate, bit_and, bit_or, ltb, ◌==◌, if◌then◌else◌,
}
use c37_118_simulator.Wire.Bytes.{be16, be32, from_be16, from_be32}
use c37_118_simulator.Wire.Frame.{
  Timestamp, FrameView, Result, ok, err, too_short, bad_sync, declared_size_too_small,
  declared_size_too_large, incomplete, trailing_bytes, bad_checksum, unsupported_version,
  unexpected_frame_type, invalid_command_size, unsupported_command,
}
use c37_118_simulator.Wire.Crc.{checksum_matches, seal}

abbrev pub frame_type_periodic_data : ℕ
frame_type_periodic_data = 0x0

abbrev pub frame_type_header : ℕ
frame_type_header = 0x1

abbrev pub frame_type_configuration_1 : ℕ
frame_type_configuration_1 = 0x2

abbrev pub frame_type_configuration_2 : ℕ
frame_type_configuration_2 = 0x3

abbrev pub frame_type_command : ℕ
frame_type_command = 0x4

abbrev pub message_time_quality_unknown : ℕ
message_time_quality_unknown = 0x0f

pub data Command : Type 0 where
  stop start header configuration_1 configuration_2 : Command

pub record CommandRequest : Type 0 where
  pub idcode : ℕ
  pub command : Command

-- `FrameView::parse_with_limit`
unfoldable pub parse_with_limit : List ℕ → ℕ → Result FrameView
parse_with_limit bytes maximum_size =
    let declared_size = from_be16 (get_or bytes 2 0) (get_or bytes 3 0) in
    if ltb (length bytes) 16
    then err too_short
    else if not (get_or bytes 0 0 == 0xaa) || not (bit_and (get_or bytes 1 0) 0x80 == 0)
    then err bad_sync
    else if ltb declared_size 16
    then err declared_size_too_small
    else if ltb maximum_size declared_size
    then err declared_size_too_large
    else if ltb (length bytes) declared_size
    then err incomplete
    else if ltb declared_size (length bytes)
    then err trailing_bytes
    else if not (checksum_matches bytes)
    then err bad_checksum
    else ok (record { bytes = bytes })

unfoldable pub parse : List ℕ → Result FrameView
unfolding parse_with_limit
parse bytes = parse_with_limit bytes 65535

-- The accessors of `FrameView`. They index without a test: a parsed frame has sixteen bytes.
unfoldable pub frame_type : FrameView → ℕ
frame_type view = get_or view.bytes 1 0 / 2 ^ 4

unfoldable pub version : FrameView → ℕ
version view = bit_and (get_or view.bytes 1 0) 0x0f

unfoldable pub idcode : FrameView → ℕ
idcode view = from_be16 (get_or view.bytes 4 0) (get_or view.bytes 5 0)

unfoldable pub timestamp : FrameView → Timestamp
timestamp view = record {
  soc = from_be32 (at 6) (at 7) (at 8) (at 9);
  fracsec = from_be32 0 (at 11) (at 12) (at 13);
}
  where
    at : ℕ → ℕ
    at i = get_or view.bytes i 0

unfoldable pub message_time_quality : FrameView → ℕ
message_time_quality view = get_or view.bytes 10 0

-- `&bytes[14..len - 2]`
unfoldable pub body : FrameView → List ℕ
body view = take (length view.bytes - 2 - 14) (drop 14 view.bytes)

-- The codes of the commands, as the match of `parse_command` reads them.
unfoldable pub command_of_code : ℕ → Result Command
command_of_code code =
    if code == 0x0001
    then ok stop
    else if code == 0x0002
    then ok start
    else if code == 0x0003
    then ok header
    else if code == 0x0004
    then ok configuration_1
    else if code == 0x0005
    then ok configuration_2
    else err unsupported_command

abbrev with_idcode : ℕ → Result Command → Result CommandRequest
with_idcode id (ok command) = ok (record { idcode = id; command = command })
with_idcode id (err e) = err e

unfoldable pub parse_command : FrameView → Result CommandRequest
unfolding frame_type version idcode command_of_code
parse_command frame =
    if not (version frame == 2)
    then err unsupported_version
    else if not (frame_type frame == frame_type_command)
    then err unexpected_frame_type
    else if not (length frame.bytes == 18)
    then err invalid_command_size
    else with_idcode (idcode frame)
        (command_of_code (from_be16 (get_or frame.bytes 14 0) (get_or frame.bytes 15 0)))

-- The fourteen header bytes, written over a buffer.
unfoldable pub write_common : List ℕ → ℕ → ℕ → Timestamp → List ℕ
write_common output frame_type idcode timestamp =
    let frame_size = length output % 65536 in
    let output : List ℕ = set output 0 0xaa in
    let output : List ℕ = set output 1 (bit_or (frame_type * 2 ^ 4 % 256) 2) in
    let output : List ℕ = copy_at output 2 (be16 frame_size) in
    let output : List ℕ = copy_at output 4 (be16 idcode) in
    let output : List ℕ = copy_at output 6 (be32 timestamp.soc) in
    let output : List ℕ = set output 10 message_time_quality_unknown in
    copy_at output 11 (drop 1 (be32 timestamp.fracsec))

-- The buffer that the header is written over: fourteen zeros, the body, and room for the checksum.
unfoldable pub blank_frame : List ℕ → List ℕ
blank_frame body = resize (replicate 14 0 ++ body) (16 + length body) 0

unfoldable pub encode_frame : ℕ → ℕ → Timestamp → List ℕ → Option (List ℕ)
encode_frame frame_type idcode timestamp body =
    if ltb 65535 (16 + length body)
    then none
    else some
        (seal (write_common (blank_frame body) frame_type idcode timestamp) (16 + length body - 2))

abbrev pub code_of_command : Command → ℕ
code_of_command stop = 0x0001
code_of_command start = 0x0002
code_of_command header = 0x0003
code_of_command configuration_1 = 0x0004
code_of_command configuration_2 = 0x0005

unfoldable pub encode_command : ℕ → Command → Timestamp → Option (List ℕ)
encode_command idcode command timestamp =
    encode_frame frame_type_command idcode timestamp (be16 (code_of_command command))
