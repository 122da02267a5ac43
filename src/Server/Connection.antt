-- ===== src/Server/Connection.antt =====
-- One connection of src/server.rs: its receive buffer, its commands and what it has to send. Only
-- the first of these reads bytes, so a buffer is its array, the bytes in use and the limit.
pub mod Framing
pub mod Handlers
pub mod Loop
pub mod Flush
use c37_118_simulator.Prelude.{
  ℕ, ◌+◌, ◌-◌, ◌*◌, ◌^◌, ◌≡◌, Bool, true, false, not, ◌&&◌, ◌||◌, Option, none, some, List, [], ◌∷◌,
  length, get_or, take, drop, copy_at, replicate, ltb, leb, ◌==◌, if◌then◌else◌,
}
use c37_118_simulator.Scenario.Types.{Instant}
use c37_118_simulator.Wire.Bytes.{from_be16}
use c37_118_simulator.Wire.Frame.{FrameError, Result, ok, err, FrameView, Timestamp}
use c37_118_simulator.Wire.V2 as V2
use c37_118_simulator.Wire.V3 as V3

pub data WireVersion : Type 0 where
  v2 v3 : WireVersion

pub data ServerCommand : Type 0 where
  stop start v2_header v2_configuration_1 v2_configuration_2 v3_capability v3_stream_configuration :
      ServerCommand

pub record BufferedCommandRequest : Type 0 where
  pub idcode : ℕ
  pub command : ServerCommand

pub data ReceivedCommand : Type 0 where
  accepted : BufferedCommandRequest → ReceivedCommand
  rejected : ℕ → WireVersion → ReceivedCommand

pub record ReceiveBuffer : Type 0 where
  pub bytes : List ℕ
  pub length : ℕ
  pub limit : ℕ

-- `Result<Option<ReceivedCommand>, MalformedCommand>`
pub data NextCommand : Type 0 where
  no_command : NextCommand
  malformed : Option ℕ → NextCommand
  command : ReceivedCommand → NextCommand

abbrev pub max_command_frame_bytes : ℕ
max_command_frame_bytes = 4 * 1024

-- `ReceiveBuffer::new`
unfoldable pub new_buffer : ℕ → ReceiveBuffer
new_buffer limit = record { bytes = replicate max_command_frame_bytes 0; length = 0; limit = limit }

unfoldable pub malformed_command : ReceiveBuffer → Option ℕ
malformed_command b =
    if leb 6 b.length then some (from_be16 (get_or b.bytes 4 0) (get_or b.bytes 5 0)) else none

abbrev pub v2_command : V2.Command → ServerCommand
v2_command V2.stop = stop
v2_command V2.start = start
v2_command V2.header = v2_header
v2_command V2.configuration_1 = v2_configuration_1
v2_command V2.configuration_2 = v2_configuration_2

abbrev pub v3_command : V3.Command → ServerCommand
v3_command V3.stop = stop
v3_command V3.start = start
v3_command V3.capability = v3_capability
v3_command V3.stream_configuration = v3_stream_configuration

abbrev pub v2_received : FrameView → Result V2.CommandRequest → ReceivedCommand
v2_received frame (ok request) =
    accepted (record { idcode = request.idcode; command = v2_command request.command })
v2_received frame (err e) = rejected (V2.idcode frame) v2

abbrev pub v3_received : FrameView → Result V3.CommandRequest → ReceivedCommand
v3_received frame (ok request) =
    accepted (record { idcode = request.stream_id; command = v3_command request.command })
v3_received frame (err e) = rejected (V3.stream_id frame) v3

-- The match on the wire version: none is a frame that does not parse.
abbrev pub read_frame : WireVersion → List ℕ → Option ReceivedCommand
read_frame v2 bytes = elim (V2.parse bytes) [
  | ok frame ↦ some (v2_received frame (V2.parse_command frame))
  | err e ↦ none
]
read_frame v3 bytes = elim (V3.parse bytes) [
  | ok frame ↦ some (v3_received frame (V3.parse_command frame))
  | err e ↦ none
]

abbrev pub declared_size : ReceiveBuffer → ℕ
declared_size b = from_be16 (get_or b.bytes 2 0) (get_or b.bytes 3 0)

-- `copy_within(size..self.length, 0)` and the new length.
unfoldable pub consume : ReceiveBuffer → ℕ → ReceiveBuffer
consume b size = record b {
  bytes = copy_at b.bytes 0 (drop size (take b.length b.bytes));
  length = b.length - size;
}

abbrev pub deliver : ReceiveBuffer → ℕ → Option ReceivedCommand → ReceiveBuffer × NextCommand
deliver b size none = (b, malformed (malformed_command b))
deliver b size (some c) = (consume b size, command c)

unfoldable pub next_command : WireVersion → ReceiveBuffer → ReceiveBuffer × NextCommand
next_command wire_version b =
    if ltb b.length 4
    then (b, no_command)
    else if ltb b.limit (declared_size b)
    then (b, malformed (malformed_command b))
    else if ltb b.length (declared_size b)
    then (b, no_command)
    else deliver b (declared_size b) (read_frame wire_version (take (declared_size b) b.bytes))

pub data PendingFrame : Type 0 where
  nothing : PendingFrame
  header configuration_1 configuration_2 capability stream_configuration error data_frame :
      ℕ → PendingFrame

unfoldable pub is_pending : PendingFrame → Bool
is_pending nothing = false
is_pending p = true

unfoldable pub with_offset : PendingFrame → ℕ → PendingFrame
with_offset nothing offset = nothing
with_offset (header o) offset = header offset
with_offset (configuration_1 o) offset = configuration_1 offset
with_offset (configuration_2 o) offset = configuration_2 offset
with_offset (capability o) offset = capability offset
with_offset (stream_configuration o) offset = stream_configuration offset
with_offset (error o) offset = error offset
with_offset (data_frame o) offset = data_frame offset

unfoldable pub offset_of : PendingFrame → ℕ
offset_of nothing = 0
offset_of (header o) = o
offset_of (configuration_1 o) = o
offset_of (configuration_2 o) = o
offset_of (capability o) = o
offset_of (stream_configuration o) = o
offset_of (error o) = o
offset_of (data_frame o) = o

pub record Connection : Type 0 where
  pub connection_id : ℕ
  pub token : ℕ
  pub receive : ReceiveBuffer
  pub pending : PendingFrame
  pub error_frame : Option (List ℕ)
  pub streaming : Bool
  pub accepted_at : Instant
  pub first_valid_command_at : Option Instant
  pub last_valid_command_at : Instant
  pub close_after_flush : Bool

abbrev pub first_valid_command_deadline : ℕ
first_valid_command_deadline = 15 * 10 ^ 9

abbrev pub idle_non_streaming_deadline : ℕ
idle_non_streaming_deadline = 5 * 60 * 10 ^ 9

abbrev pub error_frame_of : WireVersion → Option (List ℕ)
error_frame_of v2 = none
error_frame_of v3 = some (replicate 20 0)

-- `Connection::new`, at the instant that it reads.
unfoldable pub new_connection : ℕ → ℕ → ℕ → WireVersion → Instant → Connection
new_connection connection_id token command_limit wire_version accepted_at = record {
  connection_id = connection_id;
  token = token;
  receive = new_buffer command_limit;
  pending = nothing;
  error_frame = error_frame_of wire_version;
  streaming = false;
  accepted_at = accepted_at;
  first_valid_command_at = none;
  last_valid_command_at = accepted_at;
  close_after_flush = false;
}

abbrev pub get_or_insert : Option Instant → Instant → Option Instant
get_or_insert none now = some now
get_or_insert (some first) now = some first

unfoldable pub record_valid_command : Connection → Instant → Connection
record_valid_command c now = record c {
  first_valid_command_at = get_or_insert c.first_valid_command_at now;
  last_valid_command_at = now;
}

unfoldable pub deadline_expired : Connection → Instant → Bool
deadline_expired c now = elim c.first_valid_command_at [
  | none ↦ leb first_valid_command_deadline (now - c.accepted_at)
  | some first ↦ not c.streaming && leb idle_non_streaming_deadline (now - c.last_valid_command_at)
]
