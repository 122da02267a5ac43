-- ===== src/Wire/V3/Parse.antt =====
-- What `FrameView::parse_with_limit` and `parse_command` of src/wire_v3.rs accept.
use c37_118_simulator.Prelude.{ℕ, ◌≤◌, ◌≡◌, refl, true, List, length, get_or, arith}
use c37_118_simulator.Wire.Bytes.{from_be16}
use c37_118_simulator.Wire.Frame.{FrameView, ok}
use c37_118_simulator.Wire.Crc.{checksum_matches}
use c37_118_simulator.Wire.V3.{
  Command, code_of_command, command_of_code, parse_with_limit, stop, start, capability,
  stream_configuration,
}

-- A frame that the envelope check is meant to accept.
pub record IsFrame (bytes : List ℕ) (maximum_size : ℕ) : Type 0 where
  pub long : 16 ≤ length bytes
  pub sync : get_or bytes 0 0 ≡ 0xaa
  pub declared : from_be16 (get_or bytes 2 0) (get_or bytes 3 0) ≡ length bytes
  pub bounded : length bytes ≤ maximum_size
  pub checked : checksum_matches bytes ≡ true

pub parse_with_limit_accepts :
    (bytes : List ℕ) (maximum_size : ℕ)
    → IsFrame bytes maximum_size
    → parse_with_limit bytes maximum_size ≡ ok (record { bytes = bytes })
unfolding parse_with_limit
parse_with_limit_accepts bytes maximum_size f = ground arith

pub parse_with_limit_sound :
    (bytes : List ℕ) (maximum_size : ℕ) (view : FrameView)
    → parse_with_limit bytes maximum_size ≡ ok view
    → IsFrame bytes maximum_size × (view.bytes ≡ bytes)
unfolding parse_with_limit
parse_with_limit_sound bytes maximum_size view h = ground arith

-- The codes that the match reads are those that the encoder writes, and no others.
pub command_of_code-code_of_command : (c : Command) → command_of_code (code_of_command c) ≡ ok c
unfolding command_of_code
command_of_code-code_of_command stop = refl
command_of_code-code_of_command start = refl
command_of_code-code_of_command capability = refl
command_of_code-code_of_command stream_configuration = refl

pub command_of_code_sound : (n : ℕ) (c : Command) → command_of_code n ≡ ok c → n ≡ code_of_command c
unfolding command_of_code
command_of_code_sound n c h = ground arith
