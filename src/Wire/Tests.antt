-- ===== src/Wire/Tests.antt =====
-- Known frames, and the theorems at concrete frames.
use c37_118_simulator.Prelude.{
  ℕ, ◌≡◌, ◌↔◌, refl, inr, true, false, some, List, [], ◌∷◌, ◌++◌, length, arith, replicate,
}
use c37_118_simulator.Wire.Frame.{Timestamp, ok}
use c37_118_simulator.Wire.Crc.{crc16_ccitt, checksum_matches, seal}
use c37_118_simulator.Wire.Crc.Residue.{checksum_matches_iff_residue}
use c37_118_simulator.Wire.Crc.Detection.{checksum_matches_detects_burst}
use c37_118_simulator.Wire.V2
use c37_118_simulator.Wire.V2.RoundTrip.{Decodes, parse-encode_frame}
use c37_118_simulator.Wire.V2.Commands.{Carries, parse_command-encode_command, parse_command_iff}
use c37_118_simulator.Wire.V3
use c37_118_simulator.Wire.V3.RoundTrip.{parse-encode_frame_v3}
use c37_118_simulator.Wire.V3.RoundTrip
use c37_118_simulator.Wire.V3.Commands.{parse_command-encode_command_v3, parse_command_iff_v3}
use c37_118_simulator.Wire.V3.Commands
use c37_118_simulator.Wire.V3.ErrorResponse.{parse-encode_error_response_into}

-- The reference vector of the checksum, "123456789".
reference_vector :
    crc16_ccitt (0x31 ∷ 0x32 ∷ 0x33 ∷ 0x34 ∷ 0x35 ∷ 0x36 ∷ 0x37 ∷ 0x38 ∷ 0x39 ∷ []) ≡ 0x29b1
unfolding crc16_ccitt
reference_vector = refl

abbrev noon : Timestamp
noon = record { soc = 1700000000; fracsec = 20000 }

-- A start command for stream 1001.
abbrev start_payload : List ℕ
start_payload = 0xaa ∷ 0x42 ∷ 0 ∷ 18 ∷ 3 ∷ 233 ∷ 0 ∷ 0 ∷ 0 ∷ 1 ∷ 0x0f ∷ 0 ∷ 0 ∷ 2 ∷ 0 ∷ 2 ∷ []

abbrev start_frame : List ℕ
start_frame = start_payload ++ 165 ∷ 60 ∷ []

start_frame_passes : checksum_matches start_frame ≡ true
unfolding checksum_matches
start_frame_passes = refl

checksum_matches_iff_residue_example :
    (checksum_matches start_frame ≡ true) ↔ (crc16_ccitt start_frame ≡ 0)
checksum_matches_iff_residue_example =
    checksum_matches_iff_residue start_frame (omega arith) (omega arith)

-- The stream of the start command is overwritten.
checksum_matches_detects_burst_example :
    checksum_matches
      (0xaa ∷ 0x42 ∷ 0 ∷ 18 ∷ 3 ∷ 234 ∷ 0 ∷ 0 ∷ 0 ∷ 1 ∷ 0x0f ∷ 0 ∷ 0 ∷ 2 ∷ 0 ∷ 2 ∷ 165 ∷ 60 ∷ [])
    ≡ false
checksum_matches_detects_burst_example =
    checksum_matches_detects_burst (0xaa ∷ 0x42 ∷ 0 ∷ 18 ∷ [])
      (0 ∷ 0 ∷ 0 ∷ 1 ∷ 0x0f ∷ 0 ∷ 0 ∷ 2 ∷ 0 ∷ 2 ∷ 165 ∷ 60 ∷ []) 3 233 3 234 (omega arith)
      (omega arith) (omega arith) (omega arith) (omega arith) (omega arith) start_frame_passes
      (inr (omega arith))

start_frame_encodes :
    V2.encode_command 1001 V2.start (record { soc = 1; fracsec = 2 }) ≡ some start_frame
unfolding V2.encode_command V2.encode_frame V2.write_common V2.blank_frame seal crc16_ccitt
start_frame_encodes = refl

parse-encode_frame_example :
    (frame : List ℕ) × (V2.encode_frame 1 1001 noon (0x57 ∷ 0x41 ∷ []) ≡ some frame)
    × (length frame ≡ 18)
    × (V2.parse_with_limit frame 4096 ≡ ok (record { bytes = frame }))
    × Decodes (record { bytes = frame }) 1 1001 noon (0x57 ∷ 0x41 ∷ [])
parse-encode_frame_example =
    parse-encode_frame 1 1001 noon (0x57 ∷ 0x41 ∷ []) 4096 (omega arith) (omega arith) (omega arith)
      (omega arith) (omega arith) (omega arith)

parse_command-encode_command_example :
    (frame : List ℕ) × (V2.encode_command 1001 V2.start noon ≡ some frame)
    × (V2.parse frame ≡ ok (record { bytes = frame }))
    × (V2.parse_command (record { bytes = frame })
        ≡ ok (record { idcode = 1001; command = V2.start }))
parse_command-encode_command_example =
    parse_command-encode_command 1001 V2.start noon (omega arith) (omega arith)

abbrev start_request : V2.CommandRequest
start_request = record { idcode = 1001; command = V2.start }

parse_command_iff_example :
    (V2.parse_command (record { bytes = start_frame }) ≡ ok start_request)
    ↔ Carries (record { bytes = start_frame }) start_request
parse_command_iff_example = parse_command_iff (record { bytes = start_frame }) start_request

parse-encode_frame_v3_example :
    (frame : List ℕ) × (V3.encode_frame 15 1001 noon (0 ∷ 2 ∷ 0 ∷ 0 ∷ []) ≡ some frame)
    × (length frame ≡ 20)
    × (V3.parse_with_limit frame 4096 ≡ ok (record { bytes = frame }))
    × RoundTrip.Decodes (record { bytes = frame }) 15 1001 noon (0 ∷ 2 ∷ 0 ∷ 0 ∷ [])
parse-encode_frame_v3_example =
    parse-encode_frame_v3 15 1001 noon (0 ∷ 2 ∷ 0 ∷ 0 ∷ []) 4096 (omega arith) (omega arith)
      (omega arith) (omega arith) (omega arith) (omega arith)

parse_command-encode_command_v3_example :
    (frame : List ℕ) × (V3.encode_command 1001 V3.capability noon ≡ some frame)
    × (V3.parse frame ≡ ok (record { bytes = frame }))
    × (V3.parse_command (record { bytes = frame })
        ≡ ok (record { stream_id = 1001; command = V3.capability }))
parse_command-encode_command_v3_example =
    parse_command-encode_command_v3 1001 V3.capability noon (omega arith) (omega arith)

abbrev capability_request : V3.CommandRequest
capability_request = record { stream_id = 1001; command = V3.capability }

parse_command_iff_v3_example :
    (V3.parse_command (record { bytes = start_frame }) ≡ ok capability_request)
    ↔ Commands.Carries (record { bytes = start_frame }) capability_request
parse_command_iff_v3_example =
    parse_command_iff_v3 (record { bytes = start_frame }) capability_request

abbrev stale_buffer : List ℕ
stale_buffer = replicate 20 0x5a

parse-encode_error_response_into_example :
    (V3.parse (V3.encode_error_response_into 1002 V3.wrong_stream_or_pmu noon stale_buffer)
      ≡ ok (record {
        bytes = V3.encode_error_response_into 1002 V3.wrong_stream_or_pmu noon stale_buffer;
      }))
    × RoundTrip.Decodes
        (record {
          bytes = V3.encode_error_response_into 1002 V3.wrong_stream_or_pmu noon stale_buffer;
        })
        15
        1002
        noon
        (0 ∷ 2 ∷ 0 ∷ 0 ∷ [])
parse-encode_error_response_into_example =
    parse-encode_error_response_into 1002 V3.wrong_stream_or_pmu noon stale_buffer (omega arith)
      (omega arith) refl
