-- ===== src/Wire/V3/ErrorResponse.antt =====
-- `encode_error_response_into` of src/wire_v3.rs.
use c37_118_simulator.Prelude.{ℕ, ◌≡◌, refl, List, [], ◌∷◌, ◌++◌, length, All, arith}
use c37_118_simulator.Wire.Bytes.{IsByte, IsU16, be16}
use c37_118_simulator.Wire.Frame.{Timestamp, IsTimestamp, ok}
use c37_118_simulator.Wire.Crc.{seal}
use c37_118_simulator.Wire.Image.{Fits, image}
use c37_118_simulator.Wire.V3.{
  ErrorResponseCode, rejected_command, wrong_stream_or_pmu, code_of_error, write_common,
  encode_error_response_into, parse,
}
use c37_118_simulator.Wire.V3.RoundTrip.{layout, Decodes, parse-image, image-Decodes, layout-Fits}

abbrev error_body : ErrorResponseCode → List ℕ
error_body code = be16 (code_of_error code) ++ be16 0

-- Nothing of the old buffer is left.
encode_error_response_into-image :
    (id : ℕ) (code : ErrorResponseCode) (ts : Timestamp) (output : List ℕ)
    → length output ≡ 20
    → encode_error_response_into id code ts output ≡ image (layout 15 id ts (error_body code))
unfolding encode_error_response_into write_common seal image
encode_error_response_into-image id code ts
      (a ∷ b ∷ c ∷ d ∷ e ∷ f ∷ g ∷ h ∷ i ∷ j ∷ k ∷ l ∷ m ∷ n ∷ o ∷ p ∷ q ∷ r ∷ s ∷ t ∷ []) size =
    refl
encode_error_response_into-image id code ts _ size = absurd (omega arith)

error_body-All : (code : ErrorResponseCode) → All IsByte (error_body code)
error_body-All rejected_command = omega arith
error_body-All wrong_stream_or_pmu = omega arith

error_body_bytes :
    (code : ErrorResponseCode) → error_body code ≡ 0 ∷ code_of_error code ∷ 0 ∷ 0 ∷ []
error_body_bytes rejected_command = refl
error_body_bytes wrong_stream_or_pmu = refl

-- Over whatever the twenty bytes of the buffer held, the call leaves a frame that parses, of the
-- error-response type, for the stream and the time given, with the code in its first two body bytes
-- and zero in the other two.
pub parse-encode_error_response_into :
    (id : ℕ) (code : ErrorResponseCode) (ts : Timestamp) (output : List ℕ)
    → IsU16 id
    → IsTimestamp ts
    → length output ≡ 20
    → (parse (encode_error_response_into id code ts output)
        ≡ ok (record { bytes = encode_error_response_into id code ts output }))
      × Decodes
          (record { bytes = encode_error_response_into id code ts output })
          15
          id
          ts
          (0 ∷ code_of_error code ∷ 0 ∷ 0 ∷ [])
unfolding parse
parse-encode_error_response_into id code ts output hid hts size =
    rw (encode_error_response_into-image id code ts output size, ← error_body_bytes code)
      (
        parse-image 15 id ts (error_body code) 65535 (omega arith) fits (omega arith),
        image-Decodes 15 id ts (error_body code) (omega arith) fits,
      )
  where
    fits : Fits (layout 15 id ts (error_body code))
    fits =
        layout-Fits 15 id ts (error_body code) (omega arith) hid hts (error_body-All code)
          (omega arith)
