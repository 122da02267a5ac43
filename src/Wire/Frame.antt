-- ===== src/Wire/Frame.antt =====
-- What the two wire versions share: `FrameError` and `Timestamp`, declared alike in
-- src/wire_v2.rs and src/wire_v3.rs, and the result of a fallible call.
use c37_118_simulator.Prelude.{ℕ, ◌<◌, List}
use c37_118_simulator.Wire.Bytes.{IsU32}

pub data FrameError : Type 0 where
  too_short bad_sync declared_size_too_small declared_size_too_large incomplete trailing_bytes
        bad_checksum unsupported_version unexpected_frame_type invalid_command_size
        unsupported_command :
      FrameError

pub data Result {ℓ} (A : Type ℓ) : Type ℓ where
  ok : A → Result A
  err : FrameError → Result A

pub record Timestamp : Type 0 where
  pub soc : ℕ
  pub fracsec : ℕ

-- `soc` is a `u32`, and `fracsec` fits the 24 bits that the frame has for it.
pub record IsTimestamp (t : Timestamp) : Type 0 where
  pub soc_fits : IsU32 t.soc
  pub fracsec_fits : t.fracsec < 16777216

-- `FrameView` borrows the bytes of a frame.
pub record FrameView : Type 0 where
  pub bytes : List ℕ
