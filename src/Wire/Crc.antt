-- ===== src/Wire/Crc.antt =====
-- The frame checksum: `crc16_ccitt`, `checksum_matches` and `append_checksum` of src/wire_v2.rs
-- (src/wire_v3.rs and src/wire.rs hold the same text).
pub mod Shift
pub mod Pair
pub mod Residue
pub mod Detection
use c37_118_simulator.Prelude.{
  ℕ, zero, suc, ◌+◌, ◌-◌, ◌*◌, ◌%◌, ◌^◌, Bool, false, List, [], ◌∷◌, ◌++◌, length, take, get_or,
  copy_at, bit_and, bit_xor, ltb, ◌==◌, if◌then◌else◌,
}
use c37_118_simulator.Wire.Bytes.{be16, from_be16}

-- One round of the inner loop; the register is a `u16`.
pub crc_shift : ℕ → ℕ
crc_shift c = if bit_and c 0x8000 == 0 then c * 2 % 65536 else bit_xor (c * 2 % 65536) 0x1021

-- `for _ in 0..8`
pub crc_shifts : ℕ → ℕ → ℕ
crc_shifts zero c = c
crc_shifts (suc n) c = crc_shifts n (crc_shift c)

pub crc_byte : ℕ → ℕ → ℕ
crc_byte c b = crc_shifts 8 (bit_xor c (b * 2 ^ 8 % 65536))

-- `for byte in bytes`
pub crc_loop : ℕ → List ℕ → ℕ
crc_loop c [] = c
crc_loop c (b ∷ bs) = crc_loop (crc_byte c b) bs

unfoldable pub crc16_ccitt : List ℕ → ℕ
unfolding crc_shift crc_shifts crc_byte crc_loop
crc16_ccitt bytes = crc_loop 0xffff bytes

-- The comparison, with `payload_end` at hand.
unfoldable pub checksum_at : List ℕ → ℕ → Bool
unfolding crc16_ccitt
checksum_at frame payload_end =
    crc16_ccitt (take payload_end frame)
    == from_be16 (get_or frame payload_end 0) (get_or frame (payload_end + 1) 0)

unfoldable pub checksum_matches : List ℕ → Bool
unfolding checksum_at
checksum_matches frame =
    if ltb (length frame) 2 then false else checksum_at frame (length frame - 2)

-- `frame[end..].copy_from_slice(&crc16_ccitt(&frame[..end]).to_be_bytes())`, as every encoder ends.
unfoldable pub seal : List ℕ → ℕ → List ℕ
seal frame end = copy_at frame end (be16 (crc16_ccitt (take end frame)))
