-- ===== src/Wire/Crc/Shift.antt =====
-- The register of the checksum: its width, and how one round, eight rounds and a byte act on it.
use c37_118_simulator.Prelude.{
  ℕ, zero, suc, ◌+◌, ◌-◌, ◌*◌, ◌/◌, ◌%◌, ◌<◌, ◌≡◌, sym, ap, ◌∙◌, ◌⊎◌, inl, inr, bit_and, bit_xor,
  arith, ◌==◌, dec_lt,
}
use c37_118_simulator.Prelude.Bits.{bit_and-pow, bit_xor_step, bit_xor_injective, bit_xor-lt}
use c37_118_simulator.Wire.Bytes.{IsU16}
use c37_118_simulator.Wire.Crc.{crc_shift, crc_shifts}

-- The test `checksum & 0x8000 != 0` reads the top bit.
top_bit : (c : ℕ) → IsU16 c → bit_and c 0x8000 ≡ c / 32768 * 32768
top_bit c h = omega (arith, bit_and-pow 15 c)

pub crc_shift_low : (c : ℕ) → c < 32768 → crc_shift c ≡ 2 * c
unfolding crc_shift
crc_shift_low c h = ground (arith, top_bit c)

pub crc_shift_high : (r : ℕ) → r < 32768 → crc_shift (r + 32768) ≡ bit_xor (2 * r) 0x1021
unfolding crc_shift
crc_shift_high r h = rw (top_set, ◌==◌) (ap (λ t. bit_xor t 0x1021) (wraps r h))
  where
    top_set : bit_and (r + 32768) 0x8000 ≡ 32768
    top_set = omega (arith, top_bit (r + 32768))

    wraps : (r : ℕ) → r < 32768 → (r + 32768) * 2 % 65536 ≡ 2 * r
    wraps r h = omega arith

-- A register is `r` or `r + 32768`, with `r` below the top bit.
pub register_cases : (c : ℕ) → IsU16 c → (c < 32768) ⊎ ((r : ℕ) × (r < 32768) × (c ≡ r + 32768))
register_cases c h = elim (dec_lt c 32768) [
  | yes low ↦ inl low
  | no high ↦ inr (c - 32768, omega arith, omega arith)
]

pub crc_shift-IsU16 : (c : ℕ) → IsU16 c → IsU16 (crc_shift c)
crc_shift-IsU16 c h = elim (register_cases c h) [
  | inl low ↦ omega (arith, crc_shift_low c low)
  | inr (r, fits, e) ↦
      rw (e, crc_shift_high r fits) (bit_xor-lt 16 (2 * r) 0x1021 (omega arith) (omega arith))
]

-- The polynomial is odd, so the lowest bit of the result tells the bit that was shifted out.
crc_shift_parity : (r : ℕ) → r < 32768 → crc_shift (r + 32768) % 2 ≡ 1
crc_shift_parity r h = omega (arith, crc_shift_high r h, bit_xor_step (2 * r) 0x1021)

pub crc_shift_injective : (c d : ℕ) → IsU16 c → IsU16 d → crc_shift c ≡ crc_shift d → c ≡ d
crc_shift_injective c d hc hd e = elim (register_cases c hc) [
  | inl low ↦ elim (register_cases d hd) [
    | inl low' ↦ omega (arith, crc_shift_low c low, crc_shift_low d low')
    | inr (s, fits, e') ↦
        absurd (omega (arith, crc_shift_low c low, crc_shift_parity s fits, ap crc_shift e'))
  ]
  | inr (r, fits, e') ↦ elim (register_cases d hd) [
    | inl low ↦
        absurd (omega (arith, crc_shift_low d low, crc_shift_parity r fits, ap crc_shift e'))
    | inr (s, fits', e'') ↦ omega (
      arith,
      bit_xor_injective (2 * r) (2 * s) 0x1021 (
          sym (crc_shift_high r fits)
          ∙ ap crc_shift (sym e')
          ∙ e
          ∙ ap crc_shift e''
          ∙ crc_shift_high s fits'),
    )
  ]
]

pub crc_shifts-IsU16 : (n c : ℕ) → IsU16 c → IsU16 (crc_shifts n c)
unfolding crc_shifts
crc_shifts-IsU16 zero c h = h
crc_shifts-IsU16 (suc n) c h = crc_shifts-IsU16 n (crc_shift c) (crc_shift-IsU16 c h)

pub crc_shifts_injective : (n c d : ℕ) → IsU16 c → IsU16 d → crc_shifts n c ≡ crc_shifts n d → c ≡ d
unfolding crc_shifts
crc_shifts_injective zero c d hc hd e = e
crc_shifts_injective (suc n) c d hc hd e = crc_shift_injective c d hc hd (
    crc_shifts_injective n (crc_shift c) (crc_shift d) (crc_shift-IsU16 c hc) (crc_shift-IsU16 d hd)
      e)
