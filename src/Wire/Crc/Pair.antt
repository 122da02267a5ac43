-- ===== src/Wire/Crc/Pair.antt =====
-- Two bytes act on the register of the checksum as one sixteen-bit word.
use c37_118_simulator.Prelude.{
  ℕ, zero, suc, ◌+◌, ◌*◌, ◌/◌, ◌^◌, ◌<◌, ◌≡◌, refl, sym, ap, ap₂, ◌∙◌, inl, inr, bit_xor, arith,
}
use c37_118_simulator.Prelude.Bits.{
  bit_xor_step, bit_xor-fields, bit_xor-lt, zero-bit_xor, bit_xor_comm, bit_xor_right_comm,
  bit_xor_assoc,
}
use c37_118_simulator.Wire.Bytes.{IsU16, IsByte}
use c37_118_simulator.Wire.Crc.{crc_shift, crc_shifts, crc_byte}
use c37_118_simulator.Wire.Crc.Shift.{
  register_cases, crc_shift_low, crc_shift_high, crc_shift-IsU16,
}
use native.Mathlib.Nat.{pow-suc, one-le-pow}

bit_xor_double : (x y : ℕ) → bit_xor (2 * x) (2 * y) ≡ 2 * bit_xor x y
bit_xor_double x y = omega (arith, bit_xor_step (2 * x) (2 * y), ap₂ bit_xor (half x) (half y))
  where
    half : (n : ℕ) → 2 * n / 2 ≡ n
    half n = omega arith

-- A bit field below the top bit leaves that bit alone.
bit_xor_keeps_top : (r y : ℕ) → r < 32768 → y < 32768 → bit_xor (r + 32768) y ≡ bit_xor r y + 32768
bit_xor_keeps_top r y hr hy =
    omega (arith, bit_xor-fields 15 1 r 0 y hr hy, ap₂ bit_xor (top r) (no_top y))
  where
    top : (n : ℕ) → 1 * 2 ^ 15 + n ≡ n + 32768
    top n = omega arith

    no_top : (n : ℕ) → 0 * 2 ^ 15 + n ≡ n
    no_top n = omega arith

-- What lies below the top bit is shifted and nothing else.
crc_shift-bit_xor :
    (x y : ℕ) → IsU16 x → y < 32768 → crc_shift (bit_xor x y) ≡ bit_xor (crc_shift x) (2 * y)
crc_shift-bit_xor x y hx hy = elim (register_cases x hx) [
  | inl low ↦
      crc_shift_low (bit_xor x y) (bit_xor-lt 15 x y low hy)
      ∙ sym (bit_xor_double x y)
      ∙ ap (λ t. bit_xor t (2 * y)) (sym (crc_shift_low x low))
  | inr (r, fits, e) ↦
      rw (e, bit_xor_keeps_top r y fits hy)
        (crc_shift_high (bit_xor r y) (bit_xor-lt 15 r y fits hy)
          ∙ ap (λ t. bit_xor t 0x1021) (sym (bit_xor_double r y))
          ∙ bit_xor_right_comm (2 * r) (2 * y) 0x1021
          ∙ ap (λ t. bit_xor t (2 * y)) (sym (crc_shift_high r fits)))
]

below_top : (n y : ℕ) → y * 2 ^ suc n < 65536 → y < 32768
below_top n y h = grind (arith, pow-suc 2 n, one-le-pow n 2)

crc_shifts-bit_xor :
    (n x y : ℕ)
    → IsU16 x
    → y * 2 ^ n < 65536
    → crc_shifts n (bit_xor x y) ≡ bit_xor (crc_shifts n x) (y * 2 ^ n)
unfolding crc_shifts
crc_shifts-bit_xor zero x y hx hy = ap (bit_xor x) (times_one y)
  where
    times_one : (n : ℕ) → n ≡ n * 2 ^ 0
    times_one n = omega arith
crc_shifts-bit_xor (suc n) x y hx hy =
    ap (crc_shifts n) (crc_shift-bit_xor x y hx (below_top n y hy))
    ∙ crc_shifts-bit_xor n (crc_shift x) (2 * y) (crc_shift-IsU16 x hx) (omega (arith, doubled))
    ∙ ap (bit_xor (crc_shifts n (crc_shift x))) doubled
  where
    doubled : 2 * y * 2 ^ n ≡ y * 2 ^ suc n
    doubled = omega (arith, ap (λ (t : ℕ). y * t) (pow-suc 2 n))

-- Both bytes of a word, shifted in together.
pub word_bits : (b c : ℕ) → IsByte c → bit_xor (b * 256) c ≡ b * 256 + c
word_bits b c h = omega (
  arith,
  bit_xor-fields 8 b 0 0 c (omega arith) h,
  ap₂ bit_xor (no_low b) (no_high c),
  bit_xor_comm b 0,
  zero-bit_xor b,
  zero-bit_xor c,
)
  where
    no_low : (n : ℕ) → n * 2 ^ 8 + 0 ≡ n * 256
    no_low n = omega arith

    no_high : (n : ℕ) → 0 * 2 ^ 8 + n ≡ n
    no_high n = omega arith

abbrev pub crc_pair : ℕ → ℕ → ℕ → ℕ
crc_pair s b c = crc_byte (crc_byte s b) c

pub crc_byte_lem : (s b : ℕ) → IsByte b → crc_byte s b ≡ crc_shifts 8 (bit_xor s (b * 256))
unfolding crc_byte
crc_byte_lem s b h = ap (λ t. crc_shifts 8 (bit_xor s t)) (omega arith)

pub crc_pair_lem :
    (s b c : ℕ)
    → IsU16 s
    → IsByte b
    → IsByte c
    → crc_pair s b c ≡ crc_shifts 16 (bit_xor s (b * 256 + c))
crc_pair_lem s b c hs hb hc =
    crc_byte_lem (crc_byte s b) c hc
    ∙ ap (λ t. crc_shifts 8 (bit_xor t (c * 256))) (crc_byte_lem s b hb)
    ∙ ap (crc_shifts 8)
        (sym (crc_shifts-bit_xor 8 x c (bit_xor-lt 16 s _ hs (omega arith)) (omega arith)))
    ∙ twice (bit_xor x c)
    ∙ ap (crc_shifts 16) (bit_xor_assoc s (b * 256) c ∙ ap (bit_xor s) (word_bits b c hc))
  where
    x : ℕ
    x = bit_xor s (b * 256)

    twice : (n : ℕ) → crc_shifts 8 (crc_shifts 8 n) ≡ crc_shifts 16 n
    twice n = unfold crc_shifts in refl
