-- ===== src/Prelude/Bits.antt =====
-- Laws of `^`, `&` and `|` at variables, from the digit recursion that the operations stand for.
use Prim.Native.Nat.{
  ℕ, zero, suc, ◌+◌, ◌*◌, ◌/◌, ◌%◌, ◌^◌, ◌≤◌, ◌<◌, min, bit_and, bit_xor, differ, digits, bitwise,
  bit_and-bitwise, bit_xor-bitwise,
}
use mathlib.Core.Path.{◌≡◌, refl, ap, ap₂, ◌∙◌, sym}
use native.Mathlib.Nat.{le_refl, pow-suc, div-div-eq-div-mul}
use mathlib.Core.Bool.{Bool, true, ◌&&◌}
use native.Mathlib.Omega.{arith}

-- Any fuel from the first number up gives the same digits.
module _ (z : ℕ → ℕ) (f : ℕ → ℕ → ℕ) where
  enough_digits : (b a m n : ℕ) → (a ≤ m) × (a ≤ n) → digits z f m a b ≡ digits z f n a b
  enough_digits b zero zero zero h = refl
  enough_digits b zero zero (suc n) h = refl
  enough_digits b zero (suc m) zero h = refl
  enough_digits b zero (suc m) (suc n) h = refl
  enough_digits b (suc a) zero n h = absurd (omega (arith, h.0))
  enough_digits b (suc a) (suc m) zero h = absurd (omega (arith, h.1))
  enough_digits b (suc a) (suc m) (suc n) h =
      let rest = enough_digits (b / 2) (suc a / 2) m n (omega (arith, h.0), omega (arith, h.1)) in
      omega (arith, rest)

  bitwise-suc :
      (high low : ℕ)
      → bitwise z f (suc high) low
        ≡ f (suc high % 2) (low % 2) + bitwise z f (suc high / 2) (low / 2) * 2
  bitwise-suc high low =
      let half = suc high / 2 in
      let same = enough_digits (low / 2) half high half (omega arith, le_refl _) in
      omega (arith, same)

differ-digit : (x y : ℕ) → x < 2 → y < 2 → differ x y ≡ (x + y) % 2
differ-digit zero y p q = omega arith
differ-digit (suc zero) zero p q = refl
differ-digit (suc zero) (suc zero) p q = refl
differ-digit (suc zero) (suc (suc y)) p q = absurd (omega arith)
differ-digit (suc (suc x)) y p q = absurd (omega arith)

pub bit_xor_step : (a b : ℕ) → bit_xor a b ≡ bit_xor (a / 2) (b / 2) * 2 + (a + b) % 2
bit_xor_step zero b = simp bit_xor-bitwise (omega arith)
bit_xor_step (suc a) b = simp bit_xor-bitwise (
    omega (
      arith,
      bitwise-suc (λ y. y) differ a b,
      differ-digit (suc a % 2) (b % 2) (omega arith) (omega arith),
    ))

pub bit_and_step :
    (word mask : ℕ)
    → bit_and word mask ≡ min (word % 2) (mask % 2) + bit_and (word / 2) (mask / 2) * 2
bit_and_step (suc word) mask =
    simp bit_and-bitwise (omega (arith, bitwise-suc (λ y. 0) min word mask))
bit_and_step zero mask = simp bit_and-bitwise (omega arith)

pub zero-bit_xor : (b : ℕ) → bit_xor 0 b ≡ b
zero-bit_xor b = simp bit_xor-bitwise

-- The upper digits of the result.
pub bit_xor-half : (a b : ℕ) → bit_xor a b / 2 ≡ bit_xor (a / 2) (b / 2)
bit_xor-half a b = omega (arith, bit_xor_step a b)

-- Strong induction, as a count that bounds both numbers.
bit_xor_cancel_fuel : (n a k : ℕ) → a ≤ n → k ≤ n → bit_xor (bit_xor a k) k ≡ a
bit_xor_cancel_fuel zero zero zero p q = refl
bit_xor_cancel_fuel zero zero (suc k) p q = absurd (omega arith)
bit_xor_cancel_fuel zero (suc a) k p q = absurd (omega arith)
bit_xor_cancel_fuel (suc n) a k p q = omega (
  arith,
  bit_xor_step a k,
  bit_xor_step (bit_xor a k) k,
  ap (λ t. bit_xor t (k / 2)) (bit_xor-half a k),
  bit_xor_cancel_fuel n (a / 2) (k / 2) (omega arith) (omega arith),
)

pub bit_xor_cancel : (a k : ℕ) → bit_xor (bit_xor a k) k ≡ a
bit_xor_cancel a k = bit_xor_cancel_fuel (a + k) a k (omega arith) (omega arith)

pub bit_xor_self : (a : ℕ) → bit_xor a a ≡ 0
bit_xor_self a = ap (λ t. bit_xor t a) (sym (zero-bit_xor a)) ∙ bit_xor_cancel 0 a

pub bit_xor_injective : (a b k : ℕ) → bit_xor a k ≡ bit_xor b k → a ≡ b
bit_xor_injective a b k h = sym (bit_xor_cancel a k) ∙ ap (λ t. bit_xor t k) h ∙ bit_xor_cancel b k

bit_xor_comm_fuel : (n a b : ℕ) → a ≤ n → b ≤ n → bit_xor a b ≡ bit_xor b a
bit_xor_comm_fuel zero zero zero p q = refl
bit_xor_comm_fuel zero zero (suc b) p q = absurd (omega arith)
bit_xor_comm_fuel zero (suc a) b p q = absurd (omega arith)
bit_xor_comm_fuel (suc n) a b p q = omega (
  arith,
  bit_xor_step a b,
  bit_xor_step b a,
  bit_xor_comm_fuel n (a / 2) (b / 2) (omega arith) (omega arith),
)

pub bit_xor_comm : (a b : ℕ) → bit_xor a b ≡ bit_xor b a
bit_xor_comm a b = bit_xor_comm_fuel (a + b) a b (omega arith) (omega arith)

pub bit_xor-lt : (w a b : ℕ) → a < 2 ^ w → b < 2 ^ w → bit_xor a b < 2 ^ w
bit_xor-lt zero zero zero p q = omega arith
bit_xor-lt zero zero (suc b) p q = absurd (omega arith)
bit_xor-lt zero (suc a) b p q = absurd (omega arith)
bit_xor-lt (suc w) a b p q = omega (
  arith,
  pow-suc 2 w,
  bit_xor_step a b,
  bit_xor-lt w (a / 2) (b / 2) (omega (arith, pow-suc 2 w)) (omega (arith, pow-suc 2 w)),
)

mul-pow-suc : (q k : ℕ) → q * 2 ^ suc k ≡ 2 * (q * 2 ^ k)
mul-pow-suc q k = omega (arith, ap (λ (t : ℕ). q * t) (pow-suc 2 k))

half_field : (k q r : ℕ) → (q * 2 ^ suc k + r) / 2 ≡ q * 2 ^ k + r / 2
half_field k q r = omega (arith, mul-pow-suc q k)

-- Fields above and below bit `k` do not meet.
pub bit_xor-fields :
    (k q r p s : ℕ)
    → r < 2 ^ k
    → s < 2 ^ k
    → bit_xor (q * 2 ^ k + r) (p * 2 ^ k + s) ≡ bit_xor q p * 2 ^ k + bit_xor r s
bit_xor-fields zero q zero p zero fr fs =
    omega (arith, ap₂ bit_xor (times_one q) (times_one p), bit_xor_self 0)
  where
    times_one : (n : ℕ) → n * 2 ^ 0 + 0 ≡ n
    times_one n = omega arith
bit_xor-fields zero q (suc r) p s fr fs = absurd (omega arith)
bit_xor-fields zero q zero p (suc s) fr fs = absurd (omega arith)
bit_xor-fields (suc k) q r p s fr fs = omega (
  arith,
  bit_xor_step (q * 2 ^ suc k + r) (p * 2 ^ suc k + s),
  bit_xor_step r s,
  ap₂ bit_xor (half_field k q r) (half_field k p s),
  mul-pow-suc q k,
  mul-pow-suc p k,
  mul-pow-suc (bit_xor q p) k,
  bit_xor-fields k q (r / 2) p (s / 2) (omega (arith, pow-suc 2 k)) (omega (arith, pow-suc 2 k)),
)

masked_out : (a count : ℕ) → a < count → bit_and a 0 ≡ 0
masked_out a zero few = absurd (omega (arith, few))
masked_out zero (suc count) few = refl
masked_out (suc a) (suc count) few =
    let halved : bit_and (suc a / 2) 0 ≡ 0 = masked_out (suc a / 2) count (omega (arith, few)) in
    omega (arith, halved, bit_and_step (suc a) 0)

bit_and-zero : (a : ℕ) → bit_and a 0 ≡ 0
bit_and-zero a = masked_out a (a + 1) (omega arith)

-- A mask of one bit.
pub bit_and-pow : (k a : ℕ) → bit_and a (2 ^ k) ≡ a / 2 ^ k % 2 * 2 ^ k
bit_and-pow zero a = omega (arith, bit_and_step a 1, bit_and-zero (a / 2))
bit_and-pow (suc k) a = omega (
  arith,
  bit_and_step a (2 ^ suc k),
  ap (bit_and (a / 2)) (half_pow k),
  pow-suc 2 k,
  bit_and-pow k (a / 2),
  ap (λ (t : ℕ). t % 2 * 2 ^ k) (div-div-eq-div-mul a 2 (2 ^ k)),
  ap (λ (t : ℕ). a / t % 2 * 2 ^ k) (pow_suc k),
  mul-pow-suc (a / 2 ^ suc k % 2) k,
)
  where
    half_pow : (k : ℕ) → 2 ^ suc k / 2 ≡ 2 ^ k
    half_pow k = omega (arith, pow-suc 2 k)

    pow_suc : (k : ℕ) → 2 * 2 ^ k ≡ 2 ^ suc k
    pow_suc k = omega (arith, pow-suc 2 k)

-- A mask of the low four bits.
pub bit_and_nibble : (a : ℕ) → bit_and a 0x0f ≡ a % 16
bit_and_nibble a = omega (
  arith,
  bit_and_step a 15,
  bit_and_step (a / 2) 7,
  bit_and_step (a / 2 / 2) 3,
  bit_and_step (a / 2 / 2 / 2) 1,
  bit_and-zero (a / 2 / 2 / 2 / 2),
)

bit_xor_assoc_fuel :
    (n a b c : ℕ) → a ≤ n → b ≤ n → c ≤ n → bit_xor (bit_xor a b) c ≡ bit_xor a (bit_xor b c)
bit_xor_assoc_fuel zero zero zero zero p q r = refl
bit_xor_assoc_fuel zero (suc a) b c p q r = absurd (omega arith)
bit_xor_assoc_fuel zero zero (suc b) c p q r = absurd (omega arith)
bit_xor_assoc_fuel zero zero zero (suc c) p q r = absurd (omega arith)
bit_xor_assoc_fuel (suc n) a b c p q r = omega (
  arith,
  bit_xor_step a b,
  bit_xor_step b c,
  bit_xor_step (bit_xor a b) c,
  bit_xor_step a (bit_xor b c),
  ap (λ t. bit_xor t (c / 2)) (bit_xor-half a b),
  ap (bit_xor (a / 2)) (bit_xor-half b c),
  bit_xor_assoc_fuel n (a / 2) (b / 2) (c / 2) (omega arith) (omega arith) (omega arith),
)

pub bit_xor_assoc : (a b c : ℕ) → bit_xor (bit_xor a b) c ≡ bit_xor a (bit_xor b c)
bit_xor_assoc a b c = bit_xor_assoc_fuel (a + b + c) a b c (omega arith) (omega arith) (omega arith)

pub bit_xor_right_comm : (a b c : ℕ) → bit_xor (bit_xor a b) c ≡ bit_xor (bit_xor a c) b
bit_xor_right_comm a b c =
    bit_xor_assoc a b c ∙ ap (bit_xor a) (bit_xor_comm b c) ∙ sym (bit_xor_assoc a c b)

-- Over a small range, a law is checked at every value by evaluation.
unfoldable pub holds_below : (ℕ → Bool) → ℕ → Bool
holds_below law zero = true
holds_below law (suc bound) = holds_below law bound && law bound

pub holds_below_lem :
    (law : ℕ → Bool) (bound : ℕ)
    → holds_below law bound ≡ true
    → (value : ℕ) → value < bound
    → law value ≡ true
unfolding holds_below
holds_below_lem law zero checked value small = absurd (omega (arith, small))
holds_below_lem law (suc bound) checked value small =
    ground (arith, checked, small, holds_below_lem law bound _ value)
