-- ===== src/Prelude/Decimal.antt =====
-- Decimal numbers as bytes: how Rust prints them, and the fold that reads them into a `u64`.
use Prim.Native.Nat.{ℕ, zero, suc, ◌+◌, ◌-◌, ◌*◌, ◌/◌, ◌%◌, ◌^◌, ◌≤◌, ◌<◌}
use mathlib.Core.Path.{◌≡◌, refl, ap, ◌∙◌}
use mathlib.Core.Bool.{true, false}
use mathlib.Core.Option.{Option, none, some}
use mathlib.Core.List.{[], ◌∷◌, ◌++◌, append-nil}
use native.Mathlib.Omega.{arith}
use native.Mathlib.Decide.{dec_lt}
use c37_118_simulator.Prelude.Tests.{ltb, leb, if◌then◌else◌, lt→ltb, ltb-eq-false}
use c37_118_simulator.Prelude.Text.{Bytes, all, is_ascii_digit, contains_byte, all-contains_byte}

-- The greatest `u64`, and the greatest `usize` of a machine of 64 bits.
abbrev pub max_word : ℕ
max_word = 2 ^ 64 - 1

-- `checked_mul(10)`, then `checked_add` of a digit.
abbrev pub checked_digit : ℕ → ℕ → Option ℕ
checked_digit n b =
    if leb (n * 10) max_word
    then if leb (n * 10 + (b - b'0')) max_word then some (n * 10 + (b - b'0')) else none
    else none

-- `bytes.iter().try_fold(n, …)`
unfoldable pub fold_digits : ℕ → Bytes → Option ℕ
fold_digits n [] = some n
fold_digits n (b ∷ bs) = elim (checked_digit n b) [ none ↦ none | some m ↦ fold_digits m bs ]

-- The decimal digits of `n` in front of `acc`.
digits_before : ℕ → ℕ → Bytes → Bytes
digits_before zero n acc = acc
digits_before (suc fuel) n acc =
    let rest = digits_before fuel (n / 10) ((b'0' + n % 10) ∷ acc) in
    if ltb n 10 then (b'0' + n) ∷ acc else rest

-- What `{}` prints of an unsigned number.
unfoldable pub decimal : ℕ → Bytes
unfolding digits_before
decimal n = digits_before (suc n) n []

-- The number that digits stand for after `n`.
unfoldable pub value : ℕ → Bytes → ℕ
value n [] = n
value n (b ∷ bs) = value (n * 10 + (b - b'0')) bs

pub value_ge : (n : ℕ) (bs : Bytes) → n ≤ value n bs
unfolding value
value_ge n [] = omega arith
value_ge n (b ∷ bs) = omega (arith, value_ge (n * 10 + (b - b'0')) bs)

checked_digit_fits :
    (n b : ℕ) → n * 10 + (b - b'0') ≤ max_word → checked_digit n b ≡ some (n * 10 + (b - b'0'))
checked_digit_fits n b h = ground arith

checked_digit-some :
    (n b m : ℕ) → checked_digit n b ≡ some m → (m ≡ n * 10 + (b - b'0')) × (m ≤ max_word)
checked_digit-some n b m h = ground arith

pub fold_digits-value :
    (n : ℕ) (bs : Bytes) → value n bs ≤ max_word → fold_digits n bs ≡ some (value n bs)
unfolding fold_digits value
fold_digits-value n [] h = refl
fold_digits-value n (b ∷ bs) h =
    rw (checked_digit_fits n b (omega (arith, h, value_ge (n * 10 + (b - b'0')) bs)), fold_digits)
      (fold_digits-value (n * 10 + (b - b'0')) bs h)

pub fold_digits-some :
    (n : ℕ) (bs : Bytes) (m : ℕ)
    → n ≤ max_word
    → fold_digits n bs ≡ some m
    → (m ≡ value n bs) × (m ≤ max_word)
unfolding fold_digits value
fold_digits-some n [] m small h = ground (arith, h)
fold_digits-some n (b ∷ bs) m small h =
    go (checked_digit n b) refl h (λ x fits k. fold_digits-some x bs m fits k)
  where
    go :
        (o : Option ℕ)
        → checked_digit n b ≡ o
        → elim o [ none ↦ none | some k ↦ fold_digits k bs ] ≡ some m
        → ((x : ℕ) → x ≤ max_word → fold_digits x bs ≡ some m → (m ≡ value x bs) × (m ≤ max_word))
        → (m ≡ value (n * 10 + (b - b'0')) bs) × (m ≤ max_word)
    go none e k ih = absurd (ground (arith, k))
    go (some x) e k ih =
        let (same, fits) = checked_digit-some n b x e in
        let (r, s) = ih x fits k in (r ∙ ap (λ i. value i bs) same, s)

value-digits_before :
    (f n : ℕ) (acc : Bytes) → n < f → value 0 (digits_before f n acc) ≡ value n acc
unfolding value digits_before
value-digits_before zero n acc h = absurd (omega arith)
value-digits_before (suc f) n acc h = elim (dec_lt n 10) [
  | yes small ↦ rw (lt→ltb n 10 small) (ap (λ i. value i acc) (omega arith))
  | no big ↦ rw (ltb-eq-false n 10 (omega arith)) (
      value-digits_before f (n / 10) ((b'0' + n % 10) ∷ acc) (omega arith)
      ∙ ap (λ i. value i acc) (omega arith))
]

-- What is printed of a number stands for it.
pub value-decimal : (n : ℕ) → value 0 (decimal n) ≡ n
unfolding value decimal
value-decimal n = value-digits_before (suc n) n [] (omega arith)

digits_before_fuel :
    (f g n : ℕ) (acc : Bytes) → n < f → n < g → digits_before f n acc ≡ digits_before g n acc
unfolding digits_before
digits_before_fuel zero g n acc h k = absurd (omega arith)
digits_before_fuel (suc f) zero n acc h k = absurd (omega arith)
digits_before_fuel (suc f) (suc g) n acc h k = elim (dec_lt n 10) [
  | yes small ↦ rw (lt→ltb n 10 small) refl
  | no big ↦
      rw (ltb-eq-false n 10 (omega arith))
        (digits_before_fuel f g (n / 10) ((b'0' + n % 10) ∷ acc) (omega arith) (omega arith))
]

-- One digit more in front of `acc`.
digits_before_step :
    (f g n b : ℕ) (acc : Bytes)
    → 0 < n
    → is_ascii_digit b ≡ true
    → n * 10 + (b - b'0') < f
    → n < g
    → digits_before f (n * 10 + (b - b'0')) acc ≡ digits_before g n (b ∷ acc)
unfolding digits_before
digits_before_step zero g n b acc pos digit h k = absurd (omega arith)
digits_before_step (suc f) g n b acc pos digit h k =
    rw (ltb-eq-false (n * 10 + (b - b'0')) 10 (omega arith)) (
      ap (λ m. digits_before f m ((b'0' + (n * 10 + (b - b'0')) % 10) ∷ acc))
        (ground (arith, digit))
      ∙ ap (λ (c : ℕ). digits_before f n (c ∷ acc)) (ground (arith, digit))
      ∙ digits_before_fuel f g n (b ∷ acc) (omega arith) k)

digits_before-value :
    (f g n : ℕ) (bs acc : Bytes)
    → 0 < n
    → all is_ascii_digit bs ≡ true
    → value n bs < f
    → n < g
    → digits_before f (value n bs) acc ≡ digits_before g n (bs ++ acc)
unfolding value
digits_before-value f g n [] acc pos digits h k = digits_before_fuel f g n acc h k
digits_before-value f g n (b ∷ bs) acc pos digits h k =
    digits_before-value f (suc (n * 10 + (b - b'0'))) (n * 10 + (b - b'0')) bs acc (omega arith)
      (ground (arith, digits)) h (omega arith)
    ∙ digits_before_step (suc (n * 10 + (b - b'0'))) g n b (bs ++ acc) pos (ground (arith, digits))
        (omega arith) k

-- Digits that begin with one that is not zero are what is printed of the number they stand for.
pub decimal-value :
    (b : ℕ) (bs : Bytes)
    → leb b'1' b ≡ true
    → all is_ascii_digit (b ∷ bs) ≡ true
    → decimal (value 0 (b ∷ bs)) ≡ b ∷ bs
unfolding decimal value
decimal-value b bs pos digits =
    digits_before-value (suc (value (0 * 10 + (b - b'0')) bs)) (suc (0 * 10 + (b - b'0')))
      (0 * 10 + (b - b'0')) bs [] (ground (arith, pos)) (ground (arith, digits)) (omega arith)
      (omega arith)
    ∙ one_digit (ground (arith, digits))
  where
    one_digit :
        is_ascii_digit b ≡ true
        → digits_before (suc (0 * 10 + (b - b'0'))) (0 * 10 + (b - b'0')) (bs ++ []) ≡ b ∷ bs
    one_digit digit = rw (append-nil bs) (ground (arith, digit))

digits_before-digits :
    (f n : ℕ) (acc : Bytes)
    → all is_ascii_digit acc ≡ true
    → all is_ascii_digit (digits_before f n acc) ≡ true
unfolding digits_before
digits_before-digits zero n acc h = h
digits_before-digits (suc f) n acc h = elim (dec_lt n 10) [
  | yes small ↦ rw (lt→ltb n 10 small) (ground (arith, h))
  | no big ↦
      rw (ltb-eq-false n 10 (omega arith))
        (digits_before-digits f (n / 10) ((b'0' + n % 10) ∷ acc) (ground (arith, h)))
]

pub decimal-digits : (n : ℕ) → all is_ascii_digit (decimal n) ≡ true
unfolding decimal
decimal-digits n = digits_before-digits (suc n) n [] refl

digits_before-cons :
    (f n : ℕ) (acc : Bytes)
    → 0 < n
    → n < f
    → (b : ℕ) × (bs : Bytes) × (digits_before f n acc ≡ b ∷ bs) × (leb b'1' b ≡ true)
unfolding digits_before
digits_before-cons zero n acc pos h = absurd (omega arith)
digits_before-cons (suc f) n acc pos h = elim (dec_lt n 10) [
  | yes small ↦ (b'0' + n, acc, rw (lt→ltb n 10 small) refl, ground arith)
  | no big ↦
      let (b, bs, e, l) =
        digits_before-cons f (n / 10) ((b'0' + n % 10) ∷ acc) (omega arith) (omega arith) in
      (b, bs, rw (ltb-eq-false n 10 (omega arith)) e, l)
]

-- A positive number is printed with no leading zero.
pub decimal-cons :
    (n : ℕ) → 0 < n → (b : ℕ) × (bs : Bytes) × (decimal n ≡ b ∷ bs) × (leb b'1' b ≡ true)
unfolding decimal
decimal-cons n pos = digits_before-cons (suc n) n [] pos (omega arith)

pub decimal_zero : decimal 0 ≡ b'0' ∷ []
unfolding decimal
decimal_zero = refl

pub fold_digits-decimal : (n : ℕ) → n ≤ max_word → fold_digits 0 (decimal n) ≡ some n
fold_digits-decimal n fits =
    fold_digits-value 0 (decimal n) (rw (value-decimal n) fits) ∙ ap some (value-decimal n)

pub decimal-clear : (c n : ℕ) → is_ascii_digit c ≡ false → contains_byte c (decimal n) ≡ false
decimal-clear c n h = all-contains_byte is_ascii_digit c (decimal n) h (decimal-digits n)
