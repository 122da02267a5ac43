-- ===== src/Management/Numbers.antt =====
-- The decimal numbers that src/management.rs reads: lengths, cursors and tokens.
use c37_118_simulator.Prelude.{
  ℕ, ◌+◌, ◌≤◌, ◌<◌, ◌≡◌, ◌↔◌, sym, ap, ◌∙◌, subst, Bool, true, false, not, ◌&&◌, Option, none, some,
  [], ◌∷◌, arith, leb, leb→le, Bool-cases, inl, inr, none-ne-some, dec_lt, ◌*◌, ◌-◌, if◌then◌else◌,
}
use c37_118_simulator.Prelude.Text.{Bytes, all, is_empty, is_ascii_digit}
use c37_118_simulator.Prelude.Decimal.{
  max_word, fold_digits, decimal, value, decimal-value, decimal-digits, decimal-cons, decimal_zero,
  fold_digits-some, fold_digits-decimal, value_ge,
}
use c37_118_simulator.Management.Errors.{invalid_content_length, invalid_query}
use c37_118_simulator.Management.Requests.{Checked, ok, ok_or, guard, ◌>>◌}

abbrev pub is_decimal : Bytes → Bool
is_decimal bs = not (is_empty bs) && all is_ascii_digit bs

unfoldable pub parse_content_length : Bytes → Checked ℕ
parse_content_length bs = do
  guard (is_decimal bs) invalid_content_length
  ok_or (fold_digits 0 bs) invalid_content_length

unfoldable pub parse_decimal_u64 : Bytes → Checked ℕ
parse_decimal_u64 bs = do
  guard (is_decimal bs) invalid_query
  ok_or (fold_digits 0 bs) invalid_query

abbrev pub starts_positive : Bytes → Bool
starts_positive [] = false
starts_positive (b ∷ bs) = leb b'1' b && leb b b'9'

unfoldable pub parse_canonical_decimal_token : Bytes → Option ℕ
parse_canonical_decimal_token bs =
    if starts_positive bs && all is_ascii_digit bs then fold_digits 0 bs else none

token-some :
    (t : Bytes) (n : ℕ)
    → starts_positive t ≡ true
    → all is_ascii_digit t ≡ true
    → fold_digits 0 t ≡ some n
    → (0 < n) × (n ≤ max_word) × (t ≡ decimal n)
unfolding value
token-some [] n positive digits h = absurd (ground (arith, positive))
token-some (b ∷ bs) n positive digits h =
    let (same, fits) = fold_digits-some 0 (b ∷ bs) n (omega arith) h in
    let big : leb b'1' b ≡ true = ground (arith, positive) in
    (
      omega (arith, same, value_ge (0 * 10 + (b - b'0')) bs, leb→le b'1' b big),
      fits,
      sym (ap decimal same ∙ decimal-value b bs big digits),
    )

-- A token is read as a number exactly where it is what is printed of that number, and the number is
-- positive and fits a `u64`: each number has one spelling.
pub token-iff-decimal :
    (bs : Bytes) (n : ℕ)
    → (parse_canonical_decimal_token bs ≡ some n) ↔ ((0 < n) × (n ≤ max_word) × (bs ≡ decimal n))
unfolding parse_canonical_decimal_token
token-iff-decimal bs n = (there, back)
  where
    there : parse_canonical_decimal_token bs ≡ some n → (0 < n) × (n ≤ max_word) × (bs ≡ decimal n)
    there h = elim (Bool-cases (starts_positive bs && all is_ascii_digit bs)) [
      | inl fine ↦ token-some bs n (ground (arith, fine)) (ground (arith, fine)) (rw (fine) at h)
      | inr bad ↦ absurd (none-ne-some (rw (bad) at h))
    ]

    back : (0 < n) × (n ≤ max_word) × (bs ≡ decimal n) → parse_canonical_decimal_token bs ≡ some n
    back (pos, fits, same) =
        let (b, cs, e, big) = decimal-cons n pos in
        let digits : all is_ascii_digit (b ∷ cs) ≡ true =
          subst (λ t. all is_ascii_digit t ≡ true) e (decimal-digits n) in
        let read : fold_digits 0 (b ∷ cs) ≡ some n =
          subst (λ t. fold_digits 0 t ≡ some n) e (fold_digits-decimal n fits) in
        subst (λ t. parse_canonical_decimal_token t ≡ some n) (sym (same ∙ e))
          (ground (arith, digits, big, read))

pub is_decimal-decimal : (n : ℕ) → is_decimal (decimal n) ≡ true
is_decimal-decimal n = elim (dec_lt 0 n) [
  | yes pos ↦
      let (b, bs, e, big) = decimal-cons n pos in
      ap (λ d. not (is_empty (decimal n)) && d) (decimal-digits n)
      ∙ ap (λ t. not (is_empty t) && true) e
  | no none_left ↦
      ap (λ d. not (is_empty (decimal n)) && d) (decimal-digits n)
      ∙ ap (λ i. not (is_empty (decimal i)) && true) (omega arith)
      ∙ ap (λ t. not (is_empty t) && true) decimal_zero
]

-- What is printed of a `u64` is read back.
pub parse_decimal_u64-decimal : (n : ℕ) → n ≤ max_word → parse_decimal_u64 (decimal n) ≡ ok n
unfolding parse_decimal_u64
parse_decimal_u64-decimal n fits =
    ap (λ b. guard b invalid_query >> ok_or (fold_digits 0 (decimal n)) invalid_query)
      (is_decimal-decimal n)
    ∙ ap (λ o. ok_or o invalid_query) (fold_digits-decimal n fits)

pub parse_content_length-decimal : (n : ℕ) → n ≤ max_word → parse_content_length (decimal n) ≡ ok n
unfolding parse_content_length
parse_content_length-decimal n fits =
    ap
      (λ b.
        guard b invalid_content_length >> ok_or (fold_digits 0 (decimal n)) invalid_content_length)
      (is_decimal-decimal n)
    ∙ ap (λ o. ok_or o invalid_content_length) (fold_digits-decimal n fits)
