-- ===== src/Management/Headers/Values.antt =====
-- What src/management.rs accepts as the value of a Host and of a Content-Length header.
use c37_118_simulator.Prelude.{
  ℕ, ◌≤◌, ◌<◌, ◌≡◌, ◌≢◌, ◌⊎◌, inl, inr, refl, ap, Bool, true, false, ◌||◌, ◌==◌, [], ◌∷◌, ◌++◌,
  length, All, Bool-cases, arith, if◌then◌else◌,
}
use c37_118_simulator.Prelude.Text.{
  Bytes, all, any, is_ascii_digit, is_ascii_whitespace, is_ascii_control,
}
use c37_118_simulator.Prelude.Decimal.{max_word, fold_digits, value, fold_digits-some}
use c37_118_simulator.Management.Errors.{invalid_content_length}
use c37_118_simulator.Management.Requests.{ok, ok_or, guard-ok, ok_or-ok}
use c37_118_simulator.Management.Numbers.{is_decimal, parse_content_length}
use c37_118_simulator.Management.Headers.{trim_leading_http_whitespace, is_valid_host}

-- A text of decimal digits, at least one, that stands for `n`, and `n` fits a `u64`.
pub record Spells (bs : Bytes) (n : ℕ) : Type 0 where
  pub some_digit : 0 < length bs
  pub digits : All (λ b. (b'0' ≤ b) × (b ≤ b'9')) bs
  pub stands_for : n ≡ value 0 bs
  pub fits : n ≤ max_word

all-digits : (bs : Bytes) → all is_ascii_digit bs ≡ true → All (λ b. (b'0' ≤ b) × (b ≤ b'9')) bs
all-digits [] h = tt
all-digits (b ∷ bs) h = (ground (arith, h), all-digits bs (ground (arith, h)))

is_decimal-length : (bs : Bytes) → is_decimal bs ≡ true → 0 < length bs
is_decimal-length [] h = absurd (ground (arith, h))
is_decimal-length (b ∷ bs) h = omega arith

pub parse_content_length-Spells :
    (bs : Bytes) (n : ℕ) → parse_content_length bs ≡ ok n → Spells bs n
unfolding parse_content_length
parse_content_length-Spells bs n e =
    let (decimal, read) =
      guard-ok (is_decimal bs) invalid_content_length
        (ok_or (fold_digits 0 bs) invalid_content_length) n e in
    let (same, small) =
      fold_digits-some 0 bs n (omega arith)
        (ok_or-ok (fold_digits 0 bs) invalid_content_length n read) in
    record {
      some_digit = is_decimal-length bs decimal;
      digits = all-digits bs (ground (arith, decimal));
      stands_for = same;
      fits = small;
    }

-- Blanks, and then a name of at least one byte, without blanks and control characters.
pub record NamesHost (bs : Bytes) : Type 0 where
  pub blanks : Bytes
  pub host : Bytes
  pub parts : bs ≡ blanks ++ host
  pub all_blank : All (λ b. (b ≡ b' ') ⊎ (b ≡ 9)) blanks
  pub some_host : 0 < length host
  pub visible : All (λ b. (b' ' < b) × (b ≢ 127)) host

any-visible :
    (bs : Bytes)
    → any (λ b. is_ascii_whitespace b || is_ascii_control b) bs ≡ false
    → All (λ b. (b' ' < b) × (b ≢ 127)) bs
any-visible [] h = tt
any-visible (b ∷ bs) h =
    ((ground (arith, h), λ e. ground (arith, h, e)), any-visible bs (ground (arith, h)))

is_blank : (b : ℕ) → (b == b' ') || (b == 9) ≡ true → (b ≡ b' ') ⊎ (b ≡ 9)
is_blank b h = elim (Bool-cases (b == b' ')) [
  | inl e ↦ inl (ground (arith, e))
  | inr e ↦ inr (ground (arith, e, h))
]

is_valid_host-NamesHost : (bs : Bytes) → is_valid_host bs ≡ true → NamesHost bs
is_valid_host-NamesHost [] h = absurd (ground (arith, h))
is_valid_host-NamesHost (b ∷ bs) h = record {
  blanks = [];
  host = b ∷ bs;
  parts = refl;
  all_blank = tt;
  some_host = omega arith;
  visible = any-visible (b ∷ bs) (ground (arith, h));
}

pub trim-NamesHost :
    (bs : Bytes) → is_valid_host (trim_leading_http_whitespace bs) ≡ true → NamesHost bs
trim-NamesHost [] h = is_valid_host-NamesHost [] h
trim-NamesHost (b ∷ bs) h = go ((b == b' ') || (b == 9)) refl h (trim-NamesHost bs)
  where
    go :
        (t : Bool)
        → (b == b' ') || (b == 9) ≡ t
        → is_valid_host (if t then trim_leading_http_whitespace bs else b ∷ bs) ≡ true
        → (is_valid_host (trim_leading_http_whitespace bs) ≡ true → NamesHost bs)
        → NamesHost (b ∷ bs)
    go true e k ih =
        let w = ih k in
        record {
          blanks = b ∷ w.blanks;
          host = w.host;
          parts = ap (λ (cs : Bytes). b ∷ cs) w.parts;
          all_blank = (is_blank b e, w.all_blank);
          some_host = w.some_host;
          visible = w.visible;
        }
    go false e k ih = is_valid_host-NamesHost (b ∷ bs) k
