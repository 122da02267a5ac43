-- ===== src/Management/MediaType.antt =====
-- `is_json_content_type` of src/management.rs, with what it uses of Rust's strings: the validity of
-- UTF-8, and the white space of Unicode that `trim` takes away, as bytes.
use c37_118_simulator.Prelude.{
  ◌≡◌, refl, ℕ, zero, suc, Bool, true, false, ◌&&◌, Option, none, some, List, [], ◌∷◌, ◌++◌, length,
  map, leb, ◌==◌, ltb, if◌then◌else◌,
}
use mathlib.Core.List.{reverse}
use c37_118_simulator.Prelude.Text.{Bytes, codes, split, eq_ignore_ascii_case}

-- What a leading byte announces: how many bytes follow, and the range of the first of them.
record Sequence : Type 0 where
  following : ℕ
  low : ℕ
  high : ℕ

abbrev sequence : ℕ → ℕ → ℕ → Option Sequence
sequence n low high = some (record { following = n; low = low; high = high })

utf8_lead : ℕ → Option Sequence
utf8_lead b =
    if ltb b 0x80
    then sequence 0 0x80 0xBF
    else if leb 0xC2 b && leb b 0xDF
    then sequence 1 0x80 0xBF
    else if b == 0xE0
    then sequence 2 0xA0 0xBF
    else if b == 0xED
    then sequence 2 0x80 0x9F
    else if leb 0xE1 b && leb b 0xEF
    then sequence 2 0x80 0xBF
    else if b == 0xF0
    then sequence 3 0x90 0xBF
    else if leb 0xF1 b && leb b 0xF3
    then sequence 3 0x80 0xBF
    else if b == 0xF4
    then sequence 3 0x80 0x8F
    else none

utf8_from : ℕ → ℕ → ℕ → Bytes → Bool
utf8_from n low high [] = n == 0
utf8_from zero low high (b ∷ bs) = elim (utf8_lead b) [
  | none ↦ false
  | some s ↦ utf8_from s.following s.low s.high bs
]
utf8_from (suc n) low high (b ∷ bs) = leb low b && leb b high && utf8_from n 0x80 0xBF bs

-- Whether `std::str::from_utf8` succeeds.
unfoldable pub is_utf8 : Bytes → Bool
unfolding utf8_from utf8_lead
is_utf8 bs = utf8_from 0 0x80 0xBF bs

abbrev white_space : List Bytes
white_space =
    (9 ∷ [])
    ∷ (10 ∷ [])
    ∷ (11 ∷ [])
    ∷ (12 ∷ [])
    ∷ (13 ∷ [])
    ∷ (32 ∷ [])
    ∷ (0xC2 ∷ 0x85 ∷ [])
    ∷ (0xC2 ∷ 0xA0 ∷ [])
    ∷ (0xE1 ∷ 0x9A ∷ 0x80 ∷ [])
    ∷ (0xE2 ∷ 0x80 ∷ 0x80 ∷ [])
    ∷ (0xE2 ∷ 0x80 ∷ 0x81 ∷ [])
    ∷ (0xE2 ∷ 0x80 ∷ 0x82 ∷ [])
    ∷ (0xE2 ∷ 0x80 ∷ 0x83 ∷ [])
    ∷ (0xE2 ∷ 0x80 ∷ 0x84 ∷ [])
    ∷ (0xE2 ∷ 0x80 ∷ 0x85 ∷ [])
    ∷ (0xE2 ∷ 0x80 ∷ 0x86 ∷ [])
    ∷ (0xE2 ∷ 0x80 ∷ 0x87 ∷ [])
    ∷ (0xE2 ∷ 0x80 ∷ 0x88 ∷ [])
    ∷ (0xE2 ∷ 0x80 ∷ 0x89 ∷ [])
    ∷ (0xE2 ∷ 0x80 ∷ 0x8A ∷ [])
    ∷ (0xE2 ∷ 0x80 ∷ 0xA8 ∷ [])
    ∷ (0xE2 ∷ 0x80 ∷ 0xA9 ∷ [])
    ∷ (0xE2 ∷ 0x80 ∷ 0xAF ∷ [])
    ∷ (0xE2 ∷ 0x81 ∷ 0x9F ∷ [])
    ∷ (0xE3 ∷ 0x80 ∷ 0x80 ∷ [])
    ∷ []

strip_prefix : Bytes → Bytes → Option Bytes
strip_prefix [] bs = some bs
strip_prefix (p ∷ ps) [] = none
strip_prefix (p ∷ ps) (b ∷ bs) = if p == b then strip_prefix ps bs else none

abbrev or_else : Option Bytes → Option Bytes → Option Bytes
or_else none o = o
or_else (some bs) o = some bs

strip_any : List Bytes → Bytes → Option Bytes
unfolding strip_prefix
strip_any [] bs = none
strip_any (p ∷ ps) bs = or_else (strip_prefix p bs) (strip_any ps bs)

-- The white space at the start, at most as many times as there are bytes.
strip_all : ℕ → List Bytes → Bytes → Bytes
strip_all zero spaces bs = bs
strip_all (suc fuel) spaces bs = elim (strip_any spaces bs) [
  | none ↦ bs
  | some rest ↦ strip_all fuel spaces rest
]

-- `str::trim`
unfoldable pub trim : Bytes → Bytes
unfolding strip_all strip_any
trim bs =
    let front = strip_all (length bs) white_space bs in
    reverse (strip_all (length front) (map reverse white_space) (reverse front))

abbrev first_part : List Bytes → Bytes
first_part [] = []
first_part (part ∷ parts) = part

unfoldable pub is_json_content_type : Bytes → Bool
unfolding is_utf8 trim
is_json_content_type value =
    if is_utf8 value
    then eq_ignore_ascii_case (trim (first_part (split b';' value))) (codes "application/json")
    else false

json_with_charset : is_json_content_type (codes " Application/JSON ; charset=utf-8") ≡ true
unfolding is_json_content_type split
json_with_charset = refl

json_not_utf8 : is_json_content_type (codes "application/json;" ++ 0xFF ∷ []) ≡ false
unfolding is_json_content_type
json_not_utf8 = refl
