-- ===== src/Wire/Crc/Residue.antt =====
-- The checksum of a frame that carries its own checksum is zero, and no other frame's is.
use c37_118_simulator.Prelude.{
  ℕ, ◌+◌, ◌*◌, ◌/◌, ◌%◌, ◌≤◌, ◌≡◌, refl, sym, ap, ap₂, ◌∙◌, ◌↔◌, true, false, List, [], ◌∷◌, ◌++◌,
  length, All, get_or, take-append, length-append, get_or-append_right, bit_xor, arith, ◌==◌,
  ==_iff, if◌then◌else◌, ltb-eq-false,
}
use c37_118_simulator.Prelude.Bits.{bit_xor_self, bit_xor_comm, bit_xor_injective, bit_xor-lt}
use c37_118_simulator.Wire.Bytes.{IsU16, IsByte, from_be16}
use c37_118_simulator.Wire.Crc.{
  crc_shift, crc_shifts, crc_byte, crc_loop, crc16_ccitt, checksum_at, checksum_matches,
}
use c37_118_simulator.Wire.Crc.Shift.{crc_shifts-IsU16, crc_shifts_injective}
use c37_118_simulator.Wire.Crc.Pair.{crc_pair, crc_pair_lem, crc_byte_lem}

abbrev word : ℕ → ℕ → ℕ
word b c = b * 256 + c

word-IsU16 : (b c : ℕ) → IsByte b → IsByte c → IsU16 (word b c)
word-IsU16 b c hb hc = omega arith

shifts_zero : crc_shifts 16 0 ≡ 0
unfolding crc_shifts crc_shift
shifts_zero = refl

pub crc_pair_zero : (s b c : ℕ) → IsByte b → IsByte c → s ≡ word b c → crc_pair s b c ≡ 0
crc_pair_zero s b c hb hc e =
    crc_pair_lem s b c (rw e (word-IsU16 b c hb hc)) hb hc
    ∙ ap (crc_shifts 16) (ap (λ t. bit_xor t (word b c)) e ∙ bit_xor_self (word b c))
    ∙ shifts_zero

pub crc_pair_injective :
    (s b c b' c' : ℕ)
    → IsU16 s
    → IsByte b
    → IsByte c
    → IsByte b'
    → IsByte c'
    → crc_pair s b c ≡ crc_pair s b' c'
    → (b ≡ b') × (c ≡ c')
crc_pair_injective s b c b' c' hs hb hc hb' hc' e = omega (arith, same_word)
  where
    masked : (x y : ℕ) → IsByte x → IsByte y → IsU16 (bit_xor s (word x y))
    masked x y hx hy = bit_xor-lt 16 s (word x y) hs (word-IsU16 x y hx hy)

    same_masked : bit_xor s (word b c) ≡ bit_xor s (word b' c')
    same_masked =
        crc_shifts_injective 16 _ _ (masked b c hb hc) (masked b' c' hb' hc')
          (sym (crc_pair_lem s b c hs hb hc) ∙ e ∙ crc_pair_lem s b' c' hs hb' hc')

    same_word : word b c ≡ word b' c'
    same_word =
        bit_xor_injective (word b c) (word b' c') s
          (bit_xor_comm (word b c) s ∙ same_masked ∙ bit_xor_comm s (word b' c'))

pub crc_pair_zero_only :
    (s b c : ℕ) → IsU16 s → IsByte b → IsByte c → crc_pair s b c ≡ 0 → s ≡ word b c
crc_pair_zero_only s b c hs hb hc e = omega (
  arith,
  crc_pair_injective s b c (s / 256) (s % 256) hs hb hc (omega arith) (omega arith)
      (e ∙ sym (crc_pair_zero s (s / 256) (s % 256) (omega arith) (omega arith) (omega arith))),
)

pub crc_byte-IsU16 : (s b : ℕ) → IsU16 s → IsByte b → IsU16 (crc_byte s b)
crc_byte-IsU16 s b hs hb =
    rw (crc_byte_lem s b hb) (crc_shifts-IsU16 8 _ (bit_xor-lt 16 s (b * 256) hs (omega arith)))

pub crc_byte_injective :
    (s t b : ℕ) → IsU16 s → IsU16 t → IsByte b → crc_byte s b ≡ crc_byte t b → s ≡ t
crc_byte_injective s t b hs ht hb e = bit_xor_injective s t (b * 256) (
    crc_shifts_injective 8 _ _ (bit_xor-lt 16 s (b * 256) hs (omega arith))
      (bit_xor-lt 16 t (b * 256) ht (omega arith))
      (sym (crc_byte_lem s b hb) ∙ e ∙ crc_byte_lem t b hb))

pub crc_loop-append : (s : ℕ) (xs ys : List ℕ) → crc_loop s (xs ++ ys) ≡ crc_loop (crc_loop s xs) ys
unfolding crc_loop
crc_loop-append s [] ys = refl
crc_loop-append s (x ∷ xs) ys = crc_loop-append (crc_byte s x) xs ys

pub crc_loop-IsU16 : (s : ℕ) (xs : List ℕ) → IsU16 s → All IsByte xs → IsU16 (crc_loop s xs)
unfolding crc_loop
crc_loop-IsU16 s [] hs h = hs
crc_loop-IsU16 s (x ∷ xs) hs (hx, h) = crc_loop-IsU16 (crc_byte s x) xs (crc_byte-IsU16 s x hs hx) h

pub crc_loop_injective :
    (s t : ℕ) (xs : List ℕ)
    → IsU16 s
    → IsU16 t
    → All IsByte xs
    → crc_loop s xs ≡ crc_loop t xs
    → s ≡ t
unfolding crc_loop
crc_loop_injective s t [] hs ht h e = e
crc_loop_injective s t (x ∷ xs) hs ht (hx, h) e = crc_byte_injective s t x hs ht hx (
    crc_loop_injective (crc_byte s x) (crc_byte t x) xs (crc_byte-IsU16 s x hs hx)
      (crc_byte-IsU16 t x ht hx) h e)

-- The value is a `u16`.
pub crc16_ccitt-IsU16 : (xs : List ℕ) → All IsByte xs → IsU16 (crc16_ccitt xs)
unfolding crc16_ccitt
crc16_ccitt-IsU16 xs h = crc_loop-IsU16 0xffff xs (omega arith) h

pub checksum_at-append :
    (body : List ℕ) (b c : ℕ)
    → checksum_at (body ++ b ∷ c ∷ []) (length body) ≡ (crc16_ccitt body == from_be16 b c)
unfolding checksum_at
checksum_at-append body b c = simp (take-append, get_or-append_right, first)
  where
    first : get_or (body ++ b ∷ c ∷ []) (length body) 0 ≡ b
    first = ap (λ n. get_or (body ++ b ∷ c ∷ []) n 0) plus_zero ∙ get_or-append_right body _ 0 0
      where
        plus_zero : length body ≡ length body + 0
        plus_zero = omega arith

-- What `checksum_matches` compares, on a frame that ends in the bytes `b` and `c`.
pub checksum_matches-append :
    (body : List ℕ) (b c : ℕ)
    → checksum_matches (body ++ b ∷ c ∷ []) ≡ (crc16_ccitt body == from_be16 b c)
unfolding checksum_matches
checksum_matches-append body b c =
    ap₂ (λ short n. if short then false else checksum_at frame n)
      (ltb-eq-false (length frame) 2 (omega (arith, long))) (omega (arith, long))
    ∙ checksum_at-append body b c
  where
    frame : List ℕ
    frame = body ++ b ∷ c ∷ []

    long : length frame ≡ length body + 2
    long = length-append body (b ∷ c ∷ [])

-- A list of two bytes or more, taken apart at its end.
split_last_two :
    (xs : List ℕ) → 2 ≤ length xs → (body : List ℕ) × (b : ℕ) × (c : ℕ) × (xs ≡ body ++ b ∷ c ∷ [])
split_last_two [] h = absurd (omega arith)
split_last_two (x ∷ []) h = absurd (omega arith)
split_last_two (x ∷ y ∷ []) h = ([], x, y, refl)
split_last_two (x ∷ y ∷ z ∷ xs) h =
    let (body, b, c, e) = split_last_two (y ∷ z ∷ xs) (omega arith) in
    (x ∷ body, b, c, ap (λ l. x ∷ l) e)

All-append_right : (xs ys : List ℕ) → All IsByte (xs ++ ys) → All IsByte ys
All-append_right [] ys h = h
All-append_right (x ∷ xs) ys h = All-append_right xs ys h.1

All-append_left : (xs ys : List ℕ) → All IsByte (xs ++ ys) → All IsByte xs
All-append_left [] ys h = tt
All-append_left (x ∷ xs) ys h = (h.0, All-append_left xs ys h.1)

crc16_ccitt-pair :
    (body : List ℕ) (b c : ℕ) → crc16_ccitt (body ++ b ∷ c ∷ []) ≡ crc_pair (crc16_ccitt body) b c
unfolding crc16_ccitt crc_loop
crc16_ccitt-pair body b c = crc_loop-append 0xffff body (b ∷ c ∷ [])

residue_of_parts :
    (body : List ℕ) (b c : ℕ)
    → All IsByte (body ++ b ∷ c ∷ [])
    → (checksum_matches (body ++ b ∷ c ∷ []) ≡ true) ↔ (crc16_ccitt (body ++ b ∷ c ∷ []) ≡ 0)
residue_of_parts body b c h = (
  λ m.
      crc16_ccitt-pair body b c
      ∙ crc_pair_zero (crc16_ccitt body) b c hb hc (
          (==_iff (crc16_ccitt body) (from_be16 b c)).0
            (sym (checksum_matches-append body b c) ∙ m)),
  λ z.
      checksum_matches-append body b c
      ∙ (==_iff (crc16_ccitt body) (from_be16 b c)).1 (
          crc_pair_zero_only (crc16_ccitt body) b c
            (crc16_ccitt-IsU16 body (All-append_left body (b ∷ c ∷ []) h)) hb hc
            (sym (crc16_ccitt-pair body b c) ∙ z)),
)
  where
    hb : IsByte b
    hb = (All-append_right body (b ∷ c ∷ []) h).0

    hc : IsByte c
    hc = (All-append_right body (b ∷ c ∷ []) h).1.0

-- A frame of at least two bytes passes the test exactly when the checksum of the whole frame, its
-- own checksum field included, is zero.
pub checksum_matches_iff_residue :
    (frame : List ℕ)
    → All IsByte frame
    → 2 ≤ length frame
    → (checksum_matches frame ≡ true) ↔ (crc16_ccitt frame ≡ 0)
checksum_matches_iff_residue frame h long = rw e (residue_of_parts body b c (rw e at h))
  where
    parts : (body : List ℕ) × (b : ℕ) × (c : ℕ) × (frame ≡ body ++ b ∷ c ∷ [])
    parts = split_last_two frame long

    body : List ℕ
    body = parts.0

    b : ℕ
    b = parts.1

    c : ℕ
    c = parts.2

    e : frame ≡ body ++ b ∷ c ∷ []
    e = parts.3
