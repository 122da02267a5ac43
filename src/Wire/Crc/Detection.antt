-- ===== src/Wire/Crc/Detection.antt =====
-- Errors on the line that the checksum of a frame detects.
use c37_118_simulator.Prelude.{
  ℕ, ◌≡◌, ◌≢◌, sym, ◌∙◌, ◌⊎◌, inl, inr, true, false, List, ◌∷◌, ◌++◌, All, All-append,
  length-append, arith, Bool-cases,
}
use c37_118_simulator.Wire.Bytes.{IsU16, IsByte}
use c37_118_simulator.Wire.Crc.{crc16_ccitt, crc_loop, checksum_matches}
use c37_118_simulator.Wire.Crc.Pair.{crc_pair}
use c37_118_simulator.Wire.Crc.Residue.{
  checksum_matches_iff_residue, crc_loop-append, crc_loop_injective, crc_loop-IsU16,
  crc_pair_injective, crc_byte-IsU16,
}

crc16_ccitt-middle :
    (front back : List ℕ) (b c : ℕ)
    → crc16_ccitt (front ++ b ∷ c ∷ back) ≡ crc_loop (crc_pair (crc_loop 0xffff front) b c) back
unfolding crc16_ccitt crc_loop
crc16_ccitt-middle front back b c = crc_loop-append 0xffff front (b ∷ c ∷ back)

residue :
    (front back : List ℕ) (x y : ℕ)
    → All IsByte front
    → All IsByte back
    → IsByte x
    → IsByte y
    → checksum_matches (front ++ x ∷ y ∷ back) ≡ true
    → crc16_ccitt (front ++ x ∷ y ∷ back) ≡ 0
residue front back x y hf hb hx hy =
    (checksum_matches_iff_residue (front ++ x ∷ y ∷ back)
      (All-append IsByte front (x ∷ y ∷ back) hf (hx, (hy, hb)))
      (omega (arith, length-append front (x ∷ y ∷ back)))).0

module _ (front back : List ℕ) (b c b' c' : ℕ) (front_bytes : All IsByte front)
    (back_bytes : All IsByte back) (hb : IsByte b) (hc : IsByte c) (hb' : IsByte b')
    (hc' : IsByte c') where
  register-IsU16 : IsU16 (crc_loop 0xffff front)
  register-IsU16 = crc_loop-IsU16 0xffff front (omega arith) front_bytes

  same_checksum_same_pair :
      crc16_ccitt (front ++ b ∷ c ∷ back) ≡ crc16_ccitt (front ++ b' ∷ c' ∷ back)
      → (b ≡ b') × (c ≡ c')
  same_checksum_same_pair e =
      crc_pair_injective (crc_loop 0xffff front) b c b' c' register-IsU16 hb hc hb' hc' (
        crc_loop_injective _ _ back (after b c hb hc) (after b' c' hb' hc') back_bytes
          (sym (crc16_ccitt-middle front back b c) ∙ e ∙ crc16_ccitt-middle front back b' c'))
    where
      after : (x y : ℕ) → IsByte x → IsByte y → IsU16 (crc_pair (crc_loop 0xffff front) x y)
      after x y hx hy = crc_byte-IsU16 _ y (crc_byte-IsU16 _ x register-IsU16 hx) hy

  -- A frame of bytes that passes the test stops passing it when two neighbouring bytes, wherever
  -- they stand, checksum field included, are replaced by two bytes that differ in one of the places.
  pub checksum_matches_detects_burst :
      checksum_matches (front ++ b ∷ c ∷ back) ≡ true
      → (b ≢ b') ⊎ (c ≢ c')
      → checksum_matches (front ++ b' ∷ c' ∷ back) ≡ false
  checksum_matches_detects_burst good differs =
      elim (Bool-cases (checksum_matches (front ++ b' ∷ c' ∷ back))) [
        | inl passes ↦ absurd (
            refute differs (
              same_checksum_same_pair (
                residue front back b c front_bytes back_bytes hb hc good
                ∙ sym (residue front back b' c' front_bytes back_bytes hb' hc' passes))))
        | inr fails ↦ fails
      ]
    where
      refute : (b ≢ b') ⊎ (c ≢ c') → (b ≡ b') × (c ≡ c') → ⊥
      refute (inl ne) same = ne same.0
      refute (inr ne) same = ne same.1
