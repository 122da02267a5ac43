-- ===== src/Wire/Image.antt =====
-- The layout of a frame, described without writes: fourteen header bytes, the body, the checksum.
-- `first` is the byte of the frame type and the version, `quality` the byte above the fraction.
use c37_118_simulator.Prelude.{
  ℕ, ◌+◌, ◌-◌, ◌≡◌, refl, [], copy_at, copy_at-append, ap, ◌∙◌, sym, true, List, ◌∷◌, ◌++◌, length,
  All, All-append, length-append, take, drop, take-append, get_or, arith, ==_iff,
}
use c37_118_simulator.Wire.Bytes.{IsByte, IsU16, be16, be32, from_be16, from_be16-be16}
use c37_118_simulator.Wire.Frame.{Timestamp, IsTimestamp}
use c37_118_simulator.Wire.Crc.{crc16_ccitt, checksum_matches, seal}
use c37_118_simulator.Wire.Crc.Residue.{checksum_matches-append, crc16_ccitt-IsU16}

pub record Layout : Type 0 where
  pub first : ℕ
  pub idcode : ℕ
  pub time : Timestamp
  pub quality : ℕ
  pub body : List ℕ

abbrev pub frame_size : Layout → ℕ
frame_size l = 16 + length l.body

-- The fields fit their places in the frame.
pub record Fits (l : Layout) : Type 0 where
  pub first_byte : IsByte l.first
  pub idcode_fits : IsU16 l.idcode
  pub time_fits : IsTimestamp l.time
  pub quality_byte : IsByte l.quality
  pub body_bytes : All IsByte l.body
  pub size_fits : IsU16 (frame_size l)

abbrev pub header : ℕ → Layout → List ℕ
header size l =
    0xaa ∷ l.first ∷ be16 size
    ++ be16 l.idcode
    ++ be32 l.time.soc
    ++ l.quality ∷ drop 1 (be32 l.time.fracsec)

abbrev pub payload : Layout → List ℕ
payload l = header (frame_size l) l ++ l.body

unfoldable pub image : Layout → List ℕ
image l = payload l ++ be16 (crc16_ccitt (payload l))

pub length-image : (l : Layout) → length (image l) ≡ frame_size l
unfolding image
length-image l = omega (arith, length-append l.body (be16 (crc16_ccitt (payload l))))

header_bytes :
    (l : Layout) → IsByte l.first → IsByte l.quality → All IsByte (header (frame_size l) l)
header_bytes l h k = omega arith

pub payload-All : (l : Layout) → Fits l → All IsByte (payload l)
payload-All l f =
    All-append IsByte (header (frame_size l) l) l.body (header_bytes l f.first_byte f.quality_byte)
      f.body_bytes

pub checksum_matches-image : (l : Layout) → Fits l → checksum_matches (image l) ≡ true
unfolding image
checksum_matches-image l f =
    checksum_matches-append (payload l) _ _
    ∙ (==_iff _ _).1 (
        sym (
          from_be16-be16 (crc16_ccitt (payload l))
            (crc16_ccitt-IsU16 (payload l) (payload-All l f))))

pub image_size :
    (l : Layout) → Fits l → from_be16 (get_or (image l) 2 0) (get_or (image l) 3 0) ≡ frame_size l
unfolding image
image_size l f = omega (arith, f.size_fits)

pub image_body : (l : Layout) → take (length (image l) - 2 - 14) (drop 14 (image l)) ≡ l.body
unfolding image
image_body l =
    ap (λ n. take n (l.body ++ be16 (crc16_ccitt (payload l)))) count
    ∙ take-append l.body (be16 (crc16_ccitt (payload l)))
  where
    count : length (payload l ++ be16 (crc16_ccitt (payload l))) - 2 - 14 ≡ length l.body
    count = omega (arith, length-append l.body (be16 (crc16_ccitt (payload l))))

-- `seal` writes the checksum over the last two bytes.
pub seal-append :
    (xs : List ℕ) (a b : ℕ) → seal (xs ++ a ∷ b ∷ []) (length xs) ≡ xs ++ be16 (crc16_ccitt xs)
unfolding seal
seal-append xs a b =
    ap (λ ys. copy_at (xs ++ a ∷ b ∷ []) (length xs) (be16 (crc16_ccitt ys))) (take-append xs _)
    ∙ copy_at-append xs (a ∷ b ∷ []) (be16 (crc16_ccitt xs)) [] refl

-- Sealing a header, a body and two more bytes makes the frame of that layout.
pub seal-image :
    (l : Layout) (a b : ℕ)
    → seal (header (frame_size l) l ++ (l.body ++ a ∷ b ∷ [])) (frame_size l - 2) ≡ image l
unfolding image
seal-image l a b = ap (seal (payload l ++ a ∷ b ∷ [])) size ∙ seal-append (payload l) a b
  where
    size : frame_size l - 2 ≡ length (payload l)
    size = omega arith
