-- ===== src/Prelude/Text.antt =====
-- Text as its bytes: literals, the ASCII classes of Rust, and splitting at a byte.
use Prim.Native.Nat.{ℕ, ◌+◌}
use Prim.Native.Char.{code}
use Prim.Native.String.{String}
use mathlib.Core.Path.{◌≡◌, refl}
use mathlib.Core.Logic.{◌↔◌}
use mathlib.Core.Bool.{Bool, true, false, ◌&&◌, ◌||◌}
use mathlib.Core.Option.{Option, none, some}
use mathlib.Core.List.{List, [], ◌∷◌, ◌++◌}
use native.Mathlib.Omega.{arith}
use c37_118_simulator.Prelude.Tests.{leb, ◌==◌, if◌then◌else◌}

abbrev pub Bytes : Type 0
Bytes = List ℕ

abbrev pub codes : String → Bytes
codes String.[] = []
codes (String.◌∷◌ c s) = code c ∷ codes s

abbrev pub bytes_eqb : Bytes → Bytes → Bool
bytes_eqb [] [] = true
bytes_eqb [] (y ∷ ys) = false
bytes_eqb (x ∷ xs) [] = false
bytes_eqb (x ∷ xs) (y ∷ ys) = (x == y) && bytes_eqb xs ys

pub bytes_eqb_iff : (a b : Bytes) → (bytes_eqb a b ≡ true) ↔ (a ≡ b)
bytes_eqb_iff [] [] = ground arith
bytes_eqb_iff [] (y ∷ ys) = ground arith
bytes_eqb_iff (x ∷ xs) [] = ground arith
bytes_eqb_iff (x ∷ xs) (y ∷ ys) = ground (arith, bytes_eqb_iff xs ys)

abbrev pub is_ascii_digit : ℕ → Bool
is_ascii_digit b = leb b'0' b && leb b b'9'

abbrev pub is_ascii_lowercase : ℕ → Bool
is_ascii_lowercase b = leb b'a' b && leb b b'z'

abbrev pub is_ascii_uppercase : ℕ → Bool
is_ascii_uppercase b = leb b'A' b && leb b b'Z'

abbrev pub is_ascii_hexdigit : ℕ → Bool
is_ascii_hexdigit b = is_ascii_digit b || leb b'a' b && leb b b'f' || leb b'A' b && leb b b'F'

-- Space, tab, line feed, form feed and carriage return.
abbrev pub is_ascii_whitespace : ℕ → Bool
is_ascii_whitespace b = (b == 32) || (b == 9) || (b == 10) || (b == 12) || (b == 13)

abbrev pub is_ascii_control : ℕ → Bool
is_ascii_control b = leb b 31 || (b == 127)

abbrev pub to_ascii_lowercase : ℕ → ℕ
to_ascii_lowercase b = if is_ascii_uppercase b then b + 32 else b

abbrev pub lowercase : Bytes → Bytes
lowercase [] = []
lowercase (b ∷ bs) = to_ascii_lowercase b ∷ lowercase bs

abbrev pub eq_ignore_ascii_case : Bytes → Bytes → Bool
eq_ignore_ascii_case a b = bytes_eqb (lowercase a) (lowercase b)

abbrev pub all : (ℕ → Bool) → Bytes → Bool
all p [] = true
all p (b ∷ bs) = p b && all p bs

abbrev pub any : (ℕ → Bool) → Bytes → Bool
any p [] = false
any p (b ∷ bs) = p b || any p bs

abbrev pub is_empty {ℓ} : {A : Type ℓ} → List A → Bool
is_empty [] = true
is_empty (x ∷ xs) = false

abbrev pub contains_byte : ℕ → Bytes → Bool
contains_byte c bs = any (λ b. b == c) bs

abbrev pub push_first : ℕ → Option (Bytes × Bytes) → Option (Bytes × Bytes)
push_first b none = none
push_first b (some (before, after)) = some (b ∷ before, after)

-- `str::split_once`
unfoldable pub split_once : ℕ → Bytes → Option (Bytes × Bytes)
split_once c [] = none
split_once c (b ∷ bs) = if b == c then some ([], bs) else push_first b (split_once c bs)

abbrev pub push_part : ℕ → List Bytes → List Bytes
push_part b [] = (b ∷ []) ∷ []
push_part b (part ∷ parts) = (b ∷ part) ∷ parts

-- `str::split`
unfoldable pub split : ℕ → Bytes → List Bytes
split c [] = [] ∷ []
split c (b ∷ bs) = let rest = split c bs in if b == c then [] ∷ rest else push_part b rest

pub split_once-append :
    (c : ℕ) (xs ys : Bytes)
    → contains_byte c xs ≡ false
    → split_once c (xs ++ c ∷ ys) ≡ some (xs, ys)
unfolding split_once
split_once-append c [] ys h = ground arith
split_once-append c (x ∷ xs) ys h = ground (arith, split_once-append c xs ys)

pub split_once-none : (c : ℕ) (xs : Bytes) → contains_byte c xs ≡ false → split_once c xs ≡ none
unfolding split_once
split_once-none c [] h = refl
split_once-none c (x ∷ xs) h = ground (arith, split_once-none c xs)

pub split-append :
    (c : ℕ) (xs ys : Bytes) → contains_byte c xs ≡ false → split c (xs ++ c ∷ ys) ≡ xs ∷ split c ys
unfolding split
split-append c [] ys h = ground arith
split-append c (x ∷ xs) ys h = ground (arith, split-append c xs ys)

pub split-whole : (c : ℕ) (xs : Bytes) → contains_byte c xs ≡ false → split c xs ≡ xs ∷ []
unfolding split
split-whole c [] h = refl
split-whole c (x ∷ xs) h = ground (arith, split-whole c xs)

pub all-contains_byte :
    (p : ℕ → Bool) (c : ℕ) (bs : Bytes) → p c ≡ false → all p bs ≡ true → contains_byte c bs ≡ false
all-contains_byte p c [] h k = refl
all-contains_byte p c (b ∷ bs) h k = ground (arith, all-contains_byte p c bs h)

pub contains_byte-append :
    (c : ℕ) (xs ys : Bytes)
    → contains_byte c xs ≡ false
    → contains_byte c ys ≡ false
    → contains_byte c (xs ++ ys) ≡ false
contains_byte-append c [] ys h k = k
contains_byte-append c (x ∷ xs) ys h k = ground (arith, contains_byte-append c xs ys)
