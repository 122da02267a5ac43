-- ===== src/Prelude/Lists.antt =====
-- Lists measured and indexed by native numbers, under the library's names, and the slices of Rust.
use Prim.Native.Nat.{ℕ, zero, suc, ◌+◌, ◌-◌, ◌≤◌, ◌<◌, min}
use mathlib.Core.Path.{◌≡◌, refl, sym, ap, ◌∙◌}
use mathlib.Core.List.{List, [], ◌∷◌, ◌++◌}
use native.Mathlib.Omega.{arith}
use c37_118_simulator.Prelude.Tests.{ltb, if◌then◌else◌}

module _ {ℓ} {A : Type ℓ} where
  abbrev pub length : List A → ℕ
  length [] = 0
  length (x ∷ xs) = suc (length xs)

  abbrev pub get_or : List A → ℕ → A → A
  get_or [] i d = d
  get_or (x ∷ xs) zero d = x
  get_or (x ∷ xs) (suc i) d = get_or xs i d

  abbrev pub take : ℕ → List A → List A
  take zero xs = []
  take (suc n) [] = []
  take (suc n) (x ∷ xs) = x ∷ take n xs

  abbrev pub drop : ℕ → List A → List A
  drop zero xs = xs
  drop (suc n) [] = []
  drop (suc n) (x ∷ xs) = drop n xs

  abbrev pub replicate : ℕ → A → List A
  replicate zero a = []
  replicate (suc n) a = a ∷ replicate n a

  -- A write out of bounds changes nothing.
  abbrev pub set : List A → ℕ → A → List A
  set [] i v = []
  set (x ∷ xs) zero v = v ∷ xs
  set (x ∷ xs) (suc i) v = x ∷ set xs i v

  -- `xs[i..i + v.len()].copy_from_slice(v)`, where that range lies inside `xs`.
  abbrev pub copy_at : List A → ℕ → List A → List A
  copy_at xs i [] = xs
  copy_at xs i (v ∷ vs) = set (copy_at xs (suc i) vs) i v

  abbrev pub All {κ} : (A → Type κ) → List A → Type κ
  All P [] = Unit {κ}
  All P (x ∷ xs) = P x × All P xs

module _ {ℓ} {A : Type ℓ} where
  pub length-append : (xs ys : List A) → length (xs ++ ys) ≡ length xs + length ys
  length-append [] ys = omega arith
  length-append (x ∷ xs) ys = omega (arith, length-append xs ys)

  pub length-replicate : (n : ℕ) (a : A) → length (replicate n a) ≡ n
  length-replicate zero a = refl
  length-replicate (suc n) a = ap suc (length-replicate n a)

  pub take-append : (xs ys : List A) → take (length xs) (xs ++ ys) ≡ xs
  take-append [] ys = refl
  take-append (x ∷ xs) ys = ap (λ zs. x ∷ zs) (take-append xs ys)

  pub drop-append : (xs ys : List A) → drop (length xs) (xs ++ ys) ≡ ys
  drop-append [] ys = refl
  drop-append (x ∷ xs) ys = drop-append xs ys

  pub take-append-drop : (n : ℕ) (xs : List A) → take n xs ++ drop n xs ≡ xs
  take-append-drop zero xs = refl
  take-append-drop (suc n) [] = refl
  take-append-drop (suc n) (x ∷ xs) = ap (λ zs. x ∷ zs) (take-append-drop n xs)

  pub length-take : (n : ℕ) (xs : List A) → length (take n xs) ≡ min n (length xs)
  length-take zero xs = omega arith
  length-take (suc n) [] = omega arith
  length-take (suc n) (x ∷ xs) = omega (arith, length-take n xs)

  pub length-drop : (n : ℕ) (xs : List A) → length (drop n xs) ≡ length xs - n
  length-drop zero xs = omega arith
  length-drop (suc n) [] = omega arith
  length-drop (suc n) (x ∷ xs) = omega (arith, length-drop n xs)

  pub get_or-append_left :
      (xs ys : List A) (i : ℕ) (d : A) → i < length xs → get_or (xs ++ ys) i d ≡ get_or xs i d
  get_or-append_left [] ys i d h = absurd (omega arith)
  get_or-append_left (x ∷ xs) ys zero d h = refl
  get_or-append_left (x ∷ xs) ys (suc i) d h = get_or-append_left xs ys i d (omega arith)

  pub get_or-append_right :
      (xs ys : List A) (i : ℕ) (d : A) → get_or (xs ++ ys) (length xs + i) d ≡ get_or ys i d
  get_or-append_right [] ys i d = ap (λ (n : ℕ). get_or ys n d) (omega arith)
  get_or-append_right (x ∷ xs) ys i d =
      ap (λ (n : ℕ). get_or (x ∷ xs ++ ys) n d) (suc-add (length xs) i)
      ∙ get_or-append_right xs ys i d
    where
      suc-add : (m n : ℕ) → suc m + n ≡ suc (m + n)
      suc-add m n = omega arith

  pub All-append {κ} : (P : A → Type κ) (xs ys : List A) → All P xs → All P ys → All P (xs ++ ys)
  All-append P [] ys h k = k
  All-append P (x ∷ xs) ys (p, h) k = (p, All-append P xs ys h k)

module _ {ℓ} {A : Type ℓ} where
  -- `xs.resize(n, v)`
  abbrev pub resize : List A → ℕ → A → List A
  resize xs n v = if ltb n (length xs) then take n xs else (xs ++ replicate (n - length xs) v)

  pub copy_at-suc :
      (x : A) (xs vs : List A) (i : ℕ) → copy_at (x ∷ xs) (suc i) vs ≡ x ∷ copy_at xs i vs
  copy_at-suc x xs [] i = refl
  copy_at-suc x xs (v ∷ vs) i = ap (λ ys. set ys (suc i) v) (copy_at-suc x xs vs (suc i))

  copy_at-start :
      (olds vs zs : List A) → length olds ≡ length vs → copy_at (olds ++ zs) 0 vs ≡ vs ++ zs
  copy_at-start [] [] zs h = refl
  copy_at-start [] (v ∷ vs) zs h = absurd (omega arith)
  copy_at-start (o ∷ olds) [] zs h = absurd (omega arith)
  copy_at-start (o ∷ olds) (v ∷ vs) zs h =
      ap (λ ys. set ys 0 v) (copy_at-suc o (olds ++ zs) vs 0)
      ∙ ap (λ ys. v ∷ ys) (copy_at-start olds vs zs (omega arith))

  -- A copy over the values `olds`, which stand behind `xs`.
  pub copy_at-append :
      (xs olds vs zs : List A)
      → length olds ≡ length vs
      → copy_at (xs ++ (olds ++ zs)) (length xs) vs ≡ xs ++ (vs ++ zs)
  copy_at-append [] olds vs zs h = copy_at-start olds vs zs h
  copy_at-append (x ∷ xs) olds vs zs h =
      copy_at-suc x (xs ++ (olds ++ zs)) vs (length xs)
      ∙ ap (λ ys. x ∷ ys) (copy_at-append xs olds vs zs h)

  pub length-set : (xs : List A) (i : ℕ) (v : A) → length (set xs i v) ≡ length xs
  length-set [] i v = refl
  length-set (x ∷ xs) zero v = refl
  length-set (x ∷ xs) (suc i) v = ap suc (length-set xs i v)

  pub length-copy_at : (xs vs : List A) (i : ℕ) → length (copy_at xs i vs) ≡ length xs
  length-copy_at xs [] i = refl
  length-copy_at xs (v ∷ vs) i =
      length-set (copy_at xs (suc i) vs) i v ∙ length-copy_at xs vs (suc i)

zero_plus : (n : ℕ) → n ≡ 0 + n
zero_plus n = omega arith

suc_plus : (o n : ℕ) → suc (o + n) ≡ suc o + n
suc_plus o n = omega arith

module _ {ℓ} {A : Type ℓ} where
  pub drop-nil : (n : ℕ) → drop {A = A} n [] ≡ []
  drop-nil zero = refl
  drop-nil (suc n) = refl

  pub drop-drop : (o n : ℕ) (xs : List A) → drop n (drop o xs) ≡ drop (o + n) xs
  drop-drop zero n xs = ap (λ (m : ℕ). drop m xs) (zero_plus n)
  drop-drop (suc o) n [] = drop-nil n ∙ sym (drop-nil (suc o + n))
  drop-drop (suc o) n (x ∷ xs) = drop-drop o n xs ∙ ap (λ (m : ℕ). drop m (x ∷ xs)) (suc_plus o n)

  pub drop_all : (n : ℕ) (xs : List A) → length xs ≤ n → drop n xs ≡ []
  drop_all zero [] h = refl
  drop_all zero (x ∷ xs) h = absurd (omega arith)
  drop_all (suc n) [] h = refl
  drop_all (suc n) (x ∷ xs) h = drop_all n xs (omega arith)

  pub take_all : (n : ℕ) (xs : List A) → length xs ≤ n → take n xs ≡ xs
  take_all zero [] h = refl
  take_all zero (x ∷ xs) h = absurd (omega arith)
  take_all (suc n) [] h = refl
  take_all (suc n) (x ∷ xs) h = ap (λ ys. x ∷ ys) (take_all n xs (omega arith))
