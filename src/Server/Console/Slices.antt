-- ===== src/Server/Console/Slices.antt =====
-- The slices that a page of src/server.rs takes of its lists.
use c37_118_simulator.Prelude.{
  drop-nil, ℕ, zero, suc, ◌+◌, ◌-◌, ◌≡◌, refl, sym, ap, ◌∙◌, min, List, [], ◌∷◌, ◌++◌, map, length,
  take, drop, arith,
}
use c37_118_simulator.Server.Console.{slice}

min_zero : (n : ℕ) → min 0 n ≡ 0
min_zero n = omega arith

min-suc : (m n : ℕ) → min (suc m) (suc n) ≡ suc (min m n)
min-suc m n = omega arith

sub_zero : (n : ℕ) → n ≡ n - 0
sub_zero n = omega arith

sub_suc : (m n : ℕ) → m - n ≡ suc m - suc n
sub_suc m n = omega arith

zero_sub : (n : ℕ) → 0 - n ≡ 0 - suc n
zero_sub n = omega arith

module _ {A : Type 0} where
  take-nil : (n : ℕ) → take {A = A} n [] ≡ []
  take-nil zero = refl
  take-nil (suc n) = refl

  drop-min : (o : ℕ) (xs : List A) → drop (min o (length xs)) xs ≡ drop o xs
  drop-min zero xs = ap (λ (n : ℕ). drop n xs) (min_zero (length xs))
  drop-min (suc o) [] = drop-nil (min (suc o) 0)
  drop-min (suc o) (x ∷ xs) =
      ap (λ (n : ℕ). drop n (x ∷ xs)) (min-suc o (length xs)) ∙ drop-min o xs

  -- A slice across the end of one list is a slice of each.
  take-drop-append :
      (n o : ℕ) (xs ys : List A)
      → take n (drop o (xs ++ ys))
        ≡ take n (drop o xs) ++ take (n - length (take n (drop o xs))) (drop (o - length xs) ys)
  take-drop-append n o [] ys =
      ap (λ (m : ℕ). take n (drop m ys)) (sub_zero o)
      ∙ ap (λ (m : ℕ). take m (drop (o - 0) ys)) (sub_zero n)
      ∙ sym (
          ap (λ (zs : List A). zs ++ take (n - length zs) (drop (o - 0) ys))
            (ap (take n) (drop-nil o) ∙ take-nil n))
  take-drop-append zero zero (x ∷ xs) ys = refl
  take-drop-append (suc n) zero (x ∷ xs) ys =
      ap (λ (zs : List A). x ∷ zs)
        (take-drop-append n zero xs ys
          ∙ ap (λ (m : ℕ). take n xs ++ take m (drop (0 - length xs) ys))
              (sub_suc n (length (take n xs)))
          ∙ ap (λ (m : ℕ). take n xs ++ take (suc n - suc (length (take n xs))) (drop m ys))
              (zero_sub (length xs)))
  take-drop-append n (suc o) (x ∷ xs) ys =
      take-drop-append n o xs ys
      ∙ ap (λ (m : ℕ). take n (drop o xs) ++ take (n - length (take n (drop o xs))) (drop m ys))
          (sub_suc o (length xs))

  map-take : {B : Type 0} (f : A → B) (n : ℕ) (xs : List A) → take n (map f xs) ≡ map f (take n xs)
  map-take f zero xs = refl
  map-take f (suc n) [] = refl
  map-take f (suc n) (x ∷ xs) = ap (λ zs. f x ∷ zs) (map-take f n xs)

  map-drop : {B : Type 0} (f : A → B) (n : ℕ) (xs : List A) → drop n (map f xs) ≡ map f (drop n xs)
  map-drop f zero xs = refl
  map-drop f (suc n) [] = refl
  map-drop f (suc n) (x ∷ xs) = map-drop f n xs

  pub length-map : {B : Type 0} (f : A → B) (xs : List A) → length (map f xs) ≡ length xs
  length-map f [] = refl
  length-map f (x ∷ xs) = ap suc (length-map f xs)

  -- A slice of a list under a function, as `page_at` takes it.
  pub slice-map :
      {B : Type 0} (f : A → B) (o n : ℕ) (xs : List A)
      → map f (slice o n xs) ≡ take n (drop o (map f xs))
  slice-map f o n xs =
      ap (λ (zs : List A). map f (take n zs)) (drop-min o xs)
      ∙ sym (ap (take n) (map-drop f o xs) ∙ map-take f n (drop o xs))

  -- What is taken, and what comes after it.
  pub take-then-drop : (n : ℕ) (xs : List A) → take n xs ++ drop (length (take n xs)) xs ≡ xs
  take-then-drop zero xs = refl
  take-then-drop (suc n) [] = refl
  take-then-drop (suc n) (x ∷ xs) = ap (λ (zs : List A). x ∷ zs) (take-then-drop n xs)

module _ {A B : Type 0} where
  -- The same, of a list with others behind it.
  pub one_list :
      (f : A → B) (o n : ℕ) (xs : List A) (ys : List B)
      → take n (drop o (map f xs ++ ys))
        ≡ map f (slice o n xs) ++ take (n - length (slice o n xs)) (drop (o - length xs) ys)
  one_list f o n xs ys =
      take-drop-append n o (map f xs) ys
      ∙ ap (λ (zs : List B). zs ++ take (n - length zs) (drop (o - length (map f xs)) ys))
          (sym (slice-map f o n xs))
      ∙ ap (λ (m : ℕ). map f (slice o n xs) ++ take (n - m) (drop (o - length (map f xs)) ys))
          (length-map f (slice o n xs))
      ∙ ap (λ (m : ℕ). map f (slice o n xs) ++ take (n - length (slice o n xs)) (drop (o - m) ys))
          (length-map f xs)

pub sub_add : (o a b : ℕ) → o - (a + b) ≡ o - a - b
sub_add o a b = omega arith
