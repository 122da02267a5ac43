-- ===== src/Prelude/Dict.antt =====
-- `BTreeMap` as an association list in the order of its keys.
pub mod Laws
use Prim.Native.Nat.{ℕ, ◌≤◌, ◌<◌}
use mathlib.Core.Path.{◌≡◌, refl, sym, ap, ◌∙◌}
use mathlib.Core.Logic.{◌↔◌, ◌⊎◌, inl, inr}
use mathlib.Core.Bool.{Bool, true, false}
use mathlib.Core.Option.{Option, none, some}
use mathlib.Core.List.{List, [], ◌∷◌}
use native.Mathlib.Omega.{arith}
use c37_118_simulator.Prelude.Tests.{ltb, ◌==◌, ==_iff, if◌then◌else◌, Bool-cases}

-- A type of keys with its total order.
pub record Key (K : Type 0) : Type 0 where
  pub eqb : K → K → Bool
  pub before : K → K → Bool
  pub eqb_iff : (a b : K) → (eqb a b ≡ true) ↔ (a ≡ b)
  pub before_trans : (a b c : K) → before a b ≡ true → before b c ≡ true → before a c ≡ true
  pub before_irrefl : (a : K) → before a a ≡ false
  pub before_total : (a b : K) → eqb a b ≡ false → before a b ≡ false → before b a ≡ true

abbrev pub Dict : Type 0 → Type 0 → Type 0
Dict K V = List (K × V)

module _ {K : Type 0} ⦃key : Key K⦄ where
  pub eqb_refl : (a : K) → key.eqb a a ≡ true
  eqb_refl a = (key.eqb_iff a a).1 refl

module _ {K : Type 0} ⦃key : Key K⦄ {V : Type 0} where
  open key use {eqb, before, eqb_iff, before_trans, before_irrefl, before_total}

  unfoldable pub lookup : K → Dict K V → Option V
  lookup k [] = none
  lookup k ((j, v) ∷ m) = if eqb k j then some v else lookup k m

  unfoldable pub insert : K → V → Dict K V → Dict K V
  insert k v [] = (k, v) ∷ []
  insert k v ((j, w) ∷ m) =
      if eqb k j
      then (k, v) ∷ m
      else if before k j
      then (k, v) ∷ (j, w) ∷ m
      else (j, w) ∷ insert k v m

  unfoldable pub remove : K → Dict K V → Dict K V
  remove k [] = []
  remove k ((j, w) ∷ m) = if eqb k j then m else (j, w) ∷ remove k m

  abbrev pub contains_key : K → Dict K V → Bool
  contains_key k m = elim (lookup k m) [ none ↦ false | some v ↦ true ]

  -- Every key of the map comes after `k`.
  abbrev pub After : K → Dict K V → Type 0
  After k [] = Unit {0}
  After k ((j, w) ∷ m) = (before k j ≡ true) × After k m

  abbrev pub Sorted : Dict K V → Type 0
  Sorted [] = Unit {0}
  Sorted ((j, w) ∷ m) = After j m × Sorted m

  After-trans : (a b : K) (m : Dict K V) → before a b ≡ true → After b m → After a m
  After-trans a b [] h k = tt
  After-trans a b ((j, w) ∷ m) h k = (before_trans a b j h k.0, After-trans a b m h k.1)

  pub lookup-After : (k : K) (m : Dict K V) → After k m → lookup k m ≡ none
  unfolding lookup
  lookup-After k [] h = refl
  lookup-After k ((j, w) ∷ m) h = ground (arith, eqb_iff k j, before_irrefl k, lookup-After k m h.1)

  pub lookup-insert :
      (j k : K) (v : V) (m : Dict K V)
      → lookup j (insert k v m) ≡ (if eqb j k then some v else lookup j m)
  unfolding lookup insert
  lookup-insert j k v [] = refl
  lookup-insert j k v ((i, w) ∷ m) =
      ground (arith, eqb_iff k i, eqb_iff j k, eqb_iff j i, lookup-insert j k v m)

  pub lookup-remove :
      (j k : K) (m : Dict K V)
      → Sorted m
      → lookup j (remove k m) ≡ (if eqb j k then none else lookup j m)
  unfolding lookup remove
  lookup-remove j k [] h = ground arith
  lookup-remove j k ((i, w) ∷ m) h =
      ground (
        arith,
        eqb_iff k i,
        eqb_iff j k,
        eqb_iff j i,
        lookup-After i m h.0,
        lookup-remove j k m h.1,
      )

  pub After-insert :
      (a k : K) (v : V) (m : Dict K V) → before a k ≡ true → After a m → After a (insert k v m)
  unfolding insert
  After-insert a k v [] h t = (h, tt)
  After-insert a k v ((j, w) ∷ m) h t = ground (arith, After-insert a k v m)

  pub Sorted-insert : (k : K) (v : V) (m : Dict K V) → Sorted m → Sorted (insert k v m)
  unfolding insert
  Sorted-insert k v [] h = (tt, tt)
  Sorted-insert k v ((j, w) ∷ m) h = ground (
    arith,
    eqb_iff k j,
    before_total k j,
    After-trans k j m,
    After-insert j k v m,
    Sorted-insert k v m,
  )

  pub After-remove : (a k : K) (m : Dict K V) → After a m → After a (remove k m)
  unfolding remove
  After-remove a k [] t = tt
  After-remove a k ((j, w) ∷ m) t = ground (arith, After-remove a k m)

  pub Sorted-remove : (k : K) (m : Dict K V) → Sorted m → Sorted (remove k m)
  unfolding remove
  Sorted-remove k [] h = tt
  Sorted-remove k ((j, w) ∷ m) h = ground (arith, After-remove j k m, Sorted-remove k m)

-- The keys of type `u64`.
pub nat_before_trans : (a b c : ℕ) → ltb a b ≡ true → ltb b c ≡ true → ltb a c ≡ true
nat_before_trans a b c h k = ground arith

pub nat_before_irrefl : (a : ℕ) → ltb a a ≡ false
nat_before_irrefl a = ground arith

pub nat_before_total : (a b : ℕ) → (a == b) ≡ false → ltb a b ≡ false → ltb b a ≡ true
nat_before_total a b h k = ground arith

instance abbrev pub nat_key : Key ℕ
nat_key = record {
  eqb = ◌==◌;
  before = ltb;
  eqb_iff = ==_iff;
  before_trans = nat_before_trans;
  before_irrefl = nat_before_irrefl;
  before_total = nat_before_total;
}
