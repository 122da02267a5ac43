-- ===== src/Prelude/Dict/Laws.antt =====
-- The laws of `lookup` after a write, by the cases of the keys.
use mathlib.Core.Path.{◌≡◌, refl, sym, ap, ◌∙◌}
use mathlib.Core.Logic.{◌≢◌, ◌⊎◌, inl, inr}
use mathlib.Core.Bool.{true, false}
use mathlib.Core.Option.{Option, none, some}
use native.Mathlib.Omega.{arith}
use c37_118_simulator.Prelude.Tests.{Bool-cases}
use Prim.Native.Nat.{◌+◌, ◌≤◌}
use mathlib.Core.List.{[], ◌∷◌}
use c37_118_simulator.Prelude.Lists.{length}
use c37_118_simulator.Prelude.Dict.{
  Key, Dict, lookup, insert, remove, contains_key, Sorted, eqb_refl, lookup-insert, lookup-remove,
}

module _ {K : Type 0} ⦃key : Key K⦄ where
  pub eqb-ne : (a b : K) → a ≢ b → key.eqb a b ≡ false
  eqb-ne a b ne = elim (Bool-cases (key.eqb a b)) [
    | inl same ↦ absurd (ne ((key.eqb_iff a b).0 same))
    | inr other ↦ other
  ]

  pub Key-cases : (a b : K) → (a ≡ b) ⊎ (a ≢ b)
  Key-cases a b = elim (Bool-cases (key.eqb a b)) [
    | inl same ↦ inl ((key.eqb_iff a b).0 same)
    | inr other ↦ inr (λ e. cc ((key.eqb_iff a b).1 e))
  ]

module _ {K : Type 0} ⦃key : Key K⦄ {V : Type 0} where
  pub lookup-insert_self : (k : K) (v : V) (m : Dict K V) → lookup k (insert k v m) ≡ some v
  lookup-insert_self k v m = lookup-insert k k v m ∙ rw (eqb_refl k) refl

  pub lookup-insert_ne :
      (j k : K) (v : V) (m : Dict K V) → j ≢ k → lookup j (insert k v m) ≡ lookup j m
  lookup-insert_ne j k v m ne = lookup-insert j k v m ∙ rw (eqb-ne j k ne) refl

  pub lookup-insert-some :
      (j k : K) (v w : V) (m : Dict K V)
      → lookup j (insert k v m) ≡ some w
      → ((j ≡ k) × (v ≡ w)) ⊎ ((j ≢ k) × (lookup j m ≡ some w))
  lookup-insert-some j k v w m h = elim (Key-cases j k) [
    | inl same ↦ inl (same, cc (lookup-insert_self k v m, ap (λ i. lookup i (insert k v m)) same))
    | inr other ↦ inr (other, sym (lookup-insert_ne j k v m other) ∙ h)
  ]

  pub lookup-remove_self : (k : K) (m : Dict K V) → Sorted m → lookup k (remove k m) ≡ none
  lookup-remove_self k m s = lookup-remove k k m s ∙ rw (eqb_refl k) refl

  pub lookup-remove_ne :
      (j k : K) (m : Dict K V) → Sorted m → j ≢ k → lookup j (remove k m) ≡ lookup j m
  lookup-remove_ne j k m s ne = lookup-remove j k m s ∙ rw (eqb-ne j k ne) refl

  pub lookup-remove-some :
      (j k : K) (w : V) (m : Dict K V)
      → Sorted m
      → lookup j (remove k m) ≡ some w
      → (j ≢ k) × (lookup j m ≡ some w)
  lookup-remove-some j k w m s h = elim (Key-cases j k) [
    | inl same ↦ absurd (cc (lookup-remove_self k m s, ap (λ i. lookup i (remove k m)) same))
    | inr other ↦ (other, sym (lookup-remove_ne j k m s other) ∙ h)
  ]

  pub lookup-remove-none :
      (j k : K) (m : Dict K V) → Sorted m → lookup j m ≡ none → lookup j (remove k m) ≡ none
  lookup-remove-none j k m s h = elim (Key-cases j k) [
    | inl same ↦ ap (λ i. lookup i (remove k m)) same ∙ lookup-remove_self k m s
    | inr other ↦ lookup-remove_ne j k m s other ∙ h
  ]

  pub length-remove_found :
      (k : K) (m : Dict K V) (v : V) → lookup k m ≡ some v → length (remove k m) + 1 ≡ length m
  unfolding lookup remove
  length-remove_found k ((j, w) ∷ m) v h = elim (Bool-cases (key.eqb k j)) [
    | inl e ↦ rw (e) (omega arith)
    | inr e ↦ rw (e) (omega (arith, length-remove_found k m v (ground (arith, h, e))))
  ]
  length-remove_found k [] v h = absurd (ground (arith, h))

  pub length-insert_le : (k : K) (v : V) (m : Dict K V) → length (insert k v m) ≤ length m + 1
  unfolding insert
  length-insert_le k v [] = omega arith
  length-insert_le k v ((j, w) ∷ m) = ground (arith, length-insert_le k v m)

  pub contains_key-none : (k : K) (m : Dict K V) → lookup k m ≡ none → contains_key k m ≡ false
  contains_key-none k m h = ap (λ o. elim o [ none ↦ false | some v ↦ true ]) h

  pub contains_key-eq-false : (k : K) (m : Dict K V) → contains_key k m ≡ false → lookup k m ≡ none
  contains_key-eq-false k m h = go (lookup k m) h
    where
      go : (o : Option V) → elim o [ none ↦ false | some v ↦ true ] ≡ false → o ≡ none
      go none h' = refl
      go (some v) h' = absurd (ground arith)

  pub lookup-here : (k : K) (v : V) (m : Dict K V) → lookup k ((k, v) ∷ m) ≡ some v
  unfolding lookup
  lookup-here k v m = rw (eqb_refl k) refl

  pub lookup-there : (j k : K) (v : V) (m : Dict K V) → j ≢ k → lookup j ((k, v) ∷ m) ≡ lookup j m
  unfolding lookup
  lookup-there j k v m ne = rw (eqb-ne j k ne) refl

  pub lookup-nil : (k : K) → lookup {V = V} k [] ≡ none
  unfolding lookup
  lookup-nil k = refl
