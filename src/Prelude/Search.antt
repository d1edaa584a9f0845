-- ===== src/Prelude/Search.antt =====
-- The loop that looks for the first element of an array that passes a test.
use os_design_practice.Prelude.Tests.{Bool-cases, Option-cases, some_inj, if◌then◌else◌}
use os_design_practice.Prelude.Lists.{get_elem?}
use Prim.Native.Nat.{ℕ, zero, suc}
use mathlib.Core.Path.{◌≡◌, refl, sym}
use mathlib.Core.Logic.{inl, inr}
use mathlib.Core.Bool.{Bool, true, false}
use mathlib.Core.List.{List, [], ◌∷◌}
use mathlib.Core.Option.{Option, none, some}
use native.Mathlib.Omega.{arith}

module _ {A : Type 0} where
  unfoldable pub first_index : (A → Bool) → List A → Option ℕ
  first_index test [] = none
  first_index test (x ∷ xs) = elim (first_index test xs) [
    | none ↦ if test x then some 0 else none
    | some i ↦ if test x then some 0 else some (suc i)
  ]

  -- The first element that passes the test.
  pub first_index-found :
      (test : A → Bool) (xs : List A) {i : ℕ}
      → first_index test xs ≡ some i
      → (x : A) × (get_elem? xs i ≡ some x) × (test x ≡ true)
  unfolding first_index
  first_index-found test [] e = absurd (ground arith)
  first_index-found test (x ∷ xs) {i} e = elim (Bool-cases (test x)) [
    | inl y ↦ (x, here y, y)
    | inr n ↦ elim (Option-cases (first_index test xs)) [
      | inl m ↦ absurd (ground arith)
      | inr (j, m) ↦
          let (z, g, t) = first_index-found test xs m in
          let s : i ≡ suc j = ground arith in (z, rw s g, t)
    ]
  ]
    where
      here : test x ≡ true → get_elem? (x ∷ xs) i ≡ some x
      here y = elim (Option-cases (first_index test xs)) [
        | inl m ↦ (let s : i ≡ 0 = ground arith in rw s refl)
        | inr (j, m) ↦ (let s : i ≡ 0 = ground arith in rw s refl)
      ]

  first_index-none_inv :
      (test : A → Bool) (x : A) (xs : List A)
      → first_index test (x ∷ xs) ≡ none
      → (test x ≡ false) × (first_index test xs ≡ none)
  unfolding first_index
  first_index-none_inv test x xs e = elim (Option-cases (first_index test xs)) [
    | inr (j, m) ↦ absurd (ground arith)
    | inl m ↦ (ground arith, m)
  ]

  pub first_index-none :
      (test : A → Bool) (xs : List A) (i : ℕ) {x : A}
      → first_index test xs ≡ none
      → get_elem? xs i ≡ some x
      → test x ≡ false
  unfolding first_index
  first_index-none test [] i e g = absurd (ground arith)
  first_index-none test (x ∷ xs) zero e g =
      rw (sym (some_inj g)) (first_index-none_inv test x xs e).0
  first_index-none test (x ∷ xs) (suc i) e g =
      first_index-none test xs i (first_index-none_inv test x xs e).1 g
