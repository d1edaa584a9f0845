-- ===== src/Prelude/Counts.antt =====
-- Taking an element out of a list, and how often a number stands in one.
use os_design_practice.Prelude.Tests.{◌==◌, if◌then◌else◌, some_inj}
use os_design_practice.Prelude.Lists.{get_elem?}
use Prim.Native.Nat.{ℕ, zero, suc, ◌+◌, ◌<◌}
use mathlib.Core.Path.{◌≡◌, refl}
use mathlib.Core.List.{List, [], ◌∷◌}
use mathlib.Core.Option.{some}
use native.Mathlib.Omega.{arith}

abbrev pub remove {ℓ} : {A : Type ℓ} → List A → ℕ → List A
remove [] i = []
remove (x ∷ xs) zero = xs
remove (x ∷ xs) (suc i) = x ∷ remove xs i

abbrev pub occurrences : ℕ → List ℕ → ℕ
occurrences a [] = 0
occurrences a (p ∷ ps) = (if p == a then 1 else 0) + occurrences a ps

pub occurrences-remove :
    (xs : List ℕ) (i : ℕ) {x : ℕ} (a : ℕ)
    → get_elem? xs i ≡ some x
    → (if x == a then 1 else 0) + occurrences a (remove xs i) ≡ occurrences a xs
occurrences-remove [] i a e = absurd (ground arith)
occurrences-remove (y ∷ ys) zero a e = rw (some_inj e) refl
occurrences-remove (y ∷ ys) (suc i) a e = omega (arith, occurrences-remove ys i a e)

pub occurrences-get : (xs : List ℕ) (i : ℕ) {x : ℕ} → get_elem? xs i ≡ some x → 0 < occurrences x xs
occurrences-get [] i e = absurd (ground arith)
occurrences-get (y ∷ ys) zero e = ground arith
occurrences-get (y ∷ ys) (suc i) e = omega (arith, occurrences-get ys i e)
