-- ===== src/Proc/Control/Find.antt =====
-- The searches of kernel/proc.c for the first process that passes a test.
use os_design_practice.Prelude.{
  Bool, Bool-cases, Option, Option-cases, [], arith, false, get_elem?, inl, inr, modify, none, refl,
  some, subst, suc, true, zero, ℕ, ◌<◌, ◌∷◌, ◌≡◌,
}
use os_design_practice.Proc.Types.{Proc}
use os_design_practice.Proc.Sched.{Table}
use os_design_practice.Proc.Control.{find_index}

-- `i` is the first process that passes the test.
pub record IsFirstMatch (test : Proc → Bool) (t : Table) (i : ℕ) : Type 0 where
  pub proc : Proc
  pub here : get_elem? t i ≡ some proc
  pub passes : test proc ≡ true
  pub before : (j : ℕ) (q : Proc) → j < i → get_elem? t j ≡ some q → test q ≡ false

-- No process passes the test.
abbrev pub NoMatch : (Proc → Bool) → Table → Type 0
NoMatch test t = (j : ℕ) (q : Proc) → get_elem? t j ≡ some q → test q ≡ false

abbrev pub Finding : (Proc → Bool) → Table → Option ℕ → Type 0
Finding test t none = NoMatch test t
Finding test t (some i) = IsFirstMatch test t i

IsFirstMatch-cons :
    (test : Proc → Bool) (p : Proc) (ps : Table) (i : ℕ)
    → test p ≡ false
    → IsFirstMatch test ps i
    → IsFirstMatch test (p ∷ ps) (suc i)
IsFirstMatch-cons test p ps i no' m = record {
  proc = m.proc;
  here = m.here;
  passes = m.passes;
  before = before;
}
  where
    before : (j : ℕ) (q : Proc) → j < suc i → get_elem? (p ∷ ps) j ≡ some q → test q ≡ false
    before zero q lt e = let e' : p ≡ q = ground arith in rw (← e') no'
    before (suc j) q lt e = m.before j q (omega arith) e

NoMatch-cons :
    (test : Proc → Bool) (p : Proc) (ps : Table)
    → test p ≡ false
    → NoMatch test ps
    → NoMatch test (p ∷ ps)
NoMatch-cons test p ps no' m zero q e = let e' : p ≡ q = ground arith in rw (← e') no'
NoMatch-cons test p ps no' m (suc j) q e = m j q e

pub find_index-Finding : (test : Proc → Bool) (t : Table) → Finding test t (find_index test t)
unfolding find_index
find_index-Finding test [] = λ j q e. absurd (ground arith)
find_index-Finding test (p ∷ ps) = elim (Bool-cases (test p)) [
  | inl y ↦
      rw y (record { proc = p; here = refl; passes = y; before = λ j q lt e. absurd (omega arith) })
  | inr n ↦ rw n (later n (find_index test ps) (find_index-Finding test ps))
]
  where
    later :
        test p ≡ false
        → (o : Option ℕ) → Finding test ps o
        → Finding test (p ∷ ps) (elim o [ none ↦ none | some i ↦ some (suc i) ])
    later n none f = NoMatch-cons test p ps n f
    later n (some i) f = IsFirstMatch-cons test p ps i n f

-- An update that the test does not see leaves the search as it is.
pub find_index-modify :
    (test : Proc → Bool) (f : Proc → Proc) (t : Table) (i : ℕ)
    → ((p : Proc) → test (f p) ≡ test p)
    → find_index test (modify t i f) ≡ find_index test t
unfolding find_index
find_index-modify test f [] i same = refl
find_index-modify test f (p ∷ ps) zero same = rw (same p)
find_index-modify test f (p ∷ ps) (suc i) same = rw (find_index-modify test f ps i same)

-- A result of the search, with the process that it found.
pub found-IsFirstMatch :
    (test : Proc → Bool) (t : Table) {i : ℕ} → find_index test t ≡ some i → IsFirstMatch test t i
found-IsFirstMatch test t e = subst (Finding test t) e (find_index-Finding test t)

pub missing-NoMatch : (test : Proc → Bool) (t : Table) → find_index test t ≡ none → NoMatch test t
missing-NoMatch test t e = subst (Finding test t) e (find_index-Finding test t)

-- Any process that passes makes the search succeed.
pub find_index-ne-none :
    (test : Proc → Bool) (t : Table) (i : ℕ) {p : Proc}
    → get_elem? t i ≡ some p
    → test p ≡ true
    → (r : ℕ) × (find_index test t ≡ some r) × IsFirstMatch test t r
find_index-ne-none test t i {p = p} here passes = elim (Option-cases (find_index test t)) [
  | inl e ↦ let n = missing-NoMatch test t e i p here in cc
  | inr (r, e) ↦ (r, e, found-IsFirstMatch test t e)
]

-- Two tests that agree on the table find the same entry.
pub find_index-agree :
    (f g : Proc → Bool) (t : Table)
    → ((i : ℕ) (p : Proc) → get_elem? t i ≡ some p → f p ≡ g p)
    → find_index f t ≡ find_index g t
unfolding find_index
find_index-agree f g [] same = refl
find_index-agree f g (p ∷ ps) same =
    rw (same 0 p refl, find_index-agree f g ps (λ i q e. same (suc i) q e))
