-- ===== src/Log/Cover.antt =====
-- Lists of block numbers as the log of kernel/log.c and its operations keep them: no block twice.
use os_design_practice.Prelude.{
  Bool, List, [], arith, false, get_elem?, inl, inr, length, refl, remove, set, some, some_inj,
  subst, suc, true, zero, ℕ, ◌+◌, ◌==◌, ◌||◌, ◌∷◌, ◌≡◌, ◌≤◌, ◌⊎◌,
}
use os_design_practice.Log.{absorb}

pub contains : ℕ → List ℕ → Bool
contains b [] = false
contains b (x ∷ xs) = x == b || contains b xs

-- The first list covers the second.
abbrev pub Covers : List ℕ → List ℕ → Type 0
Covers bs own = (x : ℕ) → contains x own ≡ true → contains x bs ≡ true

abbrev pub CoversAll : List ℕ → List (List ℕ) → Type 0
CoversAll bs [] = Unit
CoversAll bs (own ∷ rest) = Covers bs own × CoversAll bs rest

pub contains-absorb : (b : ℕ) (bs : List ℕ) → contains b (absorb b bs) ≡ true
unfolding contains absorb
contains-absorb b [] = ground arith
contains-absorb b (x ∷ xs) = ground (arith, contains-absorb b xs)

pub contains-absorb_kept :
    (b x : ℕ) (bs : List ℕ) → contains x bs ≡ true → contains x (absorb b bs) ≡ true
unfolding contains absorb
contains-absorb_kept b x [] e = absurd (ground arith)
contains-absorb_kept b x (y ∷ ys) e = ground (arith, contains-absorb_kept b x ys)

pub contains-absorb_inv :
    (b x : ℕ) (bs : List ℕ) → contains x (absorb b bs) ≡ true → (x ≡ b) ⊎ (contains x bs ≡ true)
unfolding contains absorb
contains-absorb_inv b x [] e = ground arith
contains-absorb_inv b x (y ∷ ys) e = ground (arith, contains-absorb_inv b x ys)

pub length-absorb_found :
    (b : ℕ) (bs : List ℕ) → contains b bs ≡ true → length (absorb b bs) ≡ length bs
unfolding contains absorb
length-absorb_found b [] e = absurd (ground arith)
length-absorb_found b (x ∷ xs) e = ground (arith, length-absorb_found b xs)

pub length-absorb_new :
    (b : ℕ) (bs : List ℕ) → contains b bs ≡ false → length (absorb b bs) ≡ length bs + 1
unfolding contains absorb
length-absorb_new b [] e = refl
length-absorb_new b (x ∷ xs) e = ground (arith, length-absorb_new b xs)

pub length-absorb : (b : ℕ) (bs : List ℕ) → length (absorb b bs) ≤ length bs + 1
unfolding absorb
length-absorb b [] = omega arith
length-absorb b (x ∷ xs) = ground (arith, length-absorb b xs)

pub Covers-nil : (bs : List ℕ) → Covers bs []
unfolding contains
Covers-nil bs x e = absurd (ground arith)

pub Covers-absorb : (b : ℕ) (bs own : List ℕ) → Covers bs own → Covers (absorb b bs) own
Covers-absorb b bs own c x e = contains-absorb_kept b x bs (c x e)

pub Covers-absorb_both :
    (b : ℕ) (bs own : List ℕ) → Covers bs own → Covers (absorb b bs) (absorb b own)
Covers-absorb_both b bs own c x e = elim (contains-absorb_inv b x own e) [
  | inl y ↦ rw y (contains-absorb b bs)
  | inr m ↦ contains-absorb_kept b x bs (c x m)
]

pub CoversAll-absorb :
    (b : ℕ) (bs : List ℕ) (ns : List (List ℕ)) → CoversAll bs ns → CoversAll (absorb b bs) ns
CoversAll-absorb b bs [] c = tt
CoversAll-absorb b bs (own ∷ rest) (c, cs) =
    (Covers-absorb b bs own c, CoversAll-absorb b bs rest cs)

pub CoversAll-get :
    (bs : List ℕ) (ns : List (List ℕ)) (i : ℕ) {own : List ℕ}
    → CoversAll bs ns
    → get_elem? ns i ≡ some own
    → Covers bs own
CoversAll-get bs [] i c e = absurd (ground arith)
CoversAll-get bs (n ∷ ns) zero (c, cs) e = subst (Covers bs) (some_inj e) c
CoversAll-get bs (n ∷ ns) (suc i) (c, cs) e = CoversAll-get bs ns i cs e

pub CoversAll-set :
    (bs : List ℕ) (ns : List (List ℕ)) (i : ℕ) (own : List ℕ)
    → CoversAll bs ns
    → Covers bs own
    → CoversAll bs (set ns i own)
CoversAll-set bs [] i own cs c = tt
CoversAll-set bs (n ∷ ns) zero own (d, cs) c = (c, cs)
CoversAll-set bs (n ∷ ns) (suc i) own (d, cs) c = (d, CoversAll-set bs ns i own cs c)

pub CoversAll-remove :
    (bs : List ℕ) (ns : List (List ℕ)) (i : ℕ) → CoversAll bs ns → CoversAll bs (remove ns i)
CoversAll-remove bs [] i cs = tt
CoversAll-remove bs (n ∷ ns) zero (d, cs) = cs
CoversAll-remove bs (n ∷ ns) (suc i) (d, cs) = (d, CoversAll-remove bs ns i cs)
