-- ===== src/Proc/Exit/Orphans.antt =====
-- `reparent` of kernel/proc.c: it hands every child of a process to init.
use os_design_practice.Prelude.{
  Bool-cases, List, Option, [], ap, arith, false, get_elem?, get_elem?-map, get_elem?-map_inv,
  if◌then◌else◌, inl, inr, length, length-map, map, modify, none, refl, some, suc, sym, zero, ℕ,
  ◌==◌, ◌∙◌, ◌∷◌, ◌≡◌, ◌≢◌,
}
use os_design_practice.Proc.Types.{Proc}
use os_design_practice.Proc.Sched.{Table}
use os_design_practice.Proc.Sleep.Fields.{parents, parents-wakeup}
use os_design_practice.Proc.Exit.{
  is_child_of, adopt_one, is_child_at, reparent_step, reparent_from, reparent,
}

-- What the loop does to the parent of one process.
abbrev pub adopt : ℕ → ℕ → Option ℕ → Option ℕ
adopt c init none = none
adopt c init (some q) = if q == c then some init else some q

parent-adopt_one : (c init : ℕ) (p : Proc) → (adopt_one c init p).parent ≡ adopt c init p.parent
unfolding adopt_one
parent-adopt_one c init p = ground arith

parents-adopt_one :
    (c init i : ℕ) (t : Table)
    → parents (modify t i (adopt_one c init)) ≡ modify (parents t) i (adopt c init)
parents-adopt_one c init i [] = refl
parents-adopt_one c init zero (p ∷ ps) = ap (λ q. q ∷ parents ps) (parent-adopt_one c init p)
parents-adopt_one c init (suc i) (p ∷ ps) = ap (λ l. p.parent ∷ l) (parents-adopt_one c init i ps)

-- An entry that is no child keeps its parent, so the test makes no difference.
adopt-same : (c init : ℕ) (p : Proc) → is_child_of c p ≡ false → adopt c init p.parent ≡ p.parent
adopt-same c init p h = ground arith

modify-no_child :
    (c init i : ℕ) (t : Table)
    → is_child_at c i t ≡ false
    → modify (parents t) i (adopt c init) ≡ parents t
unfolding is_child_at
modify-no_child c init i [] h = refl
modify-no_child c init zero (p ∷ ps) h = ap (λ q. q ∷ parents ps) (adopt-same c init p h)
modify-no_child c init (suc i) (p ∷ ps) h = ap (λ l. p.parent ∷ l) (modify-no_child c init i ps h)

parents-reparent_step :
    (c init chan i : ℕ) (t : Table)
    → parents (reparent_step c init chan i t) ≡ modify (parents t) i (adopt c init)
unfolding reparent_step
parents-reparent_step c init chan i t = elim (Bool-cases (is_child_at c i t)) [
  | inl y ↦
      rw y (parents-wakeup chan (modify t i (adopt_one c init)) ∙ parents-adopt_one c init i t)
  | inr n ↦ rw n (sym (modify-no_child c init i t n))
]

-- A loop over the entries from `i` on.
modify_from {ℓ} : {A : Type ℓ} → (A → A) → ℕ → ℕ → List A → List A
modify_from f zero i xs = xs
modify_from f (suc k) i xs = modify_from f k (suc i) (modify xs i f)

modify_from-cons {ℓ} :
    {A : Type ℓ} (f : A → A) (k i : ℕ) (x : A) (xs : List A)
    → modify_from f k (suc i) (x ∷ xs) ≡ x ∷ modify_from f k i xs
unfolding modify_from
modify_from-cons f zero i x xs = refl
modify_from-cons f (suc k) i x xs = modify_from-cons f k (suc i) x (modify xs i f)

modify_from-map {ℓ} :
    {A : Type ℓ} (f : A → A) (xs : List A) → modify_from f (length xs) 0 xs ≡ map f xs
unfolding modify_from
modify_from-map f [] = refl
modify_from-map f (x ∷ xs) =
    modify_from-cons f (length xs) 0 (f x) xs ∙ ap (λ l. f x ∷ l) (modify_from-map f xs)

parents-reparent_from :
    (c init chan k i : ℕ) (t : Table)
    → parents (reparent_from c init chan k i t) ≡ modify_from (adopt c init) k i (parents t)
unfolding reparent_from modify_from
parents-reparent_from c init chan zero i t = refl
parents-reparent_from c init chan (suc k) i t =
    parents-reparent_from c init chan k (suc i) (reparent_step c init chan i t)
    ∙ ap (modify_from (adopt c init) k (suc i)) (parents-reparent_step c init chan i t)

-- After `reparent` every process that was a child of `c` is a child of init, and every other has the
-- parent that it had.
pub parents-reparent :
    (c init chan : ℕ) (t : Table)
    → parents (reparent c init chan t) ≡ map (adopt c init) (parents t)
unfolding reparent
parents-reparent c init chan t =
    parents-reparent_from c init chan (length t) 0 t
    ∙ ap (λ n. modify_from (adopt c init) n 0 (parents t))
        (sym (length-map t (λ (p : Proc). p.parent)))
    ∙ modify_from-map (adopt c init) (parents t)

adopt-ne : (c init : ℕ) (o : Option ℕ) → c ≢ init → adopt c init o ≢ some c
adopt-ne c init none ne e = cc
adopt-ne c init (some q) ne e = ground arith

-- So no process is left with `c` for a parent, unless `c` is init itself.
pub no_children_left :
    (c init chan i : ℕ) (t : Table) (p : Proc)
    → c ≢ init
    → get_elem? (reparent c init chan t) i ≡ some p
    → p.parent ≢ some c
no_children_left c init chan i t p ne here e =
    let there : get_elem? (map (adopt c init) (parents t)) i ≡ some p.parent =
      ap (λ l. get_elem? l i) (sym (parents-reparent c init chan t))
      ∙ get_elem?-map (λ (q : Proc). q.parent) (reparent c init chan t) i here in
    let (o, h, same) = get_elem?-map_inv (adopt c init) (parents t) i there in
    adopt-ne c init o ne (same ∙ e)
