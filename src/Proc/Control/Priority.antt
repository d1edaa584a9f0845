-- ===== src/Proc/Control/Priority.antt =====
-- `ksetpriority` and `kgetpriority` of kernel/proc.c.
use os_design_practice.Prelude.{
  All, All-modify, Bool-cases, Option, Option-cases, ap, arith, get_elem?, get_elem?-modify_ne,
  get_elem?-modify_self, inl, inr, leb→le, minus_one, modify, negsuc, none, pos, refl, some, suc,
  sym, true, zero, ℕ, ℤ, ◌∙◌, ◌≡◌, ◌≢◌, ◌≤◌,
}
use os_design_practice.Proc.Types.{Proc, HasValidPriority, priority_valid, priority_max}
use os_design_practice.Proc.Sched.{Table}
use os_design_practice.Proc.Control.{
  find_index, is_live, with_priority, set_found, get_found, ksetpriority, kgetpriority,
}
use os_design_practice.Proc.Control.Find.{
  IsFirstMatch, found-IsFirstMatch, find_index-modify, find_index-ne-none,
}

-- What a successful `ksetpriority` has changed: the first live process with this pid.
pub record PrioritySet (pid : ℕ) (n : ℕ) (t t' : Table) : Type 0 where
  pub index : ℕ
  pub match : IsFirstMatch (is_live pid) t index
  pub found : find_index (is_live pid) t ≡ some index
  pub set : t' ≡ modify t index (with_priority n)
  pub valid : priority_valid n ≡ true

-- The arguments that `ksetpriority` accepts, and what it then does.
abbrev pub Accepted : ℤ → ℤ → Table → Table → Type 0
Accepted pid priority t t' =
    (k : ℕ) × (n : ℕ) × (pid ≡ pos (suc k)) × (priority ≡ pos n) × PrioritySet (suc k) n t t'

set_found-zero :
    (pid n : ℕ) (t : Table) (o : Option ℕ)
    → find_index (is_live pid) t ≡ o
    → priority_valid n ≡ true
    → (set_found n t o).0 ≡ pos 0
    → PrioritySet pid n t (set_found n t o).1
unfolding set_found
set_found-zero pid n t none e v h = cc
set_found-zero pid n t (some i) e v h = record {
  index = i;
  match = found-IsFirstMatch (is_live pid) t e;
  found = e;
  set = refl;
  valid = v;
}

pub ksetpriority-Accepted :
    (pid priority : ℤ) (t : Table)
    → (ksetpriority pid priority t).0 ≡ pos 0
    → Accepted pid priority t (ksetpriority pid priority t).1
unfolding ksetpriority
ksetpriority-Accepted (pos zero) priority t h = cc
ksetpriority-Accepted (pos (suc k)) (pos n) t h = elim (Bool-cases (priority_valid n)) [
  | inl v ↦ rw v (k, n, refl, refl, set_found-zero (suc k) n t _ refl v (rw v at h))
  | inr bad ↦ let h' : minus_one ≡ pos 0 = rw bad at h in cc
]
ksetpriority-Accepted (pos (suc k)) (negsuc n) t h = cc
ksetpriority-Accepted (negsuc k) priority t h = cc

get_found-some :
    (t : Table) (i : ℕ) {p : Proc} → get_elem? t i ≡ some p → get_found t (some i) ≡ pos p.priority
unfolding get_found
get_found-some t i e = ground arith

kgetpriority-found :
    (k n : ℕ) (t t' : Table) → PrioritySet (suc k) n t t' → kgetpriority (pos (suc k)) t' ≡ pos n
unfolding kgetpriority
kgetpriority-found k n t t' s = rw s.set (
    rw (find_index-modify (is_live (suc k)) (with_priority n) t s.index (λ p. refl), s.found)
      (get_found-some _ s.index (get_elem?-modify_self t s.index (with_priority n) s.match.here)))

match-pid :
    (k : ℕ) (t : Table) (j i : ℕ) {q : Proc}
    → IsFirstMatch (is_live k) t i
    → i ≡ j
    → get_elem? t j ≡ some q
    → q.pid ≡ k
match-pid k t j i m e here = ground (arith, m.here, m.passes)

-- After a successful `ksetpriority`, `kgetpriority` of the same pid returns the new priority, and
-- every entry with another pid is as before.
pub setpriority-getpriority :
    (pid priority : ℤ) (t : Table)
    → (ksetpriority pid priority t).0 ≡ pos 0
    → (kgetpriority pid (ksetpriority pid priority t).1 ≡ priority)
      × ((j : ℕ) (q : Proc)
          → get_elem? t j ≡ some q
          → pos q.pid ≢ pid
          → get_elem? (ksetpriority pid priority t).1 j ≡ some q)
setpriority-getpriority pid priority t h = (read, others)
  where
    a : Accepted pid priority t (ksetpriority pid priority t).1
    a = ksetpriority-Accepted pid priority t h

    read : kgetpriority pid (ksetpriority pid priority t).1 ≡ priority
    read =
        ap (λ z. kgetpriority z (ksetpriority pid priority t).1) a.2
        ∙ kgetpriority-found a.0 a.1 t _ a.4
        ∙ sym a.3

    others :
        (j : ℕ) (q : Proc)
        → get_elem? t j ≡ some q
        → pos q.pid ≢ pid
        → get_elem? (ksetpriority pid priority t).1 j ≡ some q
    others j q here ne =
        let other : a.4.index ≢ j =
          λ e. ne (ap pos (match-pid (suc a.0) t j a.4.index a.4.match e here) ∙ sym a.2) in
        ap (λ u. get_elem? u j) a.4.set
        ∙ get_elem?-modify_ne t a.4.index j (with_priority a.1) other
        ∙ here

-- Any result but 0 is -1, and leaves the table alone.
pub ksetpriority-fails :
    (pid priority : ℤ) (t : Table)
    → (ksetpriority pid priority t).0 ≢ pos 0
    → ksetpriority pid priority t ≡ (minus_one, t)
unfolding ksetpriority
ksetpriority-fails (pos zero) priority t h = refl
ksetpriority-fails (pos (suc k)) (pos n) t h =
    ground (arith, Option-cases (find_index (is_live (suc k)) t))
ksetpriority-fails (pos (suc k)) (negsuc n) t h = refl
ksetpriority-fails (negsuc k) priority t h = refl

-- A positive pid of a live process and a priority from 0 to 31 are accepted.
pub ksetpriority-accepts :
    (k n i : ℕ) (t : Table) (p : Proc)
    → n ≤ priority_max
    → get_elem? t i ≡ some p
    → is_live (suc k) p ≡ true
    → (ksetpriority (pos (suc k)) (pos n) t).0 ≡ pos 0
unfolding ksetpriority
ksetpriority-accepts k n i t p le here live =
    let (r, e, m) = find_index-ne-none (is_live (suc k)) t i here live in ground (arith, e)

set_found-HasValidPriority :
    (n : ℕ) (t : Table) (o : Option ℕ)
    → n ≤ priority_max
    → All HasValidPriority t
    → All HasValidPriority (set_found n t o).1
unfolding set_found
set_found-HasValidPriority n t none le h = h
set_found-HasValidPriority n t (some i) le h =
    All-modify HasValidPriority (with_priority n) t i (λ p v. le) h

-- Whatever its arguments, `ksetpriority` keeps every priority in the table valid.
pub ksetpriority-HasValidPriority :
    (pid priority : ℤ) (t : Table)
    → All HasValidPriority t
    → All HasValidPriority (ksetpriority pid priority t).1
unfolding ksetpriority
ksetpriority-HasValidPriority (pos zero) priority t h = h
ksetpriority-HasValidPriority (pos (suc k)) (pos n) t h = elim (Bool-cases (priority_valid n)) [
  | inl v ↦ rw v (set_found-HasValidPriority n t _ (leb→le n priority_max v) h)
  | inr bad ↦ rw bad h
]
ksetpriority-HasValidPriority (pos (suc k)) (negsuc n) t h = h
ksetpriority-HasValidPriority (negsuc k) priority t h = h
