-- ===== src/Proc/Sched/Scan.antt =====
-- The first loop of `scheduler`: the priority that it finds, and what waiting does to a process.
use os_design_practice.Prelude.{
  ℕ, suc, ◌+◌, ◌-◌, ◌*◌, ◌≤◌, ◌<◌, ◌≡◌, refl, ap, Bool, true, false, ◌⊎◌, inl, inr, some, [], ◌∷◌,
  map, All, All-get, ◌==◌, if◌then◌else◌, get_elem?, Bool-cases, get_elem?-map, arith,
}
use os_design_practice.Proc.Types.{
  Proc, is_runnable, aging_interval, priority_max, HasValidPriority,
}
use os_design_practice.Proc.Sched.{Table, Pass, wait_round, improves, scan_from, scan, ready}

-- Rounds that aging needs to bring a waiting process to the highest priority.
abbrev pub waiting : Proc → ℕ
waiting p =
    if p.priority == 0 then 0 else p.priority * aging_interval + (aging_interval - p.wait_ticks)

pub state-wait_round : (p : Proc) → (wait_round p).state ≡ p.state
unfolding wait_round
state-wait_round p = ground arith

pub priority-wait_round : (p : Proc) → (wait_round p).priority ≤ p.priority
unfolding wait_round
priority-wait_round p = ground arith

-- A process that waits at a valid priority other than the highest comes one round nearer to it.
pub waiting-wait_round :
    (p : Proc)
    → is_runnable p.state ≡ true
    → HasValidPriority p
    → 0 < p.priority
    → waiting (wait_round p) < waiting p
unfolding wait_round
waiting-wait_round p r v h = ground arith

pub waiting-wait_round_zero : (p : Proc) → p.priority ≡ 0 → waiting (wait_round p) ≡ 0
waiting-wait_round_zero p e = ground (arith, priority-wait_round p)

pub table-scan_from :
    (t : Table) (best : ℕ) (found : Bool) → (scan_from t best found).table ≡ map wait_round t
unfolding scan_from
table-scan_from [] best found = refl
table-scan_from (p ∷ ps) best found = ap (λ r. wait_round p ∷ r) (table-scan_from ps _ _)

pub table-scan : (t : Table) → (scan t).table ≡ map wait_round t
unfolding scan
table-scan t = table-scan_from t _ _

abbrev pub NotAbove : ℕ → Proc → Type 0
NotAbove best q = is_runnable q.state ≡ true → best ≤ q.priority

-- The priority found is the one that the loop started with, or that of a process that is ready.
abbrev pub Attained : ℕ → Bool → Pass → Type 0
Attained best found pass =
    (pass.best ≡ best) × (pass.found ≡ found)
    ⊎ (pass.found ≡ true) × ((i : ℕ) × (ready pass.table pass.best i ≡ true))

-- What the loop has found, started with `best` and `found`.
pub record Found (best : ℕ) (found : Bool) (pass : Pass) : Type 0 where
  pub lower : pass.best ≤ best
  pub least : All (NotAbove pass.best) pass.table
  pub attained : Attained best found pass

-- The process at the front is better than all before it: it attains the priority itself, or a
-- later one does.
Attained-better :
    (q : Proc) (best : ℕ) (found : Bool) (rest : Pass)
    → improves q best ≡ true
    → Attained q.priority true rest
    → Attained best found (record rest { table = q ∷ rest.table })
unfolding ready
Attained-better q best found rest h (inl (e, f)) = inr (f, (0, ground arith))
Attained-better q best found rest h (inr (f, (i, r))) = inr (f, (suc i, r))

Attained-worse :
    (q : Proc) (best : ℕ) (found : Bool) (rest : Pass)
    → Attained best found rest
    → Attained best found (record rest { table = q ∷ rest.table })
unfolding ready
Attained-worse q best found rest (inl e) = inl e
Attained-worse q best found rest (inr (f, (i, r))) = inr (f, (suc i, r))

Found-cons :
    (q : Proc) (best : ℕ) (found : Bool) (rest : Pass)
    → Found
        (if improves q best then q.priority else best)
        (if improves q best then true else found)
        rest
    → Found best found (record rest { table = q ∷ rest.table })
Found-cons q best found rest h = record {
  lower = ground arith;
  least = (λ r. ground arith, h.least);
  attained = elim (Bool-cases (improves q best)) [
    | inl better ↦ Attained-better q best found rest better (rw better at h.attained)
    | inr worse ↦ Attained-worse q best found rest (rw worse at h.attained)
  ];
}

scan_from-Found : (t : Table) (best : ℕ) (found : Bool) → Found best found (scan_from t best found)
unfolding scan_from
scan_from-Found [] best found = record {
  lower = omega arith;
  least = tt;
  attained = inl (refl, refl);
}
scan_from-Found (p ∷ ps) best found =
    Found-cons (wait_round p) best found _ (scan_from-Found ps _ _)

pub scan-Found : (t : Table) → Found (priority_max + 1) false (scan t)
unfolding scan
scan-Found t = scan_from-Found t _ _

-- A process that is ready makes the loop find a priority, which is not above its own.
pub scan_finds :
    (t : Table) (i : ℕ) {p : Proc}
    → get_elem? t i ≡ some p
    → is_runnable p.state ≡ true
    → HasValidPriority p
    → ((scan t).found ≡ true) × ((scan t).best ≤ (wait_round p).priority)
scan_finds t i {p = p} e r v = (found_true (scan-Found t).attained, below)
  where
    below : (scan t).best ≤ (wait_round p).priority
    below =
        All-get (NotAbove (scan t).best) (scan t).table i {x = wait_round p} (scan-Found t).least
          (rw (table-scan t) (get_elem?-map wait_round t i e)) (rw (state-wait_round p) r)

    found_true : Attained (priority_max + 1) false (scan t) → (scan t).found ≡ true
    found_true (inl (b, f)) = absurd (omega (arith, below, priority-wait_round p))
    found_true (inr (f, rest)) = f
