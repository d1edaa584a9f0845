-- ===== src/Proc/Sched/Choice.antt =====
-- The second loop of `scheduler`: which of the processes at the best priority it takes.
use os_design_practice.Prelude.{
  ℕ, zero, suc, ◌+◌, ◌-◌, ◌%◌, ◌≤◌, ◌<◌, ◌≡◌, true, false, inl, inr, some, ap, ◌≢◌, Bool-cases,
  dec_lt, arith,
}
use os_design_practice.Proc.Types.{nproc}
use os_design_practice.Proc.Sched.{Table, ready, select_from, select}

-- The steps from `next` forward to `index`, going round the table.
abbrev pub distance : ℕ → ℕ → ℕ
distance next index = (index + nproc - next) % nproc

-- The loop, from `offset` on, stops at the first offset that is ready, and that is `j` at most.
record First (t : Table) (best next k offset j : ℕ) : Type 0 where
  o : ℕ
  chosen : select_from t best next k offset ≡ some ((next + o) % nproc)
  low : offset ≤ o
  high : o ≤ j
  at : ready t best ((next + o) % nproc) ≡ true
  before : (m : ℕ) → offset ≤ m → m < o → ready t best ((next + m) % nproc) ≡ false

module _ (t : Table) (best next : ℕ) where
  First-now :
      (k offset j : ℕ)
      → offset ≤ j
      → ready t best ((next + offset) % nproc) ≡ true
      → First t best next (suc k) offset j
  unfolding select_from
  First-now k offset j le now = record {
    o = offset;
    chosen = rw now;
    low = omega arith;
    high = le;
    at = now;
    before = λ m a b. absurd (omega arith);
  }

  First-later :
      (k offset j : ℕ)
      → ready t best ((next + offset) % nproc) ≡ false
      → First t best next k (offset + 1) j
      → First t best next (suc k) offset j
  unfolding select_from
  First-later k offset j later f = record {
    o = f.o;
    chosen = rw later f.chosen;
    low = omega (arith, f.low);
    high = f.high;
    at = f.at;
    before = λ m a b. elim (dec_lt offset m) [
      | yes lt ↦ f.before m (omega arith) b
      | no ge ↦ let e : offset ≡ m = omega arith in rw (← e) later
    ];
  }

  select_from-First :
      (k offset j : ℕ)
      → offset ≤ j
      → j < offset + k
      → ready t best ((next + j) % nproc) ≡ true
      → First t best next k offset j
  select_from-First zero offset j lo hi r = absurd (omega arith)
  select_from-First (suc k) offset j lo hi r =
      elim (Bool-cases (ready t best ((next + offset) % nproc))) [
        | inl now ↦ First-now k offset j lo now
        | inr later ↦
            First-later k offset j later
              (select_from-First k (offset + 1) j (omega (arith, beyond later)) (omega arith) r)
      ]
    where
      -- The test fails at `offset`, so `j` lies beyond it.
      beyond : ready t best ((next + offset) % nproc) ≡ false → offset ≢ j
      beyond later e = cc (ap (λ x. ready t best ((next + x) % nproc)) e)

-- What the second loop takes when a process at the best priority is ready.
pub record Chosen (t : Table) (best next index : ℕ) : Type 0 where
  pub r : ℕ
  pub chosen : select t best next ≡ some r
  pub in_range : r < nproc
  pub at : ready t best r ≡ true
  pub nearest : distance next r ≤ distance next index
  pub first : (m : ℕ) → m < nproc → distance next m < distance next r → ready t best m ≡ false

around :
    (next index : ℕ) → next < nproc → index < nproc → (next + distance next index) % nproc ≡ index
around next index h i = omega arith

pub select-Chosen :
    (t : Table) (best next index : ℕ)
    → next < nproc
    → index < nproc
    → ready t best index ≡ true
    → Chosen t best next index
unfolding select
select-Chosen t best next index h i r = record {
  r = (next + f.o) % nproc;
  chosen = f.chosen;
  in_range = omega arith;
  at = f.at;
  nearest = omega (arith, f.high);
  first = λ m lt near.
      rw (around next m h lt) at (f.before (distance next m) (omega arith) (omega (arith, f.high)));
}
  where
    f : First t best next nproc 0 (distance next index)
    f =
        select_from-First t best next nproc 0 (distance next index) (omega arith) (omega arith)
          (rw (around next index h i) r)

-- Whatever the loop takes is ready and in the table.
pub select-ready :
    (t : Table) (best next k offset : ℕ) {r : ℕ}
    → select_from t best next k offset ≡ some r
    → (ready t best r ≡ true) × (r < nproc)
unfolding select_from
select-ready t best next zero offset e = absurd (ground arith)
select-ready t best next (suc k) offset e =
    elim (Bool-cases (ready t best ((next + offset) % nproc))) [
      | inl now ↦ ground arith
      | inr later ↦ select-ready t best next k (offset + 1) (rw later at e)
    ]
