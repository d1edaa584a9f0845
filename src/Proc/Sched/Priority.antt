-- ===== src/Proc/Sched/Priority.antt =====
-- Which process a round of the scheduler takes: the highest priority first, then by turns.
use os_design_practice.Prelude.{
  ℕ, zero, suc, ◌+◌, ◌-◌, ◌≤◌, ◌<◌, ◌≡◌, refl, sym, ap, ◌∙◌, Bool-cases, true, false, inl, inr,
  some, none, length, length-map, get_elem?, All, lt_of_get_elem?, Option, Option-cases, arith,
}
use os_design_practice.Proc.Types.{
  Proc, is_runnable, nproc, HasValidPriority, priority_max, aging_interval,
}
use os_design_practice.Proc.Sched.{
  Table, Interference, wait_round, scan, ready, select, finish, round,
}
use os_design_practice.Proc.Sched.Scan.{
  scan-Found, NotAbove, Attained, table-scan, scan_finds, priority-wait_round,
}
use os_design_practice.Proc.Sched.Choice.{distance, Chosen, select-Chosen, select-ready}

pub picked-finish :
    (e : Interference) (t : Table) (next : ℕ) (o : Option ℕ) → (finish e t next o).picked ≡ o
unfolding finish
picked-finish e t next none = refl
picked-finish e t next (some r) = refl

-- `proc[r]` is RUNNABLE and has this priority.
pub record ReadyAt (t : Table) (priority r : ℕ) : Type 0 where
  pub proc : Proc
  pub here : get_elem? t r ≡ some proc
  pub runnable : is_runnable proc.state ≡ true
  pub at_priority : proc.priority ≡ priority

pub ready-ReadyAt : (t : Table) (best r : ℕ) → ready t best r ≡ true → ReadyAt t best r
unfolding ready
ready-ReadyAt t best r h = elim (Option-cases (get_elem? t r)) [
  | inl e ↦ absurd (ground arith)
  | inr (p, e) ↦ record { proc = p; here = e; runnable = ground arith; at_priority = ground arith }
]

pub ReadyAt-lt : {t : Table} {best r : ℕ} → ReadyAt t best r → r < length t
ReadyAt-lt {t} {best} {r} h = lt_of_get_elem? t r h.here

pub length-scan : (t : Table) → length (scan t).table ≡ length t
length-scan t = rw (table-scan t) (length-map t wait_round)

wait_round_early :
    (q : Proc) (n : ℕ) (p : Proc)
    → q.priority ≡ p.priority
    → q.wait_ticks ≡ n
    → q.state ≡ p.state
    → is_runnable p.state ≡ true
    → n < aging_interval
    → ((wait_round q).priority ≡ p.priority)
      × ((wait_round q).wait_ticks ≡ suc n)
      × ((wait_round q).state ≡ p.state)
unfolding wait_round
wait_round_early q n p pr wt st r lt = (ground arith, ground arith, ground arith)

-- A round in which nobody else runs between the two loops.
abbrev pub alone : (Table → Table) → Interference
alone f = record { between = λ t. t; during = f }

-- In the table after aging, `r` is RUNNABLE, no RUNNABLE process has a higher priority, and none of
-- the same priority comes before it in the order that starts at `next`.
pub record IsFirst (t : Table) (best next r : ℕ) : Type 0 where
  pub winner : ReadyAt t best r
  pub least : All (NotAbove best) t
  pub turn : (m : ℕ) → m < nproc → distance next m < distance next r → ready t best m ≡ false

-- If any process of valid priority is RUNNABLE and nobody interferes between the two loops, a round
-- dispatches a process, one of the highest priority after aging, and of those the first in
-- round-robin order.
pub best_dispatched :
    (f : Table → Table) (t : Table) (next i : ℕ) (p : Proc)
    → length t ≡ nproc
    → next < nproc
    → get_elem? t i ≡ some p
    → is_runnable p.state ≡ true
    → HasValidPriority p
    → (r : ℕ) × ((round (alone f) t next).picked ≡ some r)
      × IsFirst (scan t).table (scan t).best next r
unfolding round finish
best_dispatched f t next i p len hn here runnable valid = pick (scan-Found t).attained
  where
    found : ((scan t).found ≡ true) × ((scan t).best ≤ (wait_round p).priority)
    found = scan_finds t i here runnable valid

    pick :
        Attained (priority_max + 1) false (scan t)
        → (r : ℕ) × ((round (alone f) t next).picked ≡ some r)
          × IsFirst (scan t).table (scan t).best next r
    pick (inl (b, e)) = absurd (omega (arith, found.1, priority-wait_round p))
    pick (inr (e, (j, at))) =
        let w : ReadyAt (scan t).table (scan t).best j = ready-ReadyAt _ _ j at in
        let lt : j < nproc = omega (arith, ReadyAt-lt w, length-scan t) in
        let c : Chosen (scan t).table (scan t).best next j = select-Chosen _ _ next j hn lt at in
        (
          c.r,
          rw (found.0, c.chosen),
          record {
            winner = ready-ReadyAt _ _ c.r c.at;
            least = (scan-Found t).least;
            turn = c.first;
          },
        )

-- Whatever other CPUs do between the two loops, a process is dispatched only if it is then still
-- RUNNABLE and of the priority that the first loop found.
pub dispatch_safe :
    (e : Interference) (t : Table) (next : ℕ) {r : ℕ}
    → (round e t next).picked ≡ some r
    → ReadyAt (e.between (scan t).table) (scan t).best r × (r < nproc)
unfolding round select
dispatch_safe e t next {r} h = elim (Bool-cases (scan t).found) [
  | inl yes' ↦
      let q = select-ready t' (scan t).best next nproc 0 (chosen yes') in
      (ready-ReadyAt _ _ r q.0, q.1)
  | inr no' ↦ absurd (nothing no')
]
  where
    t' : Table
    t' = e.between (scan t).table

    chosen : (scan t).found ≡ true → select t' (scan t).best next ≡ some r
    chosen y = sym (picked-finish e t' next _) ∙ (rw y at h)

    nothing : (scan t).found ≡ false → ⊥
    nothing n =
        let h' : (finish e t' next none).picked ≡ some r = rw n at h in
        cc (picked-finish e t' next none)

-- `n` rounds in which a process is not dispatched.
pub rounds_waited : ℕ → Proc → Proc
rounds_waited zero p = p
rounds_waited (suc n) p = wait_round (rounds_waited n p)

rounds_waited-suc : (n : ℕ) (p : Proc) → rounds_waited (suc n) p ≡ wait_round (rounds_waited n p)
unfolding rounds_waited
rounds_waited-suc n p = refl

-- Aging leaves a process alone for `aging_interval` rounds.
rounds_waited-counts :
    (n : ℕ) (p : Proc)
    → n ≤ aging_interval
    → is_runnable p.state ≡ true
    → p.wait_ticks ≡ 0
    → ((rounds_waited n p).priority ≡ p.priority)
      × ((rounds_waited n p).wait_ticks ≡ n)
      × ((rounds_waited n p).state ≡ p.state)
unfolding rounds_waited
rounds_waited-counts zero p le r z = (refl, z, refl)
rounds_waited-counts (suc n) p le r z = before (rounds_waited-counts n p (omega arith) r z)
  where
    q : Proc
    q = rounds_waited n p

    before :
        (q.priority ≡ p.priority) × (q.wait_ticks ≡ n) × (q.state ≡ p.state)
        → ((wait_round q).priority ≡ p.priority)
          × ((wait_round q).wait_ticks ≡ suc n)
          × ((wait_round q).state ≡ p.state)
    before (pr, wt, st) = wait_round_early q n p pr wt st r le

wait_round_boost :
    (q : Proc)
    → is_runnable q.state ≡ true
    → q.wait_ticks ≡ aging_interval
    → HasValidPriority q
    → 0 < q.priority
    → ((wait_round q).priority ≡ q.priority - 1) × ((wait_round q).wait_ticks ≡ 1)
unfolding wait_round
wait_round_boost q r w v h = (ground arith, ground arith)

-- A RUNNABLE process whose wait has just begun keeps its priority for 50 rounds without the CPU,
-- counting them in `wait_ticks`; the next round raises it by one level and starts a new count.
-- (At the highest priority there is nothing to raise.)
pub aging_interval_lem :
    (p : Proc)
    → is_runnable p.state ≡ true
    → p.wait_ticks ≡ 0
    → HasValidPriority p
    → 0 < p.priority
    → ((n : ℕ)
        → n ≤ aging_interval
        → ((rounds_waited n p).priority ≡ p.priority) × ((rounds_waited n p).wait_ticks ≡ n))
      × ((rounds_waited (aging_interval + 1) p).priority ≡ p.priority - 1)
      × ((rounds_waited (aging_interval + 1) p).wait_ticks ≡ 1)
aging_interval_lem p r z v h = (early, boosted.0, boosted.1)
  where
    early :
        (n : ℕ)
        → n ≤ aging_interval
        → ((rounds_waited n p).priority ≡ p.priority) × ((rounds_waited n p).wait_ticks ≡ n)
    early n le = let c = rounds_waited-counts n p le r z in (c.0, c.1)

    boosted :
        ((rounds_waited (aging_interval + 1) p).priority ≡ p.priority - 1)
        × ((rounds_waited (aging_interval + 1) p).wait_ticks ≡ 1)
    boosted =
        let c = rounds_waited-counts aging_interval p (omega arith) r z in
        let b =
          wait_round_boost (rounds_waited aging_interval p) (rw c.2 r) c.1 (rw c.0 v) (rw c.0 h) in
        rw (rounds_waited-suc aging_interval p) (b.0 ∙ ap (λ (k : ℕ). k - 1) c.0, b.1)
