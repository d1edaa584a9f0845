-- ===== src/Proc/Sched/Fairness.antt =====
-- No starvation: a process that stays RUNNABLE is dispatched within a bounded number of rounds,
-- by aging and then by turns.
use os_design_practice.Prelude.{
  ℕ, ◌+◌, ◌-◌, ◌%◌, ◌≤◌, ◌<◌, ◌≡◌, ◌≢◌, ap, subst, ◌∙◌, true, ◌⊎◌, inl, inr, Option, none, some,
  List, [], ◌∷◌, length, get_elem?, get_elem?-map, get_elem?-modify_ne, All, ℕ_discrete, arith,
}
use os_design_practice.Proc.Types.{Proc, is_runnable, nproc, HasValidPriority}
use os_design_practice.Proc.Sched.{
  Table, wait_round, scan, ready, select, dispatch, Interference, Round, finish, round,
}
use os_design_practice.Proc.Sched.Scan.{
  waiting, state-wait_round, priority-wait_round, waiting-wait_round, waiting-wait_round_zero,
  table-scan, scan_finds,
}
use os_design_practice.Proc.Sched.Priority.{picked-finish}
use os_design_practice.Proc.Sched.Choice.{distance, Chosen, select-Chosen}

-- Process `i` waits to be dispatched, at most `w` rounds of aging from the highest priority.
pub record Waiting (t : Table) (i w : ℕ) : Type 0 where
  pub proc : Proc
  pub here : get_elem? t i ≡ some proc
  pub runnable : is_runnable proc.state ≡ true
  pub valid : HasValidPriority proc
  pub soon : waiting proc ≤ w

-- What others do neither takes process `i` away nor sets its aging back.
abbrev pub LetsWait : ℕ → (Table → Table) → Type 0
LetsWait i f = (t : Table) (w : ℕ) → Waiting t i w → Waiting (f t) i w

abbrev pub IsPatient : ℕ → Interference → Type 0
IsPatient i e = LetsWait i e.between × LetsWait i e.during

-- Process `i` is dispatched in one of the rounds.
abbrev pub Served : ℕ → List Interference → Table → ℕ → Type 0
Served i [] t next = ⊥
Served i (e ∷ es) t next =
    ((round e t next).picked ≡ some i) ⊎ Served i es (round e t next).table (round e t next).next

module _ {t : Table} {i w : ℕ} (h : Waiting t i w) where
  open h use {proc, here, runnable, valid, soon}

  -- The first loop brings a process one round nearer to the highest priority, or leaves it there.
  pub Waiting-scan : Waiting (scan t).table i (w - 1)
  Waiting-scan = record {
    proc = wait_round proc;
    here = rw (table-scan t) (get_elem?-map wait_round t i here);
    runnable = rw (state-wait_round proc) runnable;
    valid = omega (arith, valid, priority-wait_round proc);
    soon = elim (ℕ_discrete proc.priority 0) [
      | yes z ↦ omega (arith, waiting-wait_round_zero proc z)
      | no nz ↦ omega (arith, soon, waiting-wait_round proc runnable valid (omega arith))
    ];
  }

  Waiting-dispatch : (r : ℕ) → r ≢ i → Waiting (dispatch t r) i w
  unfolding dispatch
  Waiting-dispatch r ne = record {
    proc = proc;
    here = get_elem?-modify_ne t r i _ ne ∙ here;
    runnable = runnable;
    valid = valid;
    soon = soon;
  }

  -- A round that does not take process `i` keeps it waiting.
  Waiting-finish :
      (e : Interference) (next : ℕ) (o : Option ℕ)
      → LetsWait i e.during
      → o ≢ some i
      → Waiting (finish e t next o).table i w
  unfolding finish
  Waiting-finish e next none keep ne = h
  Waiting-finish e next (some r) keep ne =
      keep (dispatch t r) w (Waiting-dispatch r (λ same. ne (ap some same)))

priority-eq-zero : (p : Proc) → waiting p ≤ 0 → p.priority ≡ 0
priority-eq-zero p h = ground arith

-- At the highest priority a process is ready at the priority that the first loop finds.
Waiting-ready : {t : Table} {i : ℕ} (best : ℕ) → Waiting t i 0 → best ≡ 0 → ready t best i ≡ true
unfolding ready
Waiting-ready best h e = ground (arith, h.here, h.runnable, h.soon, e)

distance-after :
    (next i r : ℕ)
    → next < nproc
    → i < nproc
    → r < nproc
    → r ≢ i
    → distance next r ≤ distance next i
    → distance ((r + 1) % nproc) i < distance next i
distance-after next i r hn hi hr ne le = omega arith

next-finish-lt :
    (e : Interference) (t : Table) (next : ℕ) (o : Option ℕ)
    → next < nproc
    → (finish e t next o).next < nproc
unfolding finish
next-finish-lt e t next none h = h
next-finish-lt e t next (some r) h = omega arith

is_some? : (o : Option ℕ) (i : ℕ) → (o ≡ some i) ⊎ (o ≢ some i)
is_some? none i = inr (λ e. cc)
is_some? (some r) i = elim (ℕ_discrete r i) [
  | yes e ↦ inl (ap some e)
  | no ne ↦ inr (λ e. absurd (ne (ground arith)))
]

-- Either process `i` is taken, or it comes nearer: by aging first, then by its turn.
record Nearer (i w next : ℕ) (r : Round) : Type 0 where
  waits : Waiting r.table i (w - 1)
  in_range : r.next < nproc
  turn : w ≡ 0 → distance r.next i < distance next i

abbrev Progress : ℕ → ℕ → ℕ → Round → Type 0
Progress i w next r = (r.picked ≡ some i) ⊎ Nearer i w next r

finish-Progress :
    (e : Interference) {i w : ℕ} {t : Table} (best next : ℕ)
    → LetsWait i e.during
    → next < nproc
    → i < nproc
    → Waiting t i (w - 1)
    → (w ≡ 0 → best ≡ 0)
    → Progress i w next (finish e t next (select t best next))
unfolding finish
finish-Progress e {i} {w} {t} best next keep hn hi h top = elim (is_some? (select t best next) i) [
  | inl taken ↦ inl (picked-finish e t next _ ∙ taken)
  | inr ne ↦ inr (record {
    waits = Waiting-finish h e next _ keep ne;
    in_range = next-finish-lt e t next _ hn;
    turn = λ z. nearer z ne;
  })
]
  where
    nearer :
        w ≡ 0
        → select t best next ≢ some i
        → distance (finish e t next (select t best next)).next i < distance next i
    nearer z ne =
        let h' : Waiting t i 0 = subst (λ k. Waiting t i k) (omega arith) h in
        let c : Chosen t best next i =
          select-Chosen t best next i hn hi (Waiting-ready best h' (top z)) in
        rw c.chosen (
          distance-after next i c.r hn hi c.in_range (λ same. ne (c.chosen ∙ ap some same))
            c.nearest)

-- One round of the scheduler.
round-Progress :
    (e : Interference) {i w : ℕ} {t : Table} (next : ℕ)
    → IsPatient i e
    → next < nproc
    → i < nproc
    → Waiting t i w
    → Progress i w next (round e t next)
unfolding round
round-Progress e {i} {w} {t} next patient hn hi h = rw found.0 (
    finish-Progress e (scan t).best next patient.1 hn hi
      (patient.0 (scan t).table (w - 1) (Waiting-scan h))
      (λ z. omega (
        arith,
        found.1,
        h.soon,
        priority-wait_round h.proc,
        priority-eq-zero h.proc (omega (arith, h.soon)),
      )))
  where
    found : ((scan t).found ≡ true) × ((scan t).best ≤ (wait_round h.proc).priority)
    found = scan_finds t i h.here h.runnable h.valid

-- As many rounds as aging takes, and then one turn of the table.
abbrev Enough : ℕ → ℕ → ℕ → ℕ → Type 0
Enough rounds i w next = (w + nproc ≤ rounds) ⊎ ((w ≡ 0) × (distance next i < rounds))

rounds-Served :
    (es : List Interference) {t : Table} (next i w : ℕ)
    → next < nproc
    → i < nproc
    → All (IsPatient i) es
    → Enough (length es) i w next
    → Waiting t i w
    → Served i es t next
rounds-Served [] next i w hn hi ps enough h = absurd (omega arith)
rounds-Served (e ∷ es) {t} next i w hn hi ps enough h = elim (round-Progress e next ps.0 hn hi h) [
  | inl taken ↦ inl taken
  | inr n ↦ inr (rounds-Served es _ i (w - 1) n.in_range hi ps.1 (spend n) n.waits)
]
  where
    spend : Nearer i w next (round e t next) → Enough (length es) i (w - 1) (round e t next).next
    spend n = elim (ℕ_discrete w 0) [
      | yes z ↦ inr (omega (arith, n.turn z))
      | no nz ↦ inl (omega arith)
    ]

-- A RUNNABLE process of valid priority that others let wait is dispatched within as many rounds as
-- aging needs to bring it to the highest priority, and one round for each entry of the table more.
-- What other CPUs and other processes do in every round is arbitrary, and so is `next_index`.
pub no_starvation :
    (es : List Interference) (t : Table) (next i : ℕ) (p : Proc)
    → next < nproc
    → i < nproc
    → get_elem? t i ≡ some p
    → is_runnable p.state ≡ true
    → HasValidPriority p
    → All (IsPatient i) es
    → waiting p + nproc ≤ length es
    → Served i es t next
no_starvation es t next i p hn hi here runnable valid ps enough =
    rounds-Served es next i (waiting p) hn hi ps (inl enough)
      (record { proc = p; here = here; runnable = runnable; valid = valid; soon = omega arith })

-- The rounds that suffice for every valid priority: (31 + 1) * 50 of aging, and 64.
pub waiting_bound : (p : Proc) → HasValidPriority p → waiting p + nproc ≤ 1664
waiting_bound p v = ground arith
