-- ===== src/Proc/Life/Valid.antt =====
-- The invariant of the process table under `allocproc` and `kfork` of kernel/proc.c.
use os_design_practice.Prelude.{
  All, All-set, Option, ap, arith, false, get_elem?, get_elem?-set_inv, inl, inr, length,
  length-set, none, set, some, sym, true, ℕ, ◌%◌, ◌+◌, ◌<◌, ◌^◌, ◌∙◌, ◌≡◌, ◌≢◌, ◌⊎◌,
}
use os_design_practice.Proc.Types.{Proc, is_unused, nproc, HasValidPriority}
use os_design_practice.Proc.Services.{Services}
use os_design_practice.Proc.Sched.{Table}
use os_design_practice.Proc.Life.{Kernel, allocproc, kfork}
use os_design_practice.Proc.Life.Alloc.{Cleared, AllocOutcome, allocproc-Outcome}
use os_design_practice.Proc.Life.Fork.{Forked, kfork-Outcome}

-- The table is full size and its priorities are valid; the pids in use are positive, have all been
-- handed out, and are used once.
pub record IsValid (t : Table) (nextpid : ℕ) : Type 0 where
  pub full : length t ≡ nproc
  pub priorities : All HasValidPriority t
  pub next_pos : 0 < nextpid
  pub handed_out :
      (i : ℕ) (p : Proc)
      → get_elem? t i ≡ some p
      → is_unused p.state ≡ false
      → (0 < p.pid) × (p.pid < nextpid)
  pub unique :
      (i j : ℕ) (p q : Proc)
      → get_elem? t i ≡ some p
      → get_elem? t j ≡ some q
      → is_unused p.state ≡ false
      → is_unused q.state ≡ false
      → p.pid ≡ q.pid
      → i ≡ j

-- What an entry `q` written at `i` must satisfy to keep the invariant: it is unused, or has the next
-- pid.
abbrev Fits : ℕ → Proc → Type 0
Fits nextpid q = HasValidPriority q × ((is_unused q.state ≡ true) ⊎ (q.pid ≡ nextpid))

IsValid-set :
    (t : Table) (nextpid i : ℕ) (q : Proc)
    → IsValid t nextpid
    → Fits nextpid q
    → IsValid (set t i q) (nextpid + 1)
IsValid-set t nextpid i q v (pr, role) = record {
  full = length-set t i q ∙ v.full;
  priorities = All-set HasValidPriority t i q pr v.priorities;
  next_pos = omega arith;
  handed_out = handed;
  unique = once;
}
  where
    handed :
        (j : ℕ) (p : Proc)
        → get_elem? (set t i q) j ≡ some p
        → is_unused p.state ≡ false
        → (0 < p.pid) × (p.pid < nextpid + 1)
    handed j p e live = elim (get_elem?-set_inv t i j q e) [
      | inl (same, x) ↦ elim role [
        | inl u ↦
            let c : true ≡ false = sym u ∙ ap (λ (r : Proc). is_unused r.state) (sym x) ∙ live in
            absurd (ground arith)
        | inr n ↦
            let c : p.pid ≡ nextpid = ap (λ (r : Proc). r.pid) x ∙ n in omega (arith, v.next_pos)
      ]
      | inr (other, h) ↦ omega (arith, v.handed_out j p h live)
    ]

    -- The pid of the new entry is that of no other.
    fresh :
        (j : ℕ) (p r : Proc)
        → r ≡ q
        → get_elem? t j ≡ some p
        → is_unused p.state ≡ false
        → is_unused r.state ≡ false
        → p.pid ≢ r.pid
    fresh j p r x h live live' same = elim role [
      | inl u ↦
          let c : true ≡ false = sym u ∙ ap (λ (r : Proc). is_unused r.state) (sym x) ∙ live' in cc
      | inr n ↦
          let c : r.pid ≡ nextpid = ap (λ (r : Proc). r.pid) x ∙ n in
          absurd (omega (arith, v.handed_out j p h live))
    ]

    once :
        (a b : ℕ) (p r : Proc)
        → get_elem? (set t i q) a ≡ some p
        → get_elem? (set t i q) b ≡ some r
        → is_unused p.state ≡ false
        → is_unused r.state ≡ false
        → p.pid ≡ r.pid
        → a ≡ b
    once a b p r ea eb la lb same = elim (get_elem?-set_inv t i a q ea) [
      | inl (ia, xa) ↦ elim (get_elem?-set_inv t i b q eb) [
        | inl (ib, xb) ↦ omega arith
        | inr (ob, hb) ↦ absurd (fresh b r p xa hb lb la (sym same))
      ]
      | inr (oa, ha) ↦ elim (get_elem?-set_inv t i b q eb) [
        | inl (ib, xb) ↦ absurd (fresh a p r xb ha la lb same)
        | inr (ob, hb) ↦ v.unique a b p r ha hb la lb same
      ]
    ]

IsValid-Cleared :
    {t t' : Table} {n n' : ℕ}
    → IsValid t n
    → n + 1 < 2 ^ 31
    → (t' ≡ t) × (n' ≡ n) ⊎ Cleared t t' × (n' ≡ (n + 1) % 2 ^ 32)
    → IsValid t' n'
IsValid-Cleared v small (inl (e, f)) = rw (e, f) v
IsValid-Cleared {t} {n = n} v small (inr (c, f)) =
    let w : (n + 1) % 2 ^ 32 ≡ n + 1 = omega (arith, small) in
    rw (c.table, f, w) (IsValid-set t n c.index c.new v (omega (arith, c.priority), inl c.unused))

module _ (s : Services) (k : Kernel s.State) (v : IsValid k.procs k.nextpid)
    (small : k.nextpid + 1 < 2 ^ 31) where
  next_pid : (k.nextpid + 1) % 2 ^ 32 ≡ k.nextpid + 1
  next_pid = omega (arith, small)

  alloc_IsValid :
      (o : Option ℕ) (t' : Table) (n' : ℕ) → AllocOutcome k.procs k.nextpid o t' n' → IsValid t' n'
  alloc_IsValid none t' n' a = IsValid-Cleared v small a
  alloc_IsValid (some i) t' n' (a, f) =
      rw (a.table, f, next_pid)
        (IsValid-set k.procs k.nextpid i a.new v (omega (arith, a.priority), inr a.pid))

  -- So does `allocproc`, whether it succeeds or not.
  pub allocproc-IsValid : IsValid (allocproc s k).1.procs (allocproc s k).1.nextpid
  allocproc-IsValid = alloc_IsValid _ _ _ (allocproc-Outcome s k)

  -- As long as the next pid, an int, does not reach its greatest value, `kfork` keeps the invariant,
  -- whether it succeeds or not: pids stay unique and positive, and priorities valid.
  pub kfork-IsValid :
      (c : ℕ) (p : Proc)
      → get_elem? k.procs c ≡ some p
      → IsValid (kfork s c k).1.procs (kfork s c k).1.nextpid
  kfork-IsValid c p here = elim ((kfork-Outcome s c k p here).0) [
    | inl (z, f, n) ↦
        rw (f.table, n, next_pid)
          (IsValid-set k.procs k.nextpid f.index f.child v (inherited f, inr f.pid))
    | inr (z, r) ↦ IsValid-Cleared v small r
  ]
    where
      inherited :
          (f : Forked k.procs (kfork s c k).1.procs k.nextpid c p) → HasValidPriority f.child
      inherited f = ground (arith, f.priority)
