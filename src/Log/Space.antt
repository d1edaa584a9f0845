-- ===== src/Log/Space.antt =====
-- The space of the log of kernel/log.c: `begin_op` lets in no more operations than the log has room
-- for, so `log_write` never finds it full.
use os_design_practice.Prelude.{
  Bool, Bool-cases, List, [], ap, arith, false, get_elem?, inl, inr, length, length-set,
  lt_of_get_elem?, none, refl, remove, set, some, some_inj, subst, suc, sym, true, zero, ℕ, ◌%◌,
  ◌*◌, ◌+◌, ◌-◌, ◌<◌, ◌^◌, ◌∙◌, ◌∷◌, ◌≡◌, ◌≢◌, ◌≤◌, ◌⊎◌,
}
use os_design_practice.Log.Cover.{
  Covers-nil, contains, Covers, CoversAll, length-absorb_found, length-absorb_new, length-absorb,
  Covers-absorb_both, CoversAll-absorb, CoversAll-get, CoversAll-set, CoversAll-remove,
}
use os_design_practice.Log.{
  Log, maxopblocks, logblocks, begin_op, end_op, end_commit, absorb, log_write,
}

-- The log and, for each operation between `begin_op` and `end_op`, the blocks that it has written, each
-- of them once.
pub record System : Type 0 where
  pub log : Log
  pub spent : List (List ℕ)

-- Operations in any interleaving, each writing any number of times, to at most `maxopblocks` different
-- blocks. A `begin_op` that sleeps takes no step.
pub data Step (s : System) : System → Type 0 where
  begin : (l : Log) → begin_op s.log ≡ some l → Step s (record { log = l; spent = [] ∷ s.spent })
  write :
      (i b : ℕ) (own : List ℕ) (l : Log)
      → get_elem? s.spent i ≡ some own
      → (contains b own ≡ true) ⊎ (length own < maxopblocks)
      → log_write b s.log ≡ some l
      → Step s (record { log = l; spent = set s.spent i (absorb b own) })
  end :
      (i : ℕ) (own : List ℕ) (l : Log) (last : Bool)
      → get_elem? s.spent i ≡ some own
      → end_op s.log ≡ some (l, last)
      → Step s (record { log = l; spent = remove s.spent i })
  committed : s.log.committing ≡ true → Step s (record { log = end_commit s.log; spent = s.spent })

pub data Reach (s : System) : System → Type 0 where
  here : Reach s s
  next : {t u : System} → Reach s t → Step t u → Reach s u

abbrev pub fresh : System
fresh = record {
  log = record { blocks = []; outstanding = 0; committing = false; ncommit = 0 };
  spent = [];
}

-- What the operations in progress may still write.
abbrev pub allowance : List (List ℕ) → ℕ
allowance [] = 0
allowance (own ∷ rest) = (maxopblocks - length own) + allowance rest

pub record IsSafe (s : System) : Type 0 where
  pub counted : s.log.outstanding ≡ length s.spent
  pub room : length s.log.blocks + allowance s.spent ≤ logblocks
  pub logged : CoversAll s.log.blocks s.spent
  pub few : s.log.outstanding * maxopblocks ≤ logblocks
  pub quiet : s.log.committing ≡ true → s.spent ≡ []

allowance-bound : (ns : List (List ℕ)) → allowance ns ≤ length ns * maxopblocks
allowance-bound [] = omega arith
allowance-bound (n ∷ ns) = omega (arith, allowance-bound ns)

allowance-set :
    (ns : List (List ℕ)) (i : ℕ) (own new : List ℕ)
    → get_elem? ns i ≡ some own
    → allowance (set ns i new) + (maxopblocks - length own)
      ≡ allowance ns + (maxopblocks - length new)
allowance-set [] i own new e = absurd (ground arith)
allowance-set (m ∷ ns) zero own new e = omega (arith, ap (λ (x : List ℕ). length x) (some_inj e))
allowance-set (m ∷ ns) (suc i) own new e = omega (arith, allowance-set ns i own new e)

-- An operation that may write another block has its share of the allowance.
allowance-get :
    (ns : List (List ℕ)) (i : ℕ) {own : List ℕ}
    → get_elem? ns i ≡ some own
    → maxopblocks - length own ≤ allowance ns
allowance-get [] i e = absurd (ground arith)
allowance-get (m ∷ ns) zero e = omega (arith, ap (λ (x : List ℕ). length x) (some_inj e))
allowance-get (m ∷ ns) (suc i) e = omega (arith, allowance-get ns i e)

remove-lem :
    (ns : List (List ℕ)) (i : ℕ) {n : List ℕ}
    → get_elem? ns i ≡ some n
    → (allowance (remove ns i) ≤ allowance ns) × (length (remove ns i) + 1 ≡ length ns)
remove-lem [] i e = absurd (ground arith)
remove-lem (m ∷ ns) zero e = (omega arith, omega arith)
remove-lem (m ∷ ns) (suc i) e = let r = remove-lem ns i e in (omega arith, omega arith)

nil_of_length : (ns : List (List ℕ)) → length ns ≡ 0 → ns ≡ []
nil_of_length [] e = refl
nil_of_length (n ∷ ns) e = absurd (omega arith)

-- What an admitted `begin_op` found and did.
begin_op_inv :
    (l : Log) {l' : Log}
    → begin_op l ≡ some l'
    → (l.committing ≡ false)
      × (length l.blocks + (l.outstanding + 1) * maxopblocks ≤ logblocks)
      × (l'.blocks ≡ l.blocks)
      × (l'.outstanding ≡ l.outstanding + 1)
      × (l'.committing ≡ false)
unfolding begin_op
begin_op_inv l e = (ground arith, ground arith, ground arith, ground arith, ground arith)

log_write_inv :
    (b : ℕ) (l : Log) {l' : Log}
    → log_write b l ≡ some l'
    → (l'.blocks ≡ absorb b l.blocks)
      × (l'.outstanding ≡ l.outstanding)
      × (l'.committing ≡ l.committing)
unfolding log_write
log_write_inv b l e = (ground arith, ground arith, ground arith)

end_op_inv :
    (l : Log) {l' : Log} {last : Bool}
    → end_op l ≡ some (l', last)
    → (l'.blocks ≡ l.blocks)
      × (l'.outstanding ≡ (l.outstanding + (2 ^ 32 - 1)) % 2 ^ 32)
      × (l'.committing ≡ true → (l.outstanding + (2 ^ 32 - 1)) % 2 ^ 32 ≡ 0)
unfolding end_op
end_op_inv l e = (ground arith, ground arith, λ c. ground arith)

committed-IsSafe :
    (s : System)
    → s.log.committing ≡ true
    → IsSafe s
    → IsSafe (record { log = end_commit s.log; spent = s.spent })
unfolding end_commit
committed-IsSafe s c h = record {
  counted = h.counted;
  room = omega (arith, h.room);
  logged = subst (CoversAll []) (sym (h.quiet c)) tt;
  few = h.few;
  quiet = λ f. h.quiet c;
}

end_op-ne-none : (l : Log) → l.committing ≡ false → end_op l ≢ none
unfolding end_op
end_op-ne-none l e n = ground arith

log_write-ne-none :
    (b : ℕ) (l : Log) → length l.blocks < logblocks → 0 < l.outstanding → log_write b l ≢ none
unfolding log_write
log_write-ne-none b l lt active n = ground arith

-- What a write takes from the allowance is what it adds to the log, or more.
write_room :
    (b i : ℕ) (own bs : List ℕ) (ns : List (List ℕ))
    → get_elem? ns i ≡ some own
    → (contains b own ≡ true) ⊎ (length own < maxopblocks)
    → Covers bs own
    → length bs + allowance ns ≤ logblocks
    → length (absorb b bs) + allowance (set ns i (absorb b own)) ≤ logblocks
write_room b i own bs ns g may c room = elim (Bool-cases (contains b own)) [
  | inl y ↦ omega (
    arith,
    room,
    length-absorb_found b bs (c b y),
    length-absorb_found b own y,
    allowance-set ns i own (absorb b own) g,
  )
  | inr n ↦
      let lt : length own < maxopblocks = ground (arith, may) in
      omega (
        arith,
        lt,
        room,
        length-absorb b bs,
        length-absorb_new b own n,
        allowance-set ns i own (absorb b own) g,
      )
]

-- For an operation in progress, the count goes down by one.
less_one : (n : ℕ) → 0 < n → n * maxopblocks ≤ logblocks → (n + (2 ^ 32 - 1)) % 2 ^ 32 + 1 ≡ n
less_one n lt few = omega arith

Step-IsSafe : {s t : System} → Step s t → IsSafe s → IsSafe t
Step-IsSafe {s} (begin l e) h =
    let (up, room, blocks, out, down) = begin_op_inv s.log e in
    record {
      counted = omega (arith, h.counted, out);
      room =
          omega
            (arith, h.counted, room, ap (λ (x : List ℕ). length x) blocks, allowance-bound s.spent);
      logged = (Covers-nil l.blocks, subst (λ bs. CoversAll bs s.spent) (sym blocks) h.logged);
      few = omega (arith, room, out);
      quiet = λ c. absurd (let f : true ≡ false = sym c ∙ down in cc);
    }
Step-IsSafe {s} (write i b own l g may e) h =
    let (blocks, out, same) = log_write_inv b s.log e in
    let c : Covers s.log.blocks own = CoversAll-get s.log.blocks s.spent i h.logged g in
    record {
      counted = omega (arith, h.counted, out, length-set s.spent i (absorb b own));
      room =
          subst (λ bs. length bs + allowance (set s.spent i (absorb b own)) ≤ logblocks)
            (sym blocks) (write_room b i own s.log.blocks s.spent g may c h.room);
      logged =
          subst (λ bs. CoversAll bs (set s.spent i (absorb b own))) (sym blocks)
            (CoversAll-set (absorb b s.log.blocks) s.spent i (absorb b own)
              (CoversAll-absorb b s.log.blocks s.spent h.logged)
              (Covers-absorb_both b s.log.blocks own c));
      few = omega (arith, h.few, out);
      quiet = λ c. ap (λ x. set x i (absorb b own)) (h.quiet (sym same ∙ c));
    }
Step-IsSafe {s} (end i own l last g e) h =
    let (blocks, out, same) = end_op_inv s.log e in
    let r = remove-lem s.spent i g in
    let down = less_one s.log.outstanding (omega (arith, h.counted, r.1)) h.few in
    record {
      counted = omega (arith, h.counted, out, r.1, down);
      room = omega (arith, h.room, ap (λ (x : List ℕ). length x) blocks, r.0);
      logged =
          subst (λ bs. CoversAll bs (remove s.spent i)) (sym blocks)
            (CoversAll-remove s.log.blocks s.spent i h.logged);
      few = omega (arith, h.few, out, down);
      quiet = λ c. nil_of_length (remove s.spent i) (omega (arith, same c, h.counted, r.1, down));
    }
Step-IsSafe {s} (committed c) h = committed-IsSafe s c h

pub Reach-IsSafe : {s : System} → Reach fresh s → IsSafe s
Reach-IsSafe here = record {
  counted = refl;
  room = omega arith;
  logged = tt;
  few = omega arith;
  quiet = λ c. refl;
}
Reach-IsSafe (next r st) = Step-IsSafe st (Reach-IsSafe r)

-- When operations that write at most ten different blocks each are interleaved in any order, the header
-- fits the log, `end_op` of an operation in progress does not panic, and neither does any `log_write` by
-- an operation that has written fewer than ten different blocks so far, however often.
pub no_panic :
    {s : System} (i b : ℕ) (own : List ℕ)
    → Reach fresh s
    → get_elem? s.spent i ≡ some own
    → (length s.log.blocks ≤ logblocks)
      × (end_op s.log ≢ none)
      × (length own < maxopblocks → log_write b s.log ≢ none)
no_panic {s} i b own r g = (
  omega (arith, h.room),
  end_op-ne-none s.log active,
  λ lt.
      log_write-ne-none b s.log (omega (arith, h.room, allowance-get s.spent i g, lt))
        (omega (arith, h.counted, lt_of_get_elem? s.spent i g)),
)
  where
    h : IsSafe s
    h = Reach-IsSafe r

    active : s.log.committing ≡ false
    active = elim (Bool-cases s.log.committing) [
      | inl y ↦ absurd (
          omega
            (arith, ap (λ (x : List (List ℕ)). length x) (h.quiet y), lt_of_get_elem? s.spent i g))
      | inr n ↦ n
    ]
