-- ===== src/Spinlock/Inside.antt =====
-- The steps of `acquire` and `release` of kernel/spinlock.c, and which CPU has the lock.
use os_design_practice.Prelude.{
  ==_iff, Bool, Bool-cases, Option, ap, arith, false, inl, inr, ne_of_test, none, refl, some,
  some_inj, subst, sym, true, ℕ, ◌==◌, ◌∙◌, ◌≡◌, ◌≢◌,
}
use os_design_practice.Spinlock.{
  Cpu, Spinlock, holding, acquire_begin, exchange, acquire_end, release_begin, release_store,
}
use os_design_practice.Spinlock.Turns.{
  Phase, outside, spinning, entered, leaving, popping, System, updated,
}

-- Neither between the exchange and `lk->cpu = mycpu()` nor between `lk->cpu = 0` and the store.
abbrev pub is_away : Phase → Bool
is_away outside = true
is_away spinning = true
is_away entered = false
is_away leaving = false
is_away popping = true

-- Where the CPU that has the lock can be.
abbrev pub is_inside : Phase → Bool
is_inside outside = true
is_inside spinning = false
is_inside entered = true
is_inside leaving = true
is_inside popping = false

-- What `lk->cpu` is while CPU `i` has the lock.
abbrev pub shown : ℕ → Phase → Option ℕ
shown i outside = some i
shown i spinning = none
shown i entered = none
shown i leaving = none
shown i popping = none

abbrev pub OthersAway : (ℕ → Phase) → ℕ → Type 0
OthersAway ph i = (j : ℕ) → j ≢ i → is_away (ph j) ≡ true

-- The lock with the CPU `i`, and without one.
abbrev pub IsWith : System → Option ℕ → Type 0
IsWith t none =
    (t.lock.locked ≡ false) × (t.lock.cpu ≡ none) × ((j : ℕ) → is_away (t.phase j) ≡ true)
IsWith t (some i) =
    (t.lock.locked ≡ true)
    × (t.lock.cpu ≡ shown i (t.phase i))
    × (is_inside (t.phase i) ≡ true)
    × OthersAway t.phase i

pub none_ne_some : {i : ℕ} → none ≢ some i
none_ne_some e = ground arith

updated_self : {A : Type 0} → (f : ℕ → A) (i : ℕ) (x : A) → updated f i x i ≡ x
updated_self f i x = ground arith

updated_other : {A : Type 0} → (f : ℕ → A) (i j : ℕ) (x : A) → i ≢ j → updated f i x j ≡ f j
updated_other f i j x ne = ground arith

-- A CPU that is not away has the lock.
is_holder : (ph : ℕ → Phase) (i k : ℕ) → OthersAway ph k → is_away (ph i) ≡ false → i ≡ k
is_holder ph i k away no' = elim (Bool-cases (i == k)) [
  | inl y ↦ (==_iff i k).0 y
  | inr n ↦ absurd (let a = away i (ne_of_test i k n) in cc)
]

all_updated :
    (ph : ℕ → Phase) (i : ℕ) (p : Phase)
    → OthersAway ph i
    → is_away p ≡ true
    → (j : ℕ) → is_away (updated ph i p j) ≡ true
all_updated ph i p away a j = elim (Bool-cases (i == j)) [
  | inl y ↦ rw y a
  | inr n ↦ rw n (away j (λ e. ne_of_test i j n (sym e)))
]

others_updated :
    (ph : ℕ → Phase) (i k : ℕ) (p : Phase)
    → OthersAway ph k
    → is_away p ≡ true
    → OthersAway (updated ph i p) k
others_updated ph i k p away a j ne = elim (Bool-cases (i == j)) [
  | inl y ↦ rw y a
  | inr n ↦ rw n (away j ne)
]

own_updated : (ph : ℕ → Phase) (i : ℕ) (p : Phase) → OthersAway ph i → OthersAway (updated ph i p) i
own_updated ph i p away j ne =
    subst (λ q. is_away q ≡ true) (sym (updated_other ph i j p (λ e. ne (sym e)))) (away j ne)

-- A step of a CPU that has not got the lock, to a phase of such CPUs.
pub IsWith-bystander :
    (t : System) (i : ℕ) (p : Phase) (f : ℕ → Cpu) (o : Option ℕ)
    → (o ≢ some i)
    → is_away p ≡ true
    → IsWith t o
    → IsWith (record t { cpus = f; phase = updated t.phase i p }) o
IsWith-bystander t i p f none ne a (free, clear, away) =
    (free, clear, all_updated t.phase i p (λ j n. away j) a)
IsWith-bystander t i p f (some k) ne a (taken, cpu, inside, away) =
    let same = updated_other t.phase i k p (λ e. ne (ap some (sym e))) in
    (
      taken,
      subst (λ q. t.lock.cpu ≡ shown k q) (sym same) cpu,
      subst (λ q. is_inside q ≡ true) (sym same) inside,
      others_updated t.phase i k p away a,
    )

pub IsWith-starts :
    (t : System) (i : ℕ) (c : Cpu) (o : Option ℕ)
    → t.phase i ≡ outside
    → acquire_begin i (t.cpus i) t.lock ≡ some c
    → IsWith t o
    → o ≢ some i
unfolding acquire_begin holding
IsWith-starts t i c none at e w eq = absurd (none_ne_some eq)
IsWith-starts t i c (some k) at e (taken, cpu, inside, away) eq =
    let k_i : k ≡ i = some_inj eq in
    let now : t.lock.cpu ≡ some i = cpu ∙ ap (λ x. shown x (t.phase x)) k_i ∙ ap (shown i) at in
    ground (arith, now, taken, (==_iff i i).1 refl)

pub IsWith-spins :
    (t : System) (o : Option ℕ)
    → (exchange t.lock).0 ≡ false
    → IsWith t o
    → IsWith (record t { lock = (exchange t.lock).1 }) o
unfolding exchange
IsWith-spins t none e (free, clear, away) = absurd (ground arith)
IsWith-spins t (some k) e (taken, cpu, inside, away) = (refl, cpu, inside, away)

pub IsWith-wins :
    (t : System) (i : ℕ) (o : Option ℕ)
    → (exchange t.lock).0 ≡ true
    → IsWith t o
    → (o ≡ none)
      × IsWith (record t { phase = updated t.phase i entered; lock = (exchange t.lock).1 }) (some i)
unfolding exchange
IsWith-wins t i none e (free, clear, away) =
    let now = updated_self t.phase i entered in
    (
      refl,
      (
        refl,
        clear ∙ sym (ap (shown i) now),
        ap is_inside now,
        own_updated t.phase i entered (λ j n. away j),
      ),
    )
IsWith-wins t i (some k) e (taken, cpu, inside, away) = absurd (ground arith)

shown_inv : (k i : ℕ) (p : Phase) → shown k p ≡ some i → k ≡ i
shown_inv k i outside e = some_inj e
shown_inv k i spinning e = absurd (none_ne_some e)
shown_inv k i entered e = absurd (none_ne_some e)
shown_inv k i leaving e = absurd (none_ne_some e)
shown_inv k i popping e = absurd (none_ne_some e)

pub IsWith-elsewhere :
    (t : System) (g : ℕ → Cpu) (o : Option ℕ) → IsWith t o → IsWith (record t { cpus = g }) o
IsWith-elsewhere t g none w = w
IsWith-elsewhere t g (some k) w = w

-- The CPU that has the lock goes on to another phase.
IsWith-own :
    (t : System) (i : ℕ) (p : Phase) (lk : Spinlock)
    → lk.locked ≡ true
    → lk.cpu ≡ shown i p
    → is_inside p ≡ true
    → OthersAway t.phase i
    → IsWith (record t { phase = updated t.phase i p; lock = lk }) (some i)
IsWith-own t i p lk taken cpu inside away =
    let now = updated_self t.phase i p in
    (taken, cpu ∙ sym (ap (shown i) now), ap is_inside now ∙ inside, own_updated t.phase i p away)

pub IsWith-records :
    (t : System) (i : ℕ) (o : Option ℕ)
    → t.phase i ≡ entered
    → IsWith t o
    → IsWith (record t { phase = updated t.phase i outside; lock = acquire_end i t.lock }) o
unfolding acquire_end
IsWith-records t i none at (free, clear, away) =
    absurd (let a = away i in let b : is_away (t.phase i) ≡ false = ap is_away at in cc)
IsWith-records t i (some k) at (taken, cpu, inside, away) =
    let e = is_holder t.phase i k away (ap is_away at) in
    subst
      (λ x.
        IsWith (record t { phase = updated t.phase i outside; lock = acquire_end i t.lock })
          (some x))
      e
      (IsWith-own t i outside (acquire_end i t.lock) taken refl refl
        (subst (OthersAway t.phase) (sym e) away))

pub IsWith-clears :
    (t : System) (i : ℕ) (lk : Spinlock) (o : Option ℕ)
    → release_begin i t.lock ≡ some lk
    → IsWith t o
    → IsWith (record t { phase = updated t.phase i leaving; lock = lk }) o
unfolding release_begin holding
IsWith-clears t i lk none e (free, clear, away) = absurd (ground arith)
IsWith-clears t i lk (some k) e (taken, cpu, inside, away) =
    let named : t.lock.cpu ≡ some i = ground arith in
    let e' = shown_inv k i (t.phase k) (sym cpu ∙ named) in
    subst (λ x. IsWith (record t { phase = updated t.phase i leaving; lock = lk }) (some x))
      (sym e')
      (IsWith-own t i leaving lk (ground arith) (ground arith) refl
        (subst (OthersAway t.phase) e' away))

pub IsWith-frees :
    (t : System) (i : ℕ) (o : Option ℕ)
    → t.phase i ≡ leaving
    → IsWith t o
    → (o ≡ some i)
      × IsWith (record t { phase = updated t.phase i popping; lock = release_store t.lock }) none
unfolding release_store
IsWith-frees t i none at (free, clear, away) =
    absurd (let a = away i in let b : is_away (t.phase i) ≡ false = ap is_away at in cc)
IsWith-frees t i (some k) at (taken, cpu, inside, away) =
    let e = is_holder t.phase i k away (ap is_away at) in
    let mine = subst (OthersAway t.phase) (sym e) away in
    (
      ap some (sym e),
      (
        refl,
        cpu ∙ ap (λ x. shown x (t.phase x)) (sym e) ∙ ap (shown i) at,
        all_updated t.phase i popping mine refl,
      ),
    )

pub IsWith-pops :
    (t : System) (i : ℕ) (o : Option ℕ) → t.phase i ≡ popping → IsWith t o → o ≢ some i
IsWith-pops t i none at w eq = absurd (none_ne_some eq)
IsWith-pops t i (some k) at (taken, cpu, inside, away) eq =
    let p = ap is_inside (ap t.phase (some_inj eq) ∙ at) in
    let f : true ≡ false = sym inside ∙ p in absurd (cc)
