-- ===== src/KString/Strings.antt =====
-- The functions of kernel/string.c on strings that end with a nul.
use os_design_practice.Prelude.{
  ==_iff, Bool-cases, add-zero, arith, false, get_or-set_ne, get_or-set_self, inl, inr, length,
  length-set, set, some, suc, sym, zero, ℕ, ℕ_discrete, ◌+◌, ◌-◌, ◌<◌, ◌==◌, ◌∙◌, ◌≡◌, ◌≢◌, ◌≤◌,
  ◌⊎◌,
}
use os_design_practice.KString.{Memory, load, safestrcpy_from, safestrcpy, strlen_from, strlen}

-- The areas of `n` bytes at `s` and at `t` do not overlap.
abbrev pub Disjoint : ℕ → ℕ → ℕ → Type 0
Disjoint s t n = (s + n ≤ t) ⊎ (t + n ≤ s)

-- `out` is `mem` with the string at `t`, or what fits of it, copied to the `n` bytes at `s`.
pub record Copied (mem out : Memory) (s t n : ℕ) : Type 0 where
  pub len : ℕ
  pub fits : len < n
  pub bytes : (i : ℕ) → i < len → (load out (s + i) ≡ load mem (t + i)) × (load mem (t + i) ≢ 0)
  pub nul : load out (s + len) ≡ 0
  pub whole : (load mem (t + len) ≡ 0) ⊎ (len + 1 ≡ n)
  pub others : (j : ℕ) → (j < s) ⊎ (s + n ≤ j) → load out j ≡ load mem j

Copied-empty : (mem : Memory) (s t : ℕ) → s < length mem → Copied mem (set mem s 0) s t 1
Copied-empty mem s t lt = record {
  len = 0;
  fits = omega arith;
  bytes = λ i h. absurd (omega arith);
  nul = rw add-zero (get_or-set_self mem s 0 0 lt);
  whole = inr (omega arith);
  others = λ j h. get_or-set_ne mem s j 0 0 (omega arith);
}

Copied-end :
    (mem : Memory) (s t n : ℕ)
    → s < length mem
    → load mem t ≡ 0
    → 1 < n
    → Copied mem (set (set mem s (load mem t)) (s + 1) 0) s t n
Copied-end mem s t n lt z two = record {
  len = 0;
  fits = omega arith;
  bytes = λ i h. absurd (omega arith);
  nul = rw add-zero (
      get_or-set_ne (set mem s (load mem t)) (s + 1) s 0 0 (omega arith)
      ∙ get_or-set_self mem s (load mem t) 0 lt
      ∙ z);
  whole = inl (rw add-zero z);
  others = λ j h.
      get_or-set_ne (set mem s (load mem t)) (s + 1) j 0 0 (omega arith)
      ∙ get_or-set_ne mem s j (load mem t) 0 (omega arith);
}

module _ (mem out : Memory) (s t n : ℕ) (lt : s < length mem) (apart : Disjoint s t (suc n))
    (nonzero : load mem t ≢ 0) (rest : Copied (set mem s (load mem t)) out (s + 1) (t + 1) n) where
  open rest use {len, fits, bytes, nul, whole, others}

  abbrev mem' : Memory
  mem' = set mem s (load mem t)

  -- The rest of the source has not been overwritten.
  kept : (i : ℕ) → i ≤ len → load mem' (t + 1 + i) ≡ load mem (t + 1 + i)
  kept i h = get_or-set_ne mem s (t + 1 + i) (load mem t) 0 (omega (arith, fits))

  later : (a b : ℕ) → a + suc b ≡ a + 1 + b
  later a b = omega arith

  bytes_cons :
      (i : ℕ) → i < suc len → (load out (s + i) ≡ load mem (t + i)) × (load mem (t + i) ≢ 0)
  bytes_cons zero h =
      rw (add-zero)
        (rw (add-zero) (others s (omega arith) ∙ get_or-set_self mem s (load mem t) 0 lt, nonzero))
  bytes_cons (suc i) h =
      let b = bytes i (omega arith) in
      rw (later s i)
        (rw (later t i) (b.0 ∙ kept i (omega arith), λ z. b.1 (kept i (omega arith) ∙ z)))

  Copied-cons : Copied mem out s t (suc n)
  Copied-cons = record {
    len = suc len;
    fits = omega (arith, fits);
    bytes = bytes_cons;
    nul = rw (later s len) nul;
    whole = elim whole [
      | inl z ↦ inl (rw (later t len) (sym (kept len (omega arith)) ∙ z))
      | inr e ↦ inr (omega arith)
    ];
    others = λ j h. others j (omega arith) ∙ get_or-set_ne mem s j (load mem t) 0 (omega arith);
  }

safestrcpy_from-Copied :
    (mem : Memory) (s t k : ℕ)
    → s + suc k ≤ length mem
    → Disjoint s t (suc k)
    → Copied mem (safestrcpy_from mem s t k) s t (suc k)
unfolding safestrcpy_from
safestrcpy_from-Copied mem s t zero room apart = Copied-empty mem s t (omega arith)
safestrcpy_from-Copied mem s t (suc k) room apart = elim (Bool-cases (load mem t == 0)) [
  | inl z ↦ rw z (Copied-end mem s t (suc (suc k)) (omega arith) ((==_iff _ 0).0 z) (omega arith))
  | inr nz ↦ rw nz (
      Copied-cons mem _ s t (suc k) (omega arith) apart (λ e. cc ((==_iff (load mem t) 0).1 e))
        (safestrcpy_from-Copied (set mem s (load mem t)) (s + 1) (t + 1) k
          (omega (arith, length-set mem s (load mem t))) (omega arith)))
]

-- `safestrcpy` into a buffer of `n > 0` bytes copies the string up to its nul, or its first `n - 1`
-- bytes, ends the copy with a nul, and changes no byte outside the buffer. The buffer and the `n`
-- bytes at the source must not overlap.
pub safestrcpy-Copied :
    (mem : Memory) (s t n : ℕ)
    → 0 < n
    → s + n ≤ length mem
    → Disjoint s t n
    → Copied mem (safestrcpy mem s t n) s t n
unfolding safestrcpy
safestrcpy-Copied mem s t zero pos' room apart = absurd (omega arith)
safestrcpy-Copied mem s t (suc k) pos' room apart =
    let e : suc k - 1 ≡ k = omega arith in
    let b : (suc k == 0) ≡ false = ground arith in
    rw (b, e) (safestrcpy_from-Copied mem s t k room apart)

strlen_from-first :
    (fuel : ℕ) (mem : Memory) (s n k : ℕ)
    → n ≤ k
    → k < n + fuel
    → load mem (s + k) ≡ 0
    → ((i : ℕ) → n ≤ i → i < k → load mem (s + i) ≢ 0)
    → strlen_from fuel mem s n ≡ some k
unfolding strlen_from
strlen_from-first zero mem s n k lo hi z before = absurd (omega arith)
strlen_from-first (suc fuel) mem s n k lo hi z before = elim (ℕ_discrete n k) [
  | yes e ↦ let z' : load mem (s + n) ≡ 0 = rw e z in ground arith
  | no ne ↦
      let nz : load mem (s + n) ≢ 0 = before n (omega arith) (omega arith) in
      ground (
        arith,
        strlen_from-first fuel mem s (n + 1) k (omega arith) (omega arith) z
            (λ i a b. before i (omega arith) b),
      )
]

-- `strlen` counts the bytes before the first nul, when there is one in memory.
pub strlen_lem :
    (mem : Memory) (s k : ℕ)
    → s + k < length mem
    → load mem (s + k) ≡ 0
    → ((i : ℕ) → i < k → load mem (s + i) ≢ 0)
    → strlen mem s ≡ some k
unfolding strlen
strlen_lem mem s k inside z before =
    strlen_from-first (length mem) mem s 0 k (omega arith) (omega arith) z (λ i a b. before i b)

length-safestrcpy_from :
    (mem : Memory) (s t k : ℕ) → length (safestrcpy_from mem s t k) ≡ length mem
unfolding safestrcpy_from
length-safestrcpy_from mem s t zero = length-set mem s 0
length-safestrcpy_from mem s t (suc k) = ground (
  arith,
  length-set mem s (load mem t),
  length-set (set mem s (load mem t)) (s + 1) 0,
  length-safestrcpy_from (set mem s (load mem t)) (s + 1) (t + 1) k,
)

length-safestrcpy : (mem : Memory) (s t n : ℕ) → length (safestrcpy mem s t n) ≡ length mem
unfolding safestrcpy
length-safestrcpy mem s t n = ground (arith, length-safestrcpy_from mem s t (n - 1))

-- `strlen` of what `safestrcpy` has written into a buffer of `n > 0` bytes is a length below `n`: that
-- of the source string, or `n - 1` where this is longer. The two areas must not overlap.
pub strlen-safestrcpy :
    (mem : Memory) (s t n : ℕ)
    → 0 < n
    → s + n ≤ length mem
    → Disjoint s t n
    → (k : ℕ) × (k < n)
      × (strlen (safestrcpy mem s t n) s ≡ some k)
      × ((load mem (t + k) ≡ 0) ⊎ (k + 1 ≡ n))
strlen-safestrcpy mem s t n pos' room apart = (
  len,
  fits,
  strlen_lem (safestrcpy mem s t n) s len (omega (arith, fits, length-safestrcpy mem s t n)) nul
      (λ i lt z. (bytes i lt).1 (sym (bytes i lt).0 ∙ z)),
  whole,
)
  where
    open (safestrcpy-Copied mem s t n pos' room apart) use {len, fits, bytes, nul, whole}
