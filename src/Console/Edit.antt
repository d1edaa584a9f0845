-- ===== src/Console/Edit.antt =====
-- What editing in kernel/console.c leaves alone.
use os_design_practice.Prelude.{
  Bool-cases, arith, get_or, get_or-set_ne, inl, inr, length, length-set, ltb, ne_of_test, not,
  refl, set, suc, zero, ℕ, ◌%◌, ◌&&◌, ◌+◌, ◌-◌, ◌<◌, ◌==◌, ◌^◌, ◌||◌, ◌∙◌, ◌≡◌, ◌≢◌, ◌≤◌,
}
use os_design_practice.Console.{
  Console, input_buf_size, minus, erase, kill_line, store, consoleintr, newline,
}

-- `r`, `w` and `e` follow each other, at most 128 apart.
pub record IsValid (k : Console) : Type 0 where
  pub sized : length k.buf ≡ input_buf_size
  pub r_bound : k.r < 2 ^ 32
  pub w_bound : k.w < 2 ^ 32
  pub e_bound : k.e < 2 ^ 32
  pub ordered : minus k.w k.r ≤ minus k.e k.r
  pub fits : minus k.e k.r ≤ input_buf_size

abbrev pub byte_at : Console → ℕ → ℕ
byte_at k i = get_or k.buf ((k.r + i) % 2 ^ 32 % input_buf_size) 0

-- The lines that wait for a reader are still there, and the invariant holds.
pub record Kept (k k' : Console) : Type 0 where
  pub valid : IsValid k'
  pub start : k'.r ≡ k.r
  pub more : minus k.w k.r ≤ minus k'.w k'.r
  pub bytes : (i : ℕ) → i < minus k.w k.r → byte_at k' i ≡ byte_at k i

same-Kept : (k : Console) → IsValid k → Kept k k
same-Kept k v = record { valid = v; start = refl; more = omega arith; bytes = λ i lt. refl }

trans-Kept : {k l m : Console} → Kept k l → Kept l m → Kept k m
trans-Kept a b = record {
  valid = b.valid;
  start = b.start ∙ a.start;
  more = omega (arith, a.more, b.more);
  bytes = λ i lt. b.bytes i (omega (arith, lt, a.more)) ∙ a.bytes i lt;
}

erased-Kept : (k : Console) → IsValid k → k.e ≢ k.w → Kept k (record k { e = minus k.e 1 })
erased-Kept k v differ = record {
  valid = record {
    sized = v.sized;
    r_bound = v.r_bound;
    w_bound = v.w_bound;
    e_bound = omega arith;
    ordered = grind (arith, v.ordered, v.fits, v.r_bound, v.w_bound, v.e_bound, differ);
    fits = grind (arith, v.ordered, v.fits, v.r_bound, v.w_bound, v.e_bound, differ);
  };
  start = refl;
  more = omega arith;
  bytes = λ i lt. refl;
}

erase-Kept : (k : Console) → IsValid k → Kept k (erase k).0
unfolding erase
erase-Kept k v = elim (Bool-cases (k.e == k.w)) [
  | inl y ↦ rw y (same-Kept k v)
  | inr n ↦ rw n (erased-Kept k v (ne_of_test k.e k.w n))
]

kill_line-Kept : (fuel : ℕ) (k : Console) → IsValid k → Kept k (kill_line fuel k).0
unfolding kill_line
kill_line-Kept zero k v = same-Kept k v
kill_line-Kept (suc fuel) k v =
    let first = erase-Kept k v in
    let rest = kill_line-Kept fuel (erase k).0 first.valid in
    elim (Bool-cases (k.e == k.w || get_or k.buf (minus k.e 1 % input_buf_size) 0 == 10)) [
      | inl y ↦ rw y (same-Kept k v)
      | inr n ↦ rw n (trans-Kept first rest)
    ]

-- A character goes behind the lines that wait.
stored-place :
    (k : Console) (i : ℕ)
    → IsValid k
    → minus k.e k.r < input_buf_size
    → i < minus k.w k.r
    → k.e % input_buf_size ≢ (k.r + i) % 2 ^ 32 % input_buf_size
stored-place k i v lt before same =
    absurd (omega (arith, v.ordered, v.r_bound, v.w_bound, v.e_bound, lt, before, same))

abbrev stored : ℕ → Console → Console
stored c k = record k { buf = set k.buf (k.e % input_buf_size) c; e = (k.e + 1) % 2 ^ 32 }

stored-Kept :
    (c : ℕ) (k : Console) → IsValid k → minus k.e k.r < input_buf_size → Kept k (stored c k)
stored-Kept c k v lt = record {
  valid = record {
    sized = length-set k.buf (k.e % input_buf_size) c ∙ v.sized;
    r_bound = v.r_bound;
    w_bound = v.w_bound;
    e_bound = omega arith;
    ordered = omega (arith, v.ordered, v.r_bound, v.e_bound, lt);
    fits = omega (arith, v.r_bound, v.e_bound, lt);
  };
  start = refl;
  more = omega arith;
  bytes = λ i before.
      get_or-set_ne k.buf (k.e % input_buf_size) ((k.r + i) % 2 ^ 32 % input_buf_size) c 0
        (stored-place k i v lt before);
}

line-Kept : (k : Console) → IsValid k → Kept k (record k { w = k.e })
line-Kept k v = record {
  valid = record {
    sized = v.sized;
    r_bound = v.r_bound;
    w_bound = v.e_bound;
    e_bound = v.e_bound;
    ordered = omega arith;
    fits = v.fits;
  };
  start = refl;
  more = v.ordered;
  bytes = λ i lt. refl;
}

store-Kept :
    (c : ℕ) (k : Console) → IsValid k → minus k.e k.r < input_buf_size → Kept k (store c k).0
unfolding store
store-Kept c k v lt =
    let a = stored-Kept c k v lt in
    elim (Bool-cases (c == 10 || c == 4 || minus (stored c k).e k.r == input_buf_size)) [
      | inl y ↦ rw y (trans-Kept a (line-Kept (stored c k) a.valid))
      | inr n ↦ rw n a
    ]

-- Whatever character comes, the three indices stay in order and within the buffer, and the lines that
-- wait for a reader are not changed, by killing a line or erasing a character as little as by a full
-- buffer.
pub consoleintr-Kept : (c : ℕ) (k : Console) → IsValid k → Kept k (consoleintr c k).0
unfolding consoleintr
consoleintr-Kept c k v = elim (Bool-cases (c == 80 - 64)) [
  | inl a ↦ rw a (same-Kept k v)
  | inr a ↦ elim (Bool-cases (c == 85 - 64)) [
    | inl b ↦ rw (a, b) (kill_line-Kept input_buf_size k v)
    | inr b ↦ elim (Bool-cases (c == 72 - 64 || c == 127)) [
      | inl d ↦ rw (a, b, d) (erase-Kept k v)
      | inr d ↦ elim (Bool-cases (not (c == 0) && ltb (minus k.e k.r) input_buf_size)) [
        | inl y ↦ rw (a, b, d, y) (store-Kept (newline c) k v (ground arith))
        | inr n ↦ rw (a, b, d, n) (same-Kept k v)
      ]
    ]
  ]
]
