-- ===== src/Fs/Bitmap.antt =====
-- The bits of the free map of kernel/fs.c.
use os_design_practice.Prelude.{
  ==_iff, Bool, Bool-cases, ap, ap₂, arith, bit_and, bit_or, false, if◌then◌else◌, inl, inr, ltb,
  ne_of_test, not, refl, some, suc, true, zero, ℕ, ℕ_discrete, ◌%◌, ◌&&◌, ◌-◌, ◌/◌, ◌<◌, ◌==◌, ◌^◌,
  ◌∙◌, ◌≡◌, ◌≢◌,
}
use os_design_practice.Fs.{
  Super, Disk, bpb, bblock, byte_of, mask_of, poke, is_free, mark_used, bfree,
}

-- A test that passes on all numbers below a bound; for bits and bytes, evaluation decides it.
passes_below : (ℕ → Bool) → ℕ → Bool
passes_below test zero = true
passes_below test (suc bound) = passes_below test bound && test bound

passes_at :
    (test : ℕ → Bool) (bound i : ℕ) → i < bound → passes_below test bound ≡ true → test i ≡ true
unfolding passes_below
passes_at test zero i low h = absurd (omega arith)
passes_at test (suc bound) i low h = elim (ℕ_discrete i bound) [
  | yes e ↦ rw e (ground (arith, h))
  | no ne ↦ passes_at test bound i (omega (arith, low, ne)) (ground (arith, h))
]

abbrev bit_is_clear : ℕ → ℕ → Bool
bit_is_clear x m = bit_and x (2 ^ m) == 0

abbrev same : Bool → Bool → Bool
same true b = b
same false b = not b

-- Setting bit `m` of a byte, and clearing it, as bit `k` sees it.
abbrev set_ok : ℕ → ℕ → ℕ → Bool
set_ok x m k =
    let y = bit_or x (2 ^ m) in
    ltb y 256
    && (if m == k then not (bit_is_clear y k) else same (bit_is_clear y k) (bit_is_clear x k))

abbrev clear_ok : ℕ → ℕ → ℕ → Bool
clear_ok x m k =
    let y = bit_and x (255 - 2 ^ m) in
    ltb y 256 && (if m == k then bit_is_clear y k else same (bit_is_clear y k) (bit_is_clear x k))

set_table : passes_below (λ m. passes_below (λ k. passes_below (λ x. set_ok x m k) 256) 8) 8 ≡ true
unfolding passes_below
set_table = refl

clear_table :
    passes_below (λ m. passes_below (λ k. passes_below (λ x. clear_ok x m k) 256) 8) 8 ≡ true
unfolding passes_below
clear_table = refl

-- A table, looked up.
at_bits :
    (ok : ℕ → ℕ → ℕ → Bool) (x m k : ℕ)
    → x < 256
    → m < 8
    → k < 8
    → passes_below (λ m. passes_below (λ k. passes_below (λ x. ok x m k) 256) 8) 8 ≡ true
    → ok x m k ≡ true
at_bits ok x m k hx hm hk h =
    passes_at (λ x. ok x m k) 256 x hx
      (passes_at (λ k. passes_below (λ x. ok x m k) 256) 8 k hk
        (passes_at (λ m. passes_below (λ k. passes_below (λ x. ok x m k) 256) 8) 8 m hm h))

set_lem :
    (x m k : ℕ)
    → x < 256
    → m < 8
    → k < 8
    → (bit_or x (2 ^ m) < 256)
      × (bit_is_clear (bit_or x (2 ^ m)) k ≡ (if m == k then false else bit_is_clear x k))
set_lem x m k hx hm hk =
    let c = at_bits set_ok x m k hx hm hk set_table in (ground (arith, c), ground (arith, c))

clear_lem :
    (x m k : ℕ)
    → x < 256
    → m < 8
    → k < 8
    → (bit_and x (255 - 2 ^ m) < 256)
      × (bit_is_clear (bit_and x (255 - 2 ^ m)) k ≡ (if m == k then true else bit_is_clear x k))
clear_lem x m k hx hm hk =
    let c = at_bits clear_ok x m k hx hm hk clear_table in (ground (arith, c), ground (arith, c))

pub poke_lem :
    (d : Disk) (b i v q j : ℕ) → poke d b i v q j ≡ (if b == q && i == j then v else d q j)
poke_lem d b i v q j = elim (Bool-cases (b == q)) [
  | inr n ↦ rw n refl
  | inl y ↦ elim (Bool-cases (i == j)) [
    | inl z ↦ rw (y, z) refl
    | inr z ↦ rw (y, z) (rw ((==_iff b q).0 y) refl)
  ]
]

-- Every byte is a byte.
abbrev pub IsBytes : Disk → Type 0
IsBytes d = (b i : ℕ) → d b i < 256

-- Two blocks share a bit only if they are the same.
abbrev same_byte : Super → ℕ → ℕ → Bool
same_byte sb b n = bblock b sb == bblock n sb && byte_of b == byte_of n

changed_byte :
    (sb : Super) (d : Disk) (b n v : ℕ)
    → is_free sb (poke d (bblock b sb) (byte_of b) v) n
      ≡ (if same_byte sb b n then bit_and v (mask_of n) == 0 else is_free sb d n)
unfolding is_free
changed_byte sb d b n v =
    rw (poke_lem d (bblock b sb) (byte_of b) v (bblock n sb) (byte_of n))
      (elim (Bool-cases (same_byte sb b n)) [ inl y ↦ rw y refl | inr z ↦ rw z refl ])

same_bit :
    (sb : Super) (b n : ℕ) → same_byte sb b n ≡ true → (b % bpb % 8 == n % bpb % 8) ≡ (b == n)
same_bit sb b n y =
    let e : b / bpb ≡ n / bpb = ground (arith, y) in
    let f : b % bpb / 8 ≡ n % bpb / 8 = ground (arith, y) in
    elim (Bool-cases (b == n)) [
      | inl z ↦ rw z (let g : b ≡ n = ground arith in rw g (ground arith))
      | inr z ↦
          rw z (
            let g : b ≢ n = ne_of_test b n z in
            ground (arith, (==_iff (b % bpb % 8) (n % bpb % 8))))
    ]

other_byte : (sb : Super) (b n : ℕ) → same_byte sb b n ≡ false → (b == n) ≡ false
other_byte sb b n z = elim (Bool-cases (b == n)) [
  | inr m ↦ m
  | inl y ↦ absurd (
      let e : b ≡ n = (==_iff b n).0 y in
      let z' : same_byte sb n n ≡ false = rw e at z in ground arith)
]

-- A bit of a byte that has changed in one bit, from what the change does to the byte.
same_place :
    (sb : Super) (d : Disk) (b n v : ℕ) (here : Bool)
    → same_byte sb b n ≡ true
    → bit_is_clear v (n % bpb % 8) ≡ (
        if b % bpb % 8 == n % bpb % 8
        then here
        else bit_is_clear (d (bblock b sb) (byte_of b)) (n % bpb % 8))
    → bit_is_clear v (n % bpb % 8) ≡ (if b == n then here else is_free sb d n)
unfolding is_free
same_place sb d b n v here y e =
    let p : bblock b sb ≡ bblock n sb = ground (arith, y) in
    let q : byte_of b ≡ byte_of n = ground (arith, y) in
    e
    ∙ rw (same_bit sb b n y)
        (ap (λ x. if b == n then here else bit_is_clear x (n % bpb % 8)) (ap₂ d p q))

-- After a change of a bit by `v`, as each bit sees it.
after_change :
    (sb : Super) (d : Disk) (b n v : ℕ) (here : Bool)
    → bit_is_clear v (n % bpb % 8) ≡ (
        if b % bpb % 8 == n % bpb % 8
        then here
        else bit_is_clear (d (bblock b sb) (byte_of b)) (n % bpb % 8))
    → is_free sb (poke d (bblock b sb) (byte_of b) v) n ≡ (if b == n then here else is_free sb d n)
after_change sb d b n v here e = elim (Bool-cases (same_byte sb b n)) [
  | inr z ↦ changed_byte sb d b n v ∙ rw (z, other_byte sb b n z) refl
  | inl y ↦ changed_byte sb d b n v ∙ rw y (same_place sb d b n v here y e)
]

pub is_free-mark_used :
    (sb : Super) (d : Disk) (b n : ℕ)
    → IsBytes d
    → is_free sb (mark_used sb b d) n ≡ (if b == n then false else is_free sb d n)
unfolding mark_used
is_free-mark_used sb d b n bytes =
    after_change sb d b n (bit_or (d (bblock b sb) (byte_of b)) (mask_of b)) false
      (set_lem (d (bblock b sb) (byte_of b)) (b % bpb % 8) (n % bpb % 8)
        (bytes (bblock b sb) (byte_of b)) (omega arith) (omega arith)).1

poke-IsBytes : (d : Disk) (b i v : ℕ) → IsBytes d → v < 256 → IsBytes (poke d b i v)
poke-IsBytes d b i v h lt q j = rw (poke_lem d b i v q j) (ground (arith, h q j, lt))

pub mark_used-IsBytes : (sb : Super) (d : Disk) (b : ℕ) → IsBytes d → IsBytes (mark_used sb b d)
unfolding mark_used
mark_used-IsBytes sb d b h =
    poke-IsBytes d (bblock b sb) (byte_of b) (bit_or (d (bblock b sb) (byte_of b)) (mask_of b)) h
      (set_lem (d (bblock b sb) (byte_of b)) (b % bpb % 8) 0 (h (bblock b sb) (byte_of b))
        (omega arith) (omega arith)).0

-- `bfree` of a used block makes it free, and changes no other bit and no block but the bitmap's.
pub bfree_lem :
    (sb : Super) (d : Disk) (b : ℕ)
    → IsBytes d
    → is_free sb d b ≡ false
    → (d' : Disk) × (bfree sb b d ≡ some d')
      × IsBytes d'
      × ((n : ℕ) → is_free sb d' n ≡ (if b == n then true else is_free sb d n))
      × ((q : ℕ) → q ≢ bblock b sb → d' q ≡ d q)
unfolding bfree
bfree_lem sb d b bytes used =
    let x = d (bblock b sb) (byte_of b) in
    let v = bit_and x (255 - mask_of b) in
    let c = λ (k : ℕ) (lt : k < 8).
      clear_lem x (b % bpb % 8) k (bytes (bblock b sb) (byte_of b)) (omega arith) lt in
    (
      poke d (bblock b sb) (byte_of b) v,
      rw used refl,
      poke-IsBytes d (bblock b sb) (byte_of b) v bytes (c 0 (omega arith)).0,
      λ n. after_change sb d b n v true (c (n % bpb % 8) (omega arith)).1,
      λ q ne. ground arith,
    )

pub mark_used_elsewhere :
    (sb : Super) (d : Disk) (b q : ℕ) → q ≢ bblock b sb → mark_used sb b d q ≡ d q
unfolding mark_used
mark_used_elsewhere sb d b q ne = ground arith
