-- ===== src/Fs/Alloc.antt =====
-- The allocator of blocks of kernel/fs.c.
use os_design_practice.Prelude.{
  Bool-cases, arith, dec_lt, false, inl, inr, some, suc, true, update, zero, ℕ, ◌+◌, ◌/◌, ◌<◌, ◌==◌,
  ◌∙◌, ◌≡◌, ◌≢◌, ◌≤◌,
}
use os_design_practice.Fs.{
  Super, Disk, Block, bpb, bblock, zeros, bzero, is_free, mark_used, balloc_from, balloc, bfree,
}
use os_design_practice.Fs.Bitmap.{
  IsBytes, is_free-mark_used, mark_used-IsBytes, mark_used_elsewhere, bfree_lem,
}

-- The first block behind the bitmap.
abbrev pub data_start : Super → ℕ
data_start sb = sb.bmapstart + sb.size / bpb + 1

-- The bytes are bytes, and the blocks up to the end of the bitmap are in use, as `mkfs` marks them.
pub record IsSound (sb : Super) (d : Disk) : Type 0 where
  pub bytes : IsBytes d
  pub reserved : (n : ℕ) → n < data_start sb → n < sb.size → is_free sb d n ≡ false

-- What an allocation of `b` changes.
pub record Allocated (sb : Super) (d : Disk) (b : ℕ) (d' : Disk) : Type 0 where
  pub low : data_start sb ≤ b
  pub high : b < sb.size
  pub was_free : is_free sb d b ≡ true
  pub now_used : is_free sb d' b ≡ false
  pub others : (n : ℕ) → n < sb.size → b ≢ n → is_free sb d' n ≡ is_free sb d n
  pub cleared : d' b ≡ zeros
  pub kept : (q : ℕ) → data_start sb ≤ q → q ≢ b → d' q ≡ d q
  pub sound : IsSound sb d'

pub data BallocOutcome (sb : Super) (d : Disk) : ℕ × Disk → Type 0 where
  out_of_blocks : ((n : ℕ) → n < sb.size → is_free sb d n ≡ false) → BallocOutcome sb d (0, d)
  allocated : (b : ℕ) (d' : Disk) → Allocated sb d b d' → BallocOutcome sb d (b, d')

-- A block of data holds no bit of the map.
pub data_block :
    (sb : Super) (d : Disk) (b n : ℕ) (x : Block)
    → data_start sb ≤ b
    → n < sb.size
    → is_free sb (update d b x) n ≡ is_free sb d n
unfolding is_free
data_block sb d b n x low lt = let other : b ≢ bblock n sb = λ e. omega arith in ground arith

zeroed-IsBytes : (d : Disk) (b : ℕ) → IsBytes d → IsBytes (update d b zeros)
zeroed-IsBytes d b h q i = elim (Bool-cases (b == q)) [
  | inl y ↦ rw y (omega arith)
  | inr n ↦ rw n (h q i)
]

take_block :
    (sb : Super) (d : Disk) (b : ℕ)
    → IsSound sb d
    → b < sb.size
    → is_free sb d b ≡ true
    → Allocated sb d b (bzero b (mark_used sb b d))
unfolding bzero
take_block sb d b h lt free = record {
  low = low;
  high = lt;
  was_free = free;
  now_used =
      data_block sb (mark_used sb b d) b b zeros low lt
      ∙ is_free-mark_used sb d b b h.bytes
      ∙ ground arith;
  others = λ n l ne.
      data_block sb (mark_used sb b d) b n zeros low l
      ∙ is_free-mark_used sb d b n h.bytes
      ∙ ground arith;
  cleared = ground arith;
  kept = λ q l ne.
      (let away : q ≢ bblock b sb = λ e. omega arith in
        let e = mark_used_elsewhere sb d b q away in ground arith);
  sound = record {
    bytes = zeroed-IsBytes (mark_used sb b d) b (mark_used-IsBytes sb d b h.bytes);
    reserved = λ n l k.
        data_block sb (mark_used sb b d) b n zeros low k
        ∙ is_free-mark_used sb d b n h.bytes
        ∙ (let r = h.reserved n l k in ground arith);
  };
}
  where
    low : data_start sb ≤ b
    low = elim (dec_lt b (data_start sb)) [
      | yes p ↦ absurd (let r = h.reserved b p lt in ground arith)
      | no p ↦ omega arith
    ]

balloc_from-Outcome :
    (sb : Super) (k b : ℕ) (d : Disk)
    → IsSound sb d
    → b + k ≡ sb.size
    → ((n : ℕ) → n < b → is_free sb d n ≡ false)
    → BallocOutcome sb d (balloc_from sb k b d)
unfolding balloc_from
balloc_from-Outcome sb zero b d h e before = out_of_blocks (λ n lt. before n (omega arith))
balloc_from-Outcome sb (suc k) b d h e before = elim (Bool-cases (is_free sb d b)) [
  | inl y ↦ rw y (allocated b (bzero b (mark_used sb b d)) (take_block sb d b h (omega arith) y))
  | inr n ↦ rw n (balloc_from-Outcome sb k (b + 1) d h (omega arith) (λ m lt. upto n m lt))
]
  where
    upto : is_free sb d b ≡ false → (m : ℕ) → m < b + 1 → is_free sb d m ≡ false
    upto n m lt = elim (dec_lt m b) [
      | yes p ↦ before m p
      | no p ↦ (let same : m ≡ b = omega arith in rw same n)
    ]

-- `balloc` returns 0 and changes nothing if every block is in use. If not, it returns a block behind the
-- bitmap that was free: that is in use now and zeroed, and no other block is changed or changes its state.
pub balloc-Outcome : (sb : Super) (d : Disk) → IsSound sb d → BallocOutcome sb d (balloc sb d)
unfolding balloc
balloc-Outcome sb d h =
    balloc_from-Outcome sb sb.size 0 d h (omega arith) (λ n lt. absurd (omega arith))

pub record Freed (sb : Super) (d : Disk) (b : ℕ) (d' : Disk) : Type 0 where
  pub now_free : is_free sb d' b ≡ true
  pub others : (n : ℕ) → b ≢ n → is_free sb d' n ≡ is_free sb d n
  pub kept : (q : ℕ) → data_start sb ≤ q → d' q ≡ d q
  pub sound : IsSound sb d'

-- `bfree` of a block of data that is in use does not panic, and makes it free; no other block is changed
-- or changes its state.
pub bfree-Freed :
    (sb : Super) (d : Disk) (b : ℕ)
    → IsSound sb d
    → data_start sb ≤ b
    → b < sb.size
    → is_free sb d b ≡ false
    → (d' : Disk) × (bfree sb b d ≡ some d') × Freed sb d b d'
bfree-Freed sb d b h low high used =
    let (d', e, bytes, bits, elsewhere) = bfree_lem sb d b h.bytes used in
    (
      d',
      e,
      record {
        now_free = bits b ∙ ground arith;
        others = λ n ne. bits n ∙ ground arith;
        kept = λ q l. elsewhere q (λ s. omega arith);
        sound = record {
          bytes = bytes;
          reserved = λ n l k.
              bits n
              ∙ (let r = h.reserved n l k in let ne : b ≢ n = λ s. omega arith in ground arith);
        };
      },
    )
