-- ===== src/Fs/Inode/Map.antt =====
-- The blocks of an inode, and the invariant that they are its own; kernel/fs.c.
use os_design_practice.Prelude.{
  Bool-cases, ap, arith, false, if◌then◌else◌, inl, inr, ltb, ne_of_test, refl, sym, true, ℕ,
  ℕ_discrete, ◌%◌, ◌-◌, ◌/◌, ◌<◌, ◌==◌, ◌∙◌, ◌≡◌, ◌≢◌, ◌≤◌,
}
use os_design_practice.Fs.{Super, Disk, Block, bsize, zeros, is_free}
use os_design_practice.Fs.Alloc.{data_start, IsSound}
use os_design_practice.Fs.Inode.{word, maxfile, ndirect}

-- The address of block `n` of the file; 0 is a hole.
abbrev pub block_of : (ℕ → ℕ) → Disk → ℕ → ℕ
block_of addrs d n =
    if ltb n ndirect
    then addrs n
    else if addrs ndirect == 0
    then 0
    else word (d (addrs ndirect)) (n - ndirect)

-- The byte of the file at an offset.
abbrev pub content : (ℕ → ℕ) → Disk → ℕ → ℕ
content addrs d o =
    if block_of addrs d (o / bsize) == 0 then 0 else d (block_of addrs d (o / bsize)) (o % bsize)

pub record InUse (sb : Super) (d : Disk) (b : ℕ) : Type 0 where
  pub low : data_start sb ≤ b
  pub high : b < sb.size
  pub used : is_free sb d b ≡ false

-- The blocks of the file and its indirect block are in use, and all different.
pub record IsFile (sb : Super) (addrs : ℕ → ℕ) (d : Disk) : Type 0 where
  pub sound : IsSound sb d
  pub owned : (n : ℕ) → n < maxfile → block_of addrs d n ≢ 0 → InUse sb d (block_of addrs d n)
  pub own_indirect : addrs ndirect ≢ 0 → InUse sb d (addrs ndirect)
  pub distinct :
      (n m : ℕ)
      → n < maxfile
      → m < maxfile
      → block_of addrs d n ≢ 0
      → block_of addrs d n ≡ block_of addrs d m
      → n ≡ m
  pub apart : (n : ℕ) → n < maxfile → block_of addrs d n ≢ 0 → block_of addrs d n ≢ addrs ndirect

-- How the file gets a block: block `i` of it, which was a hole, is now the fresh block `b`.
pub record Extends (sb : Super) (addrs : ℕ → ℕ) (d : Disk) (i b : ℕ) (addrs' : ℕ → ℕ) (d' : Disk)
    : Type 0 where
  pub hole : block_of addrs d i ≡ 0
  pub there :
      (n : ℕ) → n < maxfile → block_of addrs' d' n ≡ (if i == n then b else block_of addrs d n)
  pub indirect : addrs' ndirect ≡ addrs ndirect
  pub fresh : InUse sb d' b
  pub was_free : is_free sb d b ≡ true
  pub still_used : (n : ℕ) → n < sb.size → is_free sb d n ≡ false → is_free sb d' n ≡ false
  pub cleared : d' b ≡ zeros
  pub kept : (q : ℕ) → data_start sb ≤ q → q ≢ b → q ≢ addrs ndirect → d' q ≡ d q
  pub sound : IsSound sb d'

module _ (sb : Super) (addrs : ℕ → ℕ) (d : Disk) (i b : ℕ) (addrs' : ℕ → ℕ) (d' : Disk)
    (f : IsFile sb addrs d) (x : Extends sb addrs d i b addrs' d') where
  still : (q : ℕ) → InUse sb d q → InUse sb d' q
  still q u = record { low = u.low; high = u.high; used = x.still_used q u.high u.used }

  fresh-ne : (q : ℕ) → InUse sb d q → b ≢ q
  fresh-ne q u e =
      absurd (let v : is_free sb d b ≡ false = rw e u.used in let w = x.was_free in ground arith)

  old_block : (n : ℕ) → n < maxfile → i ≢ n → block_of addrs' d' n ≡ block_of addrs d n
  old_block n lt ne = x.there n lt ∙ ground arith

  new_block : i < maxfile → block_of addrs' d' i ≡ b
  new_block lt = x.there i lt ∙ ground arith

  Extends-owned :
      i < maxfile
      → (n : ℕ) → n < maxfile
      → block_of addrs' d' n ≢ 0
      → InUse sb d' (block_of addrs' d' n)
  Extends-owned li n lt ne = elim (ℕ_discrete i n) [
    | yes e ↦ rw (sym e) rw (new_block li) x.fresh
    | no k ↦
        (let o = old_block n lt k in
          rw o (still (block_of addrs d n) (f.owned n lt (λ z. ne (o ∙ z)))))
  ]

  Extends-distinct :
      i < maxfile
      → (n m : ℕ) → n < maxfile
      → m < maxfile
      → block_of addrs' d' n ≢ 0
      → block_of addrs' d' n ≡ block_of addrs' d' m
      → n ≡ m
  Extends-distinct li n m ln lm ne e = elim (ℕ_discrete i n) [
    | yes p ↦ elim (ℕ_discrete i m) [
      | yes q ↦ sym p ∙ q
      | no q ↦ absurd (
          fresh-ne (block_of addrs d m) (f.owned m lm (nonzero m lm q (λ z. ne (e ∙ z))))
            (sym (new_block li) ∙ ap (block_of addrs' d') p ∙ e ∙ old_block m lm q))
    ]
    | no p ↦ elim (ℕ_discrete i m) [
      | yes q ↦ absurd (
          fresh-ne (block_of addrs d n) (f.owned n ln (nonzero n ln p ne))
            (sym (new_block li) ∙ ap (block_of addrs' d') q ∙ sym e ∙ old_block n ln p))
      | no q ↦
          f.distinct n m ln lm (nonzero n ln p ne) (sym (old_block n ln p) ∙ e ∙ old_block m lm q)
    ]
  ]
    where
      nonzero : (k : ℕ) → k < maxfile → i ≢ k → block_of addrs' d' k ≢ 0 → block_of addrs d k ≢ 0
      nonzero k lt away nz z = nz (old_block k lt away ∙ z)

  Extends-apart :
      i < maxfile
      → (n : ℕ) → n < maxfile
      → block_of addrs' d' n ≢ 0
      → block_of addrs' d' n ≢ addrs' ndirect
  Extends-apart li n lt ne e = elim (ℕ_discrete i n) [
    | yes p ↦
        (let s : b ≡ addrs ndirect =
            sym (new_block li) ∙ ap (block_of addrs' d') p ∙ e ∙ x.indirect in
          fresh-ne (addrs ndirect) (f.own_indirect (λ z. positive (s ∙ z))) s)
    | no p ↦ f.apart n lt (λ z. ne (old_block n lt p ∙ z)) (sym (old_block n lt p) ∙ e ∙ x.indirect)
  ]
    where
      positive : b ≢ 0
      positive z = absurd (let l = x.fresh.low in omega arith)

  pub Extends-IsFile : i < maxfile → IsFile sb addrs' d'
  Extends-IsFile li = record {
    sound = x.sound;
    owned = Extends-owned li;
    own_indirect =
        λ ne. rw x.indirect (still (addrs ndirect) (f.own_indirect (λ z. ne (x.indirect ∙ z))));
    distinct = Extends-distinct li;
    apart = Extends-apart li;
  }

  kept_block :
      (n o : ℕ)
      → n < maxfile
      → block_of addrs d n ≢ 0
      → d' (block_of addrs d n) o ≡ d (block_of addrs d n) o
  kept_block n o lt ne =
      let u = f.owned n lt ne in
      ap (λ (bp : Block). bp o)
        (x.kept (block_of addrs d n) u.low (λ e. fresh-ne (block_of addrs d n) u (sym e))
          (f.apart n lt ne))

  -- A fresh block reads as zeros, as the hole did.
  pub Extends-content : (o : ℕ) → o / bsize < maxfile → content addrs' d' o ≡ content addrs d o
  Extends-content o lt = elim (ℕ_discrete i (o / bsize)) [
    | yes p ↦
        let new : block_of addrs' d' (o / bsize) ≡ b = rw (sym p) (new_block (rw p lt)) in
        let old : block_of addrs d (o / bsize) ≡ 0 = rw (sym p) x.hole in
        let z : d' b (o % bsize) ≡ 0 = ap (λ (bp : Block). bp (o % bsize)) x.cleared in
        rw (new, old) (elim (Bool-cases (b == 0)) [ inl y ↦ rw y refl | inr n ↦ rw n z ])
    | no p ↦
        rw (old_block (o / bsize) lt p) (elim (Bool-cases (block_of addrs d (o / bsize) == 0)) [
          | inl y ↦ rw y refl
          | inr n ↦ rw n (
              kept_block (o / bsize) (o % bsize) lt (ne_of_test (block_of addrs d (o / bsize)) 0 n))
        ])
  ]
