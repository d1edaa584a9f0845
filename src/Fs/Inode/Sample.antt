-- ===== src/Fs/Inode/Sample.antt =====
-- A disk of eight blocks for tests of kernel/fs.c: the boot block, a block of inodes, the bitmap, and five
-- blocks of data, the first of which belongs to a directory of two entries.
use os_design_practice.Prelude.{
  Bool-cases, arith, false, if◌then◌else◌, inl, inr, leb, ltb, refl, suc, sym, true, zero, ℕ,
  ℕ_discrete, ◌%◌, ◌&&◌, ◌+◌, ◌-◌, ◌<◌, ◌==◌, ◌||◌, ◌∙◌, ◌≡◌, ◌≢◌,
}
use os_design_practice.Fs.{Super, Disk, is_free}
use os_design_practice.Fs.Bitmap.{IsBytes}
use os_design_practice.Fs.Alloc.{IsSound}
use os_design_practice.Fs.Inode.{Inode, User}
use os_design_practice.Fs.Inode.Map.{block_of, IsFile}
use os_design_practice.Fs.Inode.Piece.{IsUser}

abbrev pub sb8 : Super
sb8 = record { size = 8; ninodes = 8; inodestart = 1; bmapstart = 2 }

-- The bits of blocks 0 to 3 are set. In block 3, the second entry of a directory is for inode 5, "a".
abbrev pub disk8 : Disk
disk8 b i =
    if b == 2 && i == 0
    then 15
    else if b == 3 && i == 16
    then 5
    else if b == 3 && i == 18
    then 97
    else 0

disk8-IsBytes : IsBytes disk8
disk8-IsBytes b i = ground arith

pub disk8_used : (n : ℕ) → n < 4 → is_free sb8 disk8 n ≡ false
unfolding is_free
disk8_used zero lt = refl
disk8_used (suc zero) lt = refl
disk8_used (suc (suc zero)) lt = refl
disk8_used (suc (suc (suc zero))) lt = refl
disk8_used (suc (suc (suc (suc n)))) lt = absurd (omega arith)

pub disk8-IsSound : IsSound sb8 disk8
disk8-IsSound = record {
  bytes = disk8-IsBytes;
  reserved = λ n lt high. disk8_used n (omega (arith, lt));
}

abbrev pub addrs8 : ℕ → ℕ
addrs8 i = if i == 0 then 3 else 0

abbrev pub file8 : Inode
file8 = record {
  dev = 1;
  inum = 1;
  kind = 1;
  major = 0;
  minor = 0;
  nlink = 0;
  size = 32;
  addrs = addrs8;
}

block8_zero : (n : ℕ) → block_of addrs8 disk8 n ≢ 0 → n ≡ 0
block8_zero n nz = elim (ℕ_discrete n 0) [
  | yes e ↦ e
  | no k ↦
      let t : (n == 0) ≡ false = ground (arith, k) in
      absurd (nz (elim (Bool-cases (ltb n 12)) [ inl y ↦ rw (y, t) refl | inr m ↦ rw m refl ]))
]

pub file8-IsFile : IsFile sb8 addrs8 disk8
file8-IsFile = record {
  sound = disk8-IsSound;
  owned = λ n lt nz.
      (let z = block8_zero n nz in
        rw z (record { low = omega arith; high = omega arith; used = disk8_used 3 (omega arith) }));
  own_indirect = λ nz. absurd (nz refl);
  distinct = λ n m ln lm nz e. block8_zero n nz ∙ sym (block8_zero m (λ z. nz (e ∙ z)));
  apart = λ n lt nz. nz;
}

-- The memory of a user, of whom all copies succeed.
abbrev pub mem8 : ℕ → ℕ
mem8 a = a % 256

abbrev pub user8 : User
user8 = record {
  copyin =
      λ bp o src m. (true, λ i. if ltb i o || leb (o + m) i then bp i else mem8 (src + (i - o)));
  copyout = λ a m. true;
}

pub user8-IsUser : IsUser user8 mem8
user8-IsUser = record {
  copied = λ bp o src m i ok lt.
      (let t : (ltb (o + i) o || leb (o + m) (o + i)) ≡ false = ground (arith, lt) in
        let s : o + i - o ≡ i = omega arith in rw (t, s) refl);
  outside = λ bp o src m i out.
      (let t : (ltb i o || leb (o + m) i) ≡ true = ground (arith, out) in rw t refl);
  bytes = λ bp o src m h i. elim (Bool-cases (ltb i o || leb (o + m) i)) [
    | inl y ↦ rw y (h i)
    | inr n ↦ rw n (omega arith)
  ];
}
