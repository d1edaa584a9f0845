-- ===== src/Fs.antt =====
-- kernel/fs.c and kernel/fs.h: the file system above the log.
--
-- The disk is what `bread` gives within a transaction: each block as a map from offsets to bytes. What
-- `log_write` and `brelse` do besides is in Log and Buffer.
pub mod Bitmap
pub mod Alloc
pub mod Inode
pub mod Path
pub mod Table
pub mod Dir
pub mod Walk
use os_design_practice.Prelude.{
  Bool, Option, bit_and, bit_or, if◌then◌else◌, none, some, suc, update, zero, ℕ, ◌%◌, ◌*◌, ◌+◌,
  ◌-◌, ◌/◌, ◌==◌, ◌^◌,
}

abbrev pub bsize : ℕ
bsize = 1024

-- Bitmap bits per block.
abbrev pub bpb : ℕ
bpb = bsize * 8

-- `struct superblock`, less the fields that only `mkfs` reads.
pub record Super : Type 0 where
  pub size : ℕ
  pub ninodes : ℕ
  pub inodestart : ℕ
  pub bmapstart : ℕ

abbrev pub Block : Type 0
Block = ℕ → ℕ

abbrev pub Disk : Type 0
Disk = ℕ → Block

abbrev pub zeros : Block
zeros i = 0

abbrev pub poke : Disk → ℕ → ℕ → ℕ → Disk
poke d b i v = update d b (update (d b) i v)

-- The bit of the bitmap for block `b`: its block, its byte there, and its mask.
abbrev pub bblock : ℕ → Super → ℕ
bblock b sb = b / bpb + sb.bmapstart

abbrev pub byte_of : ℕ → ℕ
byte_of b = b % bpb / 8

abbrev pub mask_of : ℕ → ℕ
mask_of b = 2 ^ (b % bpb % 8)

pub bzero : ℕ → Disk → Disk
bzero b d = update d b zeros

pub is_free : Super → Disk → ℕ → Bool
is_free sb d b = bit_and (d (bblock b sb) (byte_of b)) (mask_of b) == 0

pub mark_used : Super → ℕ → Disk → Disk
mark_used sb b d =
    let bp = bblock b sb in poke d bp (byte_of b) (bit_or (d bp (byte_of b)) (mask_of b))

-- The two loops of `balloc`, with `k` blocks left from `b` on: the next bit is in the same bitmap block,
-- or the first of the next. 0 is failure.
pub balloc_from : Super → ℕ → ℕ → Disk → ℕ × Disk
unfolding bzero is_free mark_used
balloc_from sb zero b d = (0, d)
balloc_from sb (suc k) b d =
    let rest = balloc_from sb k (b + 1) d in
    if is_free sb d b then (b, bzero b (mark_used sb b d)) else rest

pub balloc : Super → Disk → ℕ × Disk
unfolding balloc_from
balloc sb d = balloc_from sb sb.size 0 d

-- `none` is a panic. `~m` is taken within the byte.
pub bfree : Super → ℕ → Disk → Option Disk
unfolding is_free
bfree sb b d =
    let bp = bblock b sb in
    if is_free sb d b
    then none
    else some (poke d bp (byte_of b) (bit_and (d bp (byte_of b)) (255 - mask_of b)))
