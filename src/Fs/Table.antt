-- ===== src/Fs/Table.antt =====
-- The table of inodes in memory, and the inodes on the disk; kernel/fs.c.
--
-- A block of inodes is read as 16-bit and 32-bit words: an inode there is 64 bytes. A field that is a
-- `short` is its bits. What happens under `itable.lock` is one operation.
pub mod Dinode
pub mod Held
pub mod Taken
pub mod References
pub mod Put
use os_design_practice.Prelude.{
  Bool, List, Option, false, first_index, if◌then◌else◌, leb, ltb, modify, none, not, some, suc,
  true, update, zero, ℕ, ◌%◌, ◌&&◌, ◌*◌, ◌+◌, ◌-◌, ◌/◌, ◌==◌, ◌||◌,
}
use os_design_practice.Buffer.{SleepLock, acquiresleep, releasesleep, holdingsleep}
use os_design_practice.Fs.{Super, Disk, Block}
use os_design_practice.Fs.Inode.{Inode, word, set_word, itrunc}

abbrev pub ninode : ℕ
ninode = 50

-- Inodes per block.
abbrev pub ipb : ℕ
ipb = 16

abbrev pub iblock : ℕ → Super → ℕ
iblock i sb = i / ipb + sb.inodestart

-- An entry of `itable`: what its lock protects is in `ip`, with `dev` and `inum`. `ref` is an int.
pub record Entry : Type 0 where
  pub ip : Inode
  pub ref : ℕ
  pub valid : Bool
  pub lock : SleepLock

pub short_at : Block → ℕ → ℕ
short_at bp i = bp (2 * i) + 256 * bp (2 * i + 1)

pub set_short : Block → ℕ → ℕ → Block
set_short bp i v = update (update bp (2 * i) (v % 256)) (2 * i + 1) (v / 256 % 256)

-- `dip->type`, of the inode at a place in the block, and `dip->nlink`.
abbrev pub type_at : Block → ℕ → ℕ
type_at bp s = short_at bp (32 * s)

abbrev pub nlink_at : Block → ℕ → ℕ
nlink_at bp s = short_at bp (32 * s + 3)

-- What `ilock` copies from the disk.
pub load_dinode : Block → ℕ → Inode → Inode
unfolding short_at
load_dinode bp s ip = record ip {
  kind = type_at bp s;
  major = short_at bp (32 * s + 1);
  minor = short_at bp (32 * s + 2);
  nlink = nlink_at bp s;
  size = word bp (16 * s + 2);
  addrs = λ k. if ltb k 13 then word bp (16 * s + 3 + k) else ip.addrs k;
}

-- The first `n` words of `f`, from the word `i` on.
pub set_words : Block → ℕ → (ℕ → ℕ) → ℕ → Block
set_words bp i f zero = bp
set_words bp i f (suc n) = set_word (set_words bp i f n) (i + n) (f n)

-- What `iupdate` copies to the block.
pub store_dinode : Block → ℕ → Inode → Block
unfolding set_words set_short
store_dinode bp s ip =
    let b1 = set_short bp (32 * s) ip.kind in
    let b2 = set_short b1 (32 * s + 1) ip.major in
    let b3 = set_short b2 (32 * s + 2) ip.minor in
    let b4 = set_short b3 (32 * s + 3) ip.nlink in
    let b5 = set_word b4 (16 * s + 2) ip.size in set_words b5 (16 * s + 3) ip.addrs 13

pub iupdate : Super → Inode → Disk → Disk
unfolding store_dinode
iupdate sb ip d =
    update d (iblock ip.inum sb) (store_dinode (d (iblock ip.inum sb)) (ip.inum % ipb) ip)

pub ifree : Super → ℕ → Disk → Disk
ifree sb inum d = update d (iblock inum sb) (set_short (d (iblock inum sb)) (32 * (inum % ipb)) 0)

-- `memset(dip, 0, sizeof(*dip))`
abbrev pub clear_dinode : Block → ℕ → Block
clear_dinode bp s j = if leb (64 * s) j && ltb j (64 * s + 64) then 0 else bp j

abbrev pub is_for : ℕ → ℕ → Entry → Bool
is_for dev inum e = ltb 0 e.ref && e.ip.dev == dev && e.ip.inum == inum

abbrev pub is_unused : Entry → Bool
is_unused e = e.ref == 0

abbrev pub more : Entry → Entry
more e = record e { ref = e.ref + 1 }

abbrev pub renew : ℕ → ℕ → Entry → Entry
renew dev inum e = record {
  ip = record e.ip { dev = dev; inum = inum };
  ref = 1;
  valid = false;
  lock = e.lock;
}

-- The place of the entry, and the table; `none` is a panic.
pub iget : ℕ → ℕ → List Entry → Option (ℕ × List Entry)
iget dev inum t = elim (first_index (is_for dev inum) t) [
  | some i ↦ some (i, modify t i more)
  | none ↦ elim (first_index is_unused t) [
    | some i ↦ some (i, modify t i (renew dev inum))
    | none ↦ none
  ]
]

unfoldable pub idup : ℕ → List Entry → List Entry
idup i t = modify t i more

-- What an operation comes to that may panic, or sleep until another process acts.
pub data Outcome (A : Type 0) : Type 0 where
  panics : Outcome A
  sleeps : Outcome A
  done : A → Outcome A

-- `ialloc` from the inode `inum` on, with `k` numbers left: the entry, the table and the disk.
pub ialloc_from : Super → ℕ → ℕ → ℕ → ℕ → List Entry → Disk → Outcome (Option ℕ × List Entry × Disk)
unfolding iget set_short short_at
ialloc_from sb dev kind zero inum t d = done (none, t, d)
ialloc_from sb dev kind (suc k) inum t d =
    let rest = ialloc_from sb dev kind k (inum + 1) t d in
    let bp = d (iblock inum sb) in
    let s = inum % ipb in
    if type_at bp s == 0
    then elim (iget dev inum t) [
      | none ↦ panics
      | some (i, t') ↦
          done (some i, t', update d (iblock inum sb) (set_short (clear_dinode bp s) (32 * s) kind))
    ]
    else rest

pub ialloc : Super → ℕ → ℕ → List Entry → Disk → Outcome (Option ℕ × List Entry × Disk)
unfolding ialloc_from
ialloc sb dev kind t d = ialloc_from sb dev kind (sb.ninodes - 1) 1 t d

-- The entry, when its lock is taken.
unfoldable pub load_entry : Super → Disk → Entry → Outcome Entry
unfolding load_dinode
load_entry sb d e =
    let ip = load_dinode (d (iblock e.ip.inum sb)) (e.ip.inum % ipb) e.ip in
    if e.valid
    then done e
    else if ip.kind == 0
    then panics
    else done (record e { ip = ip; valid = true })

unfoldable pub ilock : Super → ℕ → Disk → Entry → Outcome Entry
ilock sb me d e = if e.ref == 0 then panics else elim (acquiresleep me e.lock) [
  | none ↦ sleeps
  | some lk ↦ load_entry sb d (record e { lock = lk })
]

unfoldable pub iunlock : ℕ → Entry → Outcome Entry
iunlock me e =
    if not (holdingsleep me e.lock) || e.ref == 0
    then panics
    else done (record e { lock = releasesleep e.lock })

abbrev pub is_last : Entry → Bool
is_last e = e.ref == 1 && e.valid && e.ip.nlink == 0

-- The entry and the disk. Only a caller with a reference may put it: `ref` is not 0.
pub iput : Super → ℕ → Disk → Entry → Outcome (Entry × Disk)
unfolding iupdate ifree
iput sb me d e =
    if is_last e
    then elim (acquiresleep me e.lock) [
      | none ↦ sleeps
      | some lk ↦ elim (itrunc sb e.ip d) [
        | none ↦ panics
        | some (ip, d') ↦ done (
          record { ip = ip; ref = e.ref - 1; valid = false; lock = releasesleep lk },
          ifree sb e.ip.inum (iupdate sb ip d'),
        )
      ]
    ]
    else done (record e { ref = e.ref - 1 }, d)

pub iunlockput : Super → ℕ → Disk → Entry → Outcome (Entry × Disk)
unfolding iunlock iput
iunlockput sb me d e = elim (iunlock me e) [
  | panics ↦ panics
  | sleeps ↦ sleeps
  | done e' ↦ iput sb me d e'
]
