-- ===== src/Fs/Inode.antt =====
-- The content of an inode, of kernel/fs.c: `bmap`, `itrunc`, `readi` and `writei`.
--
-- An inode here is what its lock protects, with its place on the disk. The array `addrs` is a map from
-- indices, as the words of an indirect block are.
pub mod Words
pub mod Map
pub mod Grows
pub mod Bmap
pub mod Store
pub mod Piece
pub mod Write
pub mod Read
pub mod Roundtrip
pub mod Runs
pub mod Trunc
pub mod Sample
mod Tests
use os_design_practice.Prelude.{
  Bool, List, Option, [], false, if◌then◌else◌, ltb, min, minus_one, none, pos, some, suc, true,
  update, zero, ℕ, ℤ, ◌%◌, ◌*◌, ◌++◌, ◌+◌, ◌-◌, ◌/◌, ◌==◌, ◌^◌, ◌||◌, ◌∷◌,
}
use os_design_practice.Fs.{Super, Disk, Block, bsize, balloc, bfree}

abbrev pub ndirect : ℕ
ndirect = 12

-- `BSIZE / sizeof(uint)`
abbrev pub nindirect : ℕ
nindirect = 256

abbrev pub maxfile : ℕ
maxfile = ndirect + nindirect

pub record Inode : Type 0 where
  pub dev : ℕ
  pub inum : ℕ
  pub kind : ℕ  -- `type`
  pub major : ℕ
  pub minor : ℕ
  pub nlink : ℕ
  pub size : ℕ
  pub addrs : ℕ → ℕ

-- `a[i]` of a block read as `uint *`; the machine is little-endian.
pub word : Block → ℕ → ℕ
word bp i = bp (4 * i) + 256 * bp (4 * i + 1) + 65536 * bp (4 * i + 2) + 16777216 * bp (4 * i + 3)

pub set_word : Block → ℕ → ℕ → Block
set_word bp i v =
    update
      (update (update (update bp (4 * i) (v % 256)) (4 * i + 1) (v / 256 % 256)) (4 * i + 2)
        (v / 65536 % 256))
      (4 * i + 3) (v / 16777216 % 256)

-- `if(addr == 0) return 0; ip->addrs[i] = addr`
abbrev pub fill_slot : Inode → ℕ → ℕ × Disk → ℕ × Inode × Disk
fill_slot ip i (addr, d) =
    if addr == 0 then (0, ip, d) else (addr, record ip { addrs = update ip.addrs i addr }, d)

-- `addrs[i]`, allocated if it is 0; 0 is failure.
pub slot : Super → Inode → ℕ → Disk → ℕ × Inode × Disk
slot sb ip i d = if ip.addrs i == 0 then fill_slot ip i (balloc sb d) else (ip.addrs i, ip, d)

-- `if(addr){ a[j] = addr; log_write(bp); }`, on the indirect block `ind`.
abbrev pub fill_word : ℕ → ℕ → ℕ × Disk → ℕ × Disk
fill_word ind j (addr, d) =
    if addr == 0 then (0, d) else (addr, update d ind (set_word (d ind) j addr))

-- The word `j` of the indirect block `ind`, allocated if it is 0.
pub indirect_slot : Super → ℕ → ℕ → Disk → ℕ × Disk
unfolding word
indirect_slot sb ind j d =
    if word (d ind) j == 0 then fill_word ind j (balloc sb d) else (word (d ind) j, d)

-- The block, the inode and the disk. `none` is a panic.
pub bmap : Super → Inode → ℕ → Disk → Option (ℕ × Inode × Disk)
bmap sb ip bn d =
    if ltb bn ndirect
    then some (slot sb ip bn d)
    else if ltb (bn - ndirect) nindirect
    then (let (ind, ip', d') = slot sb ip ndirect d in
        let (addr, d'') = indirect_slot sb ind (bn - ndirect) d' in
        if ind == 0 then some (0, ip', d') else some (addr, ip', d''))
    else none

-- The loops of `itrunc`: free the block `f i`, if it is not 0, and those of the next `k - 1` indices.
pub free_run : Super → (ℕ → ℕ) → ℕ → ℕ → Disk → Option Disk
free_run sb f zero i d = some d
free_run sb f (suc k) i d =
    if f i == 0
    then free_run sb f k (i + 1) d
    else elim (bfree sb (f i) d) [ none ↦ none | some d' ↦ free_run sb f k (i + 1) d' ]

-- The direct addresses are 0.
abbrev pub no_direct : (ℕ → ℕ) → ℕ → ℕ
no_direct addrs i = if ltb i ndirect then 0 else addrs i

-- The indirect block `ind`: its first `n` words, then itself.
pub free_indirect : Super → ℕ → ℕ → Disk → Option Disk
unfolding free_run word
free_indirect sb ind n d = elim (free_run sb (word (d ind)) n 0 d) [
  | none ↦ none
  | some d' ↦ bfree sb ind d'
]

-- The inode and the disk, before `iupdate`. `none` is a panic.
pub itrunc : Super → Inode → Disk → Option (Inode × Disk)
itrunc sb ip d = elim (free_run sb ip.addrs ndirect 0 d) [
  | none ↦ none
  | some d' ↦
      if ip.addrs ndirect == 0
      then some (record ip { addrs = no_direct ip.addrs; size = 0 }, d')
      else elim (free_indirect sb (ip.addrs ndirect) nindirect d') [
        | none ↦ none
        | some d'' ↦
            some (record ip { addrs = update (no_direct ip.addrs) ndirect 0; size = 0 }, d'')
      ]
]

-- `min(n - tot, BSIZE - off % BSIZE)`
abbrev pub piece : ℕ → ℕ → ℕ
piece left off = min left (bsize - off % bsize)

-- The copies from and to the user, `either_copyin` and `either_copyout`: into a block, at an offset, so
-- many bytes from an address (true is success; a failure may have copied some of them); and whether so
-- many bytes could be stored at an address.
pub record User : Type 0 where
  pub copyin : Block → ℕ → ℕ → ℕ → Bool × Block
  pub copyout : ℕ → ℕ → Bool

-- The bytes of a block from an offset on.
pub segment : Block → ℕ → ℕ → List ℕ
segment bp o zero = []
segment bp o (suc m) = bp o ∷ segment bp (o + 1) m

-- What a loop over a file comes to: how much it did, the inode and the disk.
pub record Progress : Type 0 where
  pub tot : ℕ
  pub ip : Inode
  pub disk : Disk

-- `if(off > ip->size) ip->size = off`
abbrev pub grow : Inode → ℕ → Inode
grow ip off = if ltb ip.size off then record ip { size = off } else ip

module _ (u : User) (sb : Super) where
  open u use {copyin, copyout}

  -- The loop of `writei`, with `left` bytes to go, of which each round does one at least: so `left` is
  -- fuel enough. `none` is a panic.
  pub write_from : ℕ → ℕ → ℕ → ℕ → ℕ → Inode → Disk → Option Progress
  write_from zero tot src off left ip d = some (record { tot = tot; ip = ip; disk = d })
  write_from (suc fuel) tot src off left ip d =
      if left == 0
      then some (record { tot = tot; ip = ip; disk = d })
      else elim (bmap sb ip (off / bsize) d) [
        | none ↦ none
        | some (addr, ip', d') ↦
            if addr == 0
            then some (record { tot = tot; ip = ip'; disk = d' })
            else (let (ok, bp) = copyin (d' addr) (off % bsize) src (piece left off) in
                elim ok [
                  | false ↦ some (record { tot = tot; ip = ip'; disk = update d' addr bp })
                  | true ↦
                      write_from fuel (tot + piece left off) (src + piece left off)
                        (off + piece left off) (left - piece left off) ip' (update d' addr bp)
                ])
      ]

  -- The result, the inode and the disk, of which `iupdate` makes the inode's place agree with the inode.
  pub writei : Inode → ℕ → ℕ → ℕ → Disk → Option (ℤ × Inode × Disk)
  writei ip src off n d =
      if ltb ip.size off || ltb ((off + n) % 2 ^ 32) off
      then some (minus_one, ip, d)
      else if ltb (maxfile * bsize) ((off + n) % 2 ^ 32)
      then some (minus_one, ip, d)
      else elim (write_from n 0 src off n ip d) [
        | none ↦ none
        | some p ↦ some (pos p.tot, grow p.ip (off + p.tot), p.disk)
      ]

  -- The loop of `readi`, likewise, with the bytes that it has stored. A store that fails makes the result -1.
  pub read_from : ℕ → ℕ → ℕ → ℕ → ℕ → List ℕ → Inode → Disk → Option (ℤ × List ℕ × Inode × Disk)
  unfolding segment
  read_from zero tot dst off left out ip d = some (pos tot, out, ip, d)
  read_from (suc fuel) tot dst off left out ip d =
      if left == 0 then some (pos tot, out, ip, d) else elim (bmap sb ip (off / bsize) d) [
        | none ↦ none
        | some (addr, ip', d') ↦
            if addr == 0
            then some (pos tot, out, ip', d')
            else elim (copyout dst (piece left off)) [
              | false ↦ some (minus_one, out, ip', d')
              | true ↦
                  read_from fuel (tot + piece left off) (dst + piece left off)
                    (off + piece left off) (left - piece left off)
                    (out ++ segment (d' addr) (off % bsize) (piece left off)) ip' d'
            ]
      ]

  pub readi : Inode → ℕ → ℕ → ℕ → Disk → Option (ℤ × List ℕ × Inode × Disk)
  readi ip dst off n d =
      if ltb ip.size off || ltb ((off + n) % 2 ^ 32) off
      then some (pos 0, [], ip, d)
      else (let n' = if ltb ip.size ((off + n) % 2 ^ 32) then ip.size - off else n in
          read_from n' 0 dst off n' [] ip d)
