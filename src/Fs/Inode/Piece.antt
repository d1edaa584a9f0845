-- ===== src/Fs/Inode/Piece.antt =====
-- A round of the loop of `writei` of kernel/fs.c: a piece of a block.
use os_design_practice.Prelude.{
  ==_iff, Bool-cases, ap, arith, false, if◌then◌else◌, inl, inr, refl, sym, true, update, ℕ, ◌%◌,
  ◌+◌, ◌-◌, ◌/◌, ◌<◌, ◌==◌, ◌∙◌, ◌≡◌, ◌≢◌, ◌≤◌, ◌⊎◌,
}
use os_design_practice.Fs.{Super, Disk, Block, bsize}
use os_design_practice.Fs.Inode.{Inode, User, maxfile}
use os_design_practice.Fs.Inode.Map.{block_of, content, IsFile}
use os_design_practice.Fs.Inode.Grows.{Foreign, Grows-Foreign}
use os_design_practice.Fs.Inode.Bmap.{Mapped}
use os_design_practice.Fs.Inode.Store.{stored-IsFile, stored-content, stored-block, stored-used}

-- The user's memory, as `either_copyin` reads it: it writes nothing outside the place that it is given.
pub record IsUser (u : User) (mem : ℕ → ℕ) : Type 0 where
  pub copied :
      (bp : Block) (o src m i : ℕ)
      → (u.copyin bp o src m).0 ≡ true
      → i < m
      → (u.copyin bp o src m).1 (o + i) ≡ mem (src + i)
  pub outside : (bp : Block) (o src m i : ℕ) → i < o ⊎ o + m ≤ i → (u.copyin bp o src m).1 i ≡ bp i
  pub bytes :
      (bp : Block) (o src m : ℕ)
      → ((i : ℕ) → bp i < 256)
      → (i : ℕ) → (u.copyin bp o src m).1 i < 256

-- A piece of a write: the block of `off` is found or allocated, and changed from there on.
module _ (u : User) (mem : ℕ → ℕ) (law : IsUser u mem) (sb : Super) (ip : Inode) (d : Disk)
    (src off m : ℕ) (a : ℕ) (ip' : Inode) (d' : Disk) (inside : off % bsize + m ≤ bsize)
    (lt : off / bsize < maxfile) (f : Mapped sb ip (off / bsize) d a ip' d') (ne : a ≢ 0) where
  abbrev pub bp : Block
  bp = (u.copyin (d' a) (off % bsize) src m).1

  pub bp-IsByte : (i : ℕ) → bp i < 256
  bp-IsByte = law.bytes (d' a) (off % bsize) src m (f.grows.file.sound.bytes a)

  pub piece-IsFile : IsFile sb ip'.addrs (update d' a bp)
  piece-IsFile = stored-IsFile sb ip'.addrs d' (off / bsize) a bp f.grows.file lt f.at ne bp-IsByte

  pub piece_present : block_of ip'.addrs (update d' a bp) (off / bsize) ≢ 0
  piece_present z = ne (
      sym f.at
      ∙ sym (
          stored-block sb ip'.addrs d' (off / bsize) a bp f.grows.file lt f.at ne bp-IsByte
            (off / bsize))
      ∙ z)

  pub piece_stable :
      (k : ℕ) → k < maxfile → block_of ip.addrs d k ≢ 0 → block_of ip'.addrs (update d' a bp) k ≢ 0
  piece_stable k l nz z = nz (
      sym (f.grows.stable k l nz)
      ∙ sym (stored-block sb ip'.addrs d' (off / bsize) a bp f.grows.file lt f.at ne bp-IsByte k)
      ∙ z)

  pub piece-content :
      (o : ℕ)
      → o / bsize < maxfile
      → content ip'.addrs (update d' a bp) o
        ≡ (if off / bsize == o / bsize then bp (o % bsize) else content ip'.addrs d' o)
  piece-content =
      stored-content sb ip'.addrs d' (off / bsize) a bp f.grows.file lt f.at ne bp-IsByte

  pub piece_outside :
      (o : ℕ)
      → o / bsize < maxfile
      → o < off ⊎ off + m ≤ o
      → content ip'.addrs (update d' a bp) o ≡ content ip.addrs d o
  piece_outside o l out = piece-content o l ∙ elim (Bool-cases (off / bsize == o / bsize)) [
    | inr n ↦ rw n (f.grows.same o l)
    | inl y ↦
        let e : off / bsize ≡ o / bsize = (==_iff (off / bsize) (o / bsize)).0 y in
        let here : block_of ip'.addrs d' (o / bsize) ≡ a =
          ap (block_of ip'.addrs d') (sym e) ∙ f.at in
        let nz : (a == 0) ≡ false = ground (arith, ne) in
        rw y (
          law.outside (d' a) (off % bsize) src m (o % bsize) (place e)
          ∙ sym (rw (here, nz) refl)
          ∙ f.grows.same o l)
  ]
    where
      place : off / bsize ≡ o / bsize → o % bsize < off % bsize ⊎ off % bsize + m ≤ o % bsize
      place e = elim out [ inl p ↦ inl (omega arith) | inr p ↦ inr (omega arith) ]

  pub piece_inside :
      (o : ℕ)
      → o / bsize < maxfile
      → (u.copyin (d' a) (off % bsize) src m).0 ≡ true
      → off ≤ o
      → o < off + m
      → content ip'.addrs (update d' a bp) o ≡ mem (src + (o - off))
  piece_inside o l ok low high =
      let e : off / bsize ≡ o / bsize = omega arith in
      let y : (off / bsize == o / bsize) ≡ true = ground (arith, e) in
      let i : off % bsize + (o - off) ≡ o % bsize = omega arith in
      piece-content o l
      ∙ rw y (ap bp (sym i) ∙ law.copied (d' a) (off % bsize) src m (o - off) ok (omega arith))

  pub piece-Foreign :
      (q : ℕ)
      → Foreign sb ip.addrs d q
      → Foreign sb ip'.addrs (update d' a bp) q × (update d' a bp q ≡ d q)
  piece-Foreign q x =
      let (y, e) = Grows-Foreign sb ip.addrs d q f.grows x in
      let out : (a == q) ≡ false = away y in
      (
        record {
          used =
              stored-used sb ip'.addrs d' (off / bsize) a bp f.grows.file lt f.at ne bp-IsByte q
                y.used;
          no_indirect = y.no_indirect;
          no_block = λ n ln s. y.no_block n ln (
              s
              ∙ stored-block sb ip'.addrs d' (off / bsize) a bp f.grows.file lt f.at ne bp-IsByte
                  n);
        },
        rw out e,
      )
    where
      away : Foreign sb ip'.addrs d' q → (a == q) ≡ false
      away y = elim (Bool-cases (a == q)) [
        | inr n ↦ n
        | inl t ↦ absurd (y.no_block (off / bsize) lt (sym ((==_iff a q).0 t) ∙ sym f.at))
      ]
