-- ===== src/Fs/Table/Put.antt =====
-- What `iput` of kernel/fs.c does with the last reference to an inode without links.
mod Tests
use os_design_practice.Prelude.{
  arith, false, refl, some, true, update, ℕ, ◌%◌, ◌*◌, ◌-◌, ◌<◌, ◌==◌, ◌∙◌, ◌≡◌, ◌≢◌, ◌≤◌,
}
use os_design_practice.Buffer.{acquiresleep, releasesleep}
use os_design_practice.Fs.{Super, Disk, Block, bblock, is_free}
use os_design_practice.Fs.Alloc.{data_start}
use os_design_practice.Fs.Inode.{Inode, maxfile, ndirect, itrunc}
use os_design_practice.Fs.Inode.Map.{block_of, InUse, IsFile}
use os_design_practice.Fs.Inode.Grows.{Foreign}
use os_design_practice.Fs.Inode.Trunc.{Truncated, itrunc-Truncated, itrunc_same}
use os_design_practice.Fs.Table.{
  Entry, Outcome, done, ipb, iblock, type_at, iupdate, ifree, set_short, store_dinode, iput,
}
use os_design_practice.Fs.Table.Dinode.{short_at-set_short}

-- The inodes lie before the bitmap.
abbrev pub IsLaidOut : Super → Type 0
IsLaidOut sb = (inum : ℕ) → inum < sb.ninodes → iblock inum sb < sb.bmapstart

-- A block before the bitmap holds no bit of it.
inode_block :
    (sb : Super) (d : Disk) (b n : ℕ) (x : Block)
    → b < sb.bmapstart
    → is_free sb (update d b x) n ≡ is_free sb d n
unfolding is_free
inode_block sb d b n x low = (let t : (b == bblock n sb) ≡ false = ground (arith, low) in rw t refl)

-- The entry is unused, the inode free on the disk, and its blocks are free.
pub record Gone (sb : Super) (e : Entry) (d : Disk) (e' : Entry) (d' : Disk) : Type 0 where
  pub unused : e'.ref ≡ 0
  pub unread : e'.valid ≡ false
  pub unlocked : e'.lock.locked ≡ false
  pub no_type : type_at (d' (iblock e.ip.inum sb)) (e.ip.inum % ipb) ≡ 0
  pub freed :
      (n : ℕ)
      → n < maxfile
      → block_of e.ip.addrs d n ≢ 0
      → is_free sb d' (block_of e.ip.addrs d n) ≡ true
  pub freed_indirect : e.ip.addrs ndirect ≢ 0 → is_free sb d' (e.ip.addrs ndirect) ≡ true
  pub others : (q : ℕ) → Foreign sb e.ip.addrs d q → InUse sb d' q × (d' q ≡ d q)

module _ (sb : Super) (laid_out : IsLaidOut sb) (e : Entry) (d : Disk)
    (lt : e.ip.inum < sb.ninodes) where
  -- The two writes to the block of the inode.
  module _ (ip : Inode) (d1 : Disk) (same : ip.inum ≡ e.ip.inum) where
    abbrev written : Disk
    written = ifree sb e.ip.inum (iupdate sb ip d1)

    written_free : (n : ℕ) → is_free sb written n ≡ is_free sb d1 n
    unfolding ifree iupdate
    written_free n =
        inode_block sb (iupdate sb ip d1) (iblock e.ip.inum sb) n _ (laid_out e.ip.inum lt)
        ∙ inode_block sb d1 (iblock ip.inum sb) n _ (laid_out ip.inum (omega (arith, same, lt)))

    written_kept : (q : ℕ) → data_start sb ≤ q → written q ≡ d1 q
    unfolding ifree iupdate
    written_kept q low =
        let a = laid_out e.ip.inum lt in
        let b = laid_out ip.inum (omega (arith, same, lt)) in
        let s : (iblock e.ip.inum sb == q) ≡ false = ground (arith, a, low) in
        let t : (iblock ip.inum sb == q) ≡ false = ground (arith, b, low) in rw s rw t refl

    written_type : type_at (written (iblock e.ip.inum sb)) (e.ip.inum % ipb) ≡ 0
    unfolding ifree
    written_type =
        let s : (iblock e.ip.inum sb == iblock e.ip.inum sb) ≡ true = ground arith in
        rw s (
          short_at-set_short (iupdate sb ip d1 (iblock e.ip.inum sb)) (32 * (e.ip.inum % ipb)) 0
            (32 * (e.ip.inum % ipb)) (omega arith)
          ∙ ground arith)

  -- The last reference to an inode without links: if nobody has its lock and its blocks are its own, `iput`
  -- neither panics nor sleeps. The entry is unused then, the inode is marked free on the disk, all its
  -- blocks are free, and no block that is in use by others is freed or changed.
  pub iput-Gone :
      (me : ℕ)
      → e.ref ≡ 1
      → e.valid ≡ true
      → e.ip.nlink ≡ 0
      → e.lock.locked ≡ false
      → IsFile sb e.ip.addrs d
      → (e' : Entry) × (d' : Disk) × (iput sb me d e ≡ done (e', d')) × Gone sb e d e' d'
  unfolding iput acquiresleep releasesleep
  iput-Gone me one valid unlinked unlocked f = given (itrunc-Truncated sb e.ip d f)
    where
      given :
          (ip : Inode) × (d1 : Disk) × (itrunc sb e.ip d ≡ some (ip, d1))
            × Truncated sb e.ip d ip d1
          → (e' : Entry) × (d' : Disk) × (iput sb me d e ≡ done (e', d')) × Gone sb e d e' d'
      given (ip, d1, t, x) =
          let same = (itrunc_same sb e.ip d t).1 in
          let a : (e.ref == 1) ≡ true = ground (arith, one) in
          let b : (e.ip.nlink == 0) ≡ true = ground (arith, unlinked) in
          (
            record {
              ip = ip;
              ref = e.ref - 1;
              valid = false;
              lock = record { locked = false; pid = 0 };
            },
            written ip d1 same,
            rw (a, valid, b, unlocked, t) refl,
            record {
              unused = omega (arith, one);
              unread = refl;
              unlocked = refl;
              no_type = written_type ip d1 same;
              freed = λ n l nz. written_free ip d1 same (block_of e.ip.addrs d n) ∙ x.freed n l nz;
              freed_indirect =
                  λ nz. written_free ip d1 same (e.ip.addrs ndirect) ∙ x.freed_indirect nz;
              others = λ q g.
                  (let (u, k) = x.others q g in
                    (
                      record {
                        low = u.low;
                        high = u.high;
                        used = written_free ip d1 same q ∙ u.used;
                      },
                      written_kept ip d1 same q u.low ∙ k,
                    ));
            },
          )
