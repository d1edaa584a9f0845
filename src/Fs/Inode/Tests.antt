-- ===== src/Fs/Inode/Tests.antt =====
-- Tests of the content of inodes of kernel/fs.c.
use os_design_practice.Prelude.{arith, none, pos, refl, some, ℕ, ◌≡◌}
use os_design_practice.Fs.{Disk, mark_used, bzero, balloc_from, balloc}
use os_design_practice.Fs.Alloc.{BallocOutcome, balloc-Outcome}
use os_design_practice.Fs.Inode.{Inode, segment, bmap, slot, write_from, writei, readi, itrunc}
use os_design_practice.Fs.Inode.Bmap.{Mapped, bmap-Mapped}
use os_design_practice.Fs.Inode.Write.{WriteiOutcome, writei-Outcome}
use os_design_practice.Fs.Inode.Roundtrip.{readi-writei}
use os_design_practice.Fs.Inode.Trunc.{Truncated, itrunc-Truncated}
use os_design_practice.Fs.Inode.Sample.{
  sb8, disk8, disk8-IsSound, file8, file8-IsFile, mem8, user8, user8-IsUser,
}

balloc-Outcome_example : BallocOutcome sb8 disk8 (balloc sb8 disk8)
balloc-Outcome_example = balloc-Outcome sb8 disk8 disk8-IsSound

bmap-Mapped_example :
    (a : ℕ) × (ip' : Inode) × (d' : Disk) × (bmap sb8 file8 12 disk8 ≡ some (a, ip', d'))
    × Mapped sb8 file8 12 disk8 a ip' d'
bmap-Mapped_example = bmap-Mapped sb8 file8 12 disk8 (omega arith) (omega arith) file8-IsFile

itrunc-Truncated_example :
    (ip' : Inode) × (d' : Disk) × (itrunc sb8 file8 disk8 ≡ some (ip', d'))
    × Truncated sb8 file8 disk8 ip' d'
itrunc-Truncated_example = itrunc-Truncated sb8 file8 disk8 file8-IsFile

writei-Outcome_example :
    WriteiOutcome user8 mem8 user8-IsUser sb8
      (omega arith)
      file8
      100
      8
      1500
      disk8
      (writei user8 sb8 file8 100 8 1500 disk8)
writei-Outcome_example =
    writei-Outcome user8 mem8 user8-IsUser sb8 (omega arith) file8 100 8 1500 disk8 file8-IsFile
      (omega arith) (omega arith) (omega arith)

-- The file after three bytes were appended.
abbrev after8 : Inode × Disk
after8 = elim (writei user8 sb8 file8 100 10 3 disk8) [
  | none ↦ (file8, disk8)
  | some (r, ip, d) ↦ (ip, d)
]

completed : writei user8 sb8 file8 100 10 3 disk8 ≡ some (pos 3, after8.0, after8.1)
unfolding writei write_from bmap slot balloc balloc_from bzero mark_used
completed = refl

readi-writei_example :
    (ip2 : Inode) × (d2 : Disk) × (readi user8 sb8 after8.0 500 10 3 after8.1
      ≡ some (pos 3, segment mem8 100 3, ip2, d2))
readi-writei_example =
    readi-writei user8 mem8 user8-IsUser sb8 (omega arith) file8 100 500 10 3 disk8 file8-IsFile
      (omega arith) (omega arith) (λ a m. refl) completed
