-- ===== src/Fs/Table/Put/Tests.antt =====
-- The last reference to an inode without links is put; kernel/fs.c.
use os_design_practice.Prelude.{arith, false, refl, true, ◌≡◌}
use os_design_practice.Fs.{Disk}
use os_design_practice.Fs.Inode.Sample.{sb8, disk8, file8, file8-IsFile}
use os_design_practice.Fs.Table.{Entry, done, iput}
use os_design_practice.Fs.Table.Put.{Gone, iput-Gone}

abbrev entry : Entry
entry = record { ip = file8; ref = 1; valid = true; lock = record { locked = false; pid = 0 } }

iput-Gone_example :
    (e' : Entry) × (d' : Disk) × (iput sb8 7 disk8 entry ≡ done (e', d'))
    × Gone sb8 entry disk8 e' d'
iput-Gone_example =
    iput-Gone sb8 (λ inum lt. omega (arith, lt)) entry disk8 (omega arith) 7 refl refl refl refl
      file8-IsFile
