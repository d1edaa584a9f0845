-- ===== src/Fs/Table/References/Tests.antt =====
-- References to the table of inodes of kernel/fs.c.
use os_design_practice.Prelude.{
  Option, [], arith, false, first_index, modify, none, occurrences, refl, some, suc, zero, ℕ, ◌∷◌,
  ◌≡◌, ◌≢◌,
}
use os_design_practice.Fs.Inode.{Inode}
use os_design_practice.Fs.Inode.Sample.{sb8, disk8, file8}
use os_design_practice.Fs.Table.{
  Entry, panics, sleeps, done, more, iget, idup, ialloc, ialloc_from, short_at,
}
use os_design_practice.Fs.Table.Dinode.{IsStorable, Agrees, on_disk, iupdate-on_disk}
use os_design_practice.Fs.Table.Held.{refs, ident}
use os_design_practice.Fs.Table.References.{
  System, Step, Reach, here, next, get, dup, references_stay,
}
use os_design_practice.Fs.Table.{iupdate}

abbrev unused_entry : Entry
unused_entry = record {
  ip = file8;
  ref = 0;
  valid = false;
  lock = record { locked = false; pid = 0 };
}

abbrev used_entry : Entry
used_entry = record {
  ip = record file8 { inum = 5 };
  ref = 2;
  valid = false;
  lock = record { locked = false; pid = 0 };
}

abbrev start : System
start = record { table = unused_entry ∷ unused_entry ∷ []; held = [] }

abbrev after_dup : System
after_dup = record { table = used_entry ∷ unused_entry ∷ []; held = 0 ∷ 0 ∷ [] }

dup-Reach : Reach start after_dup
unfolding iget idup first_index
dup-Reach =
    next (next here (get 1 5 0 (record used_entry { ref = 1 } ∷ unused_entry ∷ []) refl))
      (dup 0 0 refl)

no_refs : (n : ℕ) → refs start.table n ≡ 0
no_refs zero = refl
no_refs (suc zero) = refl
no_refs (suc (suc n)) = refl

references_stay_example :
    (refs after_dup.table 0 ≡ occurrences 0 after_dup.held)
    × (ident after_dup.table 0 ≡ ident after_dup.table 0 → ◌≡◌ {A = ℕ} 0 0)
    × ((u : System) → Step after_dup u → ident u.table 0 ≡ ident after_dup.table 0)
    × (iget (ident after_dup.table 0).0 (ident after_dup.table 0).1 after_dup.table
        ≡ some (0, modify after_dup.table 0 more))
references_stay_example =
    references_stay {s = start} {t = after_dup} 0 1 no_refs refl dup-Reach refl refl

file8-IsStorable : IsStorable file8
file8-IsStorable = record {
  kind = omega arith;
  major = omega arith;
  minor = omega arith;
  nlink = omega arith;
  size = omega arith;
  addrs = λ k lt. ground arith;
}

-- Inode 2 lies in the same block.
abbrev neighbour : Inode
neighbour = record file8 { inum = 2 }

iupdate-on_disk_example :
    (neighbour.inum ≡ file8.inum → Agrees file8 (on_disk sb8 (iupdate sb8 file8 disk8) neighbour))
    × (neighbour.inum ≢ file8.inum
        → Agrees (on_disk sb8 disk8 neighbour) (on_disk sb8 (iupdate sb8 file8 disk8) neighbour))
iupdate-on_disk_example = iupdate-on_disk sb8 disk8 file8 neighbour file8-IsStorable

-- Inode 1 is free on the disk.
abbrev new_place : Option ℕ
new_place = elim (ialloc sb8 1 2 start.table disk8) [ panics ↦ none | sleeps ↦ none | done r ↦ r.0 ]

test_ialloc : new_place ≡ some 0
unfolding ialloc ialloc_from iget first_index short_at
test_ialloc = refl
