-- ===== src/Fs/Walk/Tests.antt =====
-- A walk to the parent of the last element of a path; kernel/fs.c.
use os_design_practice.Prelude.{
  List, Option, [], arith, false, none, refl, some, true, ℕ, ◌+◌, ◌∷◌, ◌≡◌,
}
use os_design_practice.Buffer.{acquiresleep, releasesleep, holdingsleep}
use os_design_practice.Fs.Inode.Sample.{sb8, disk8, file8}
use os_design_practice.Fs.Path.{
  skipelem, drop_slashes, element, after_element, set_name, write_bytes,
}
use os_design_practice.Fs.Table.{Entry, panics, sleeps, done, load_entry, ilock, iunlock, idup}
use os_design_practice.Fs.Table.Held.{refs}
use os_design_practice.Fs.Table.Taken.{taken}
use os_design_practice.Fs.Walk.{
  World, lock_at, unlock_at, visit, walk_from, namex, namei, nameiparent,
}
use os_design_practice.Fs.Walk.Balance.{namex_balanced}

abbrev dir_entry : Entry
dir_entry = record {
  ip = record file8 { nlink = 1 };
  ref = 1;
  valid = true;
  lock = record { locked = false; pid = 0 };
}

abbrev world : World
world = record { table = dir_entry ∷ []; disk = disk8 }

-- "a"
abbrev path_a : List ℕ
path_a = 97 ∷ []

abbrev result : Option ℕ × (ℕ → ℕ) × World
result = elim (namex sb8 7 0 true path_a (λ i. 0) world) [
  | panics ↦ (none, (λ i. 0), world)
  | sleeps ↦ (none, (λ i. 0), world)
  | done r ↦ r
]

walked : namex sb8 7 0 true path_a (λ i. 0) world ≡ done result
unfolding namex walk_from visit lock_at unlock_at ilock load_entry iunlock idup skipelem
    drop_slashes element after_element set_name write_bytes acquiresleep releasesleep holdingsleep
walked = refl

namex_balanced_example : refs result.2.table 0 ≡ refs world.table 0 + taken result.0 0
namex_balanced_example = namex_balanced sb8 7 0 true path_a (λ i. 0) world 0 (omega arith) walked

test_nameiparent : nameiparent sb8 7 0 path_a (λ i. 0) world ≡ done result
unfolding nameiparent
test_nameiparent = walked

-- The empty path is the working directory.
abbrev twice : World
twice = record { table = record dir_entry { ref = 2 } ∷ []; disk = disk8 }

test_namei : namei sb8 7 0 [] (λ i. 0) world ≡ done (some 0, (λ i. 0), twice)
unfolding namei namex walk_from idup skipelem drop_slashes
test_namei = refl
