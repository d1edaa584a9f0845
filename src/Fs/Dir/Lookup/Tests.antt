-- ===== src/Fs/Dir/Lookup/Tests.antt =====
-- A name is looked up in a directory of two entries; kernel/fs.c.
use os_design_practice.Prelude.{
  List, [], arith, false, if◌then◌else◌, refl, ℕ, ◌/◌, ◌<◌, ◌==◌, ◌∷◌, ◌≡◌,
}
use os_design_practice.Fs.Inode.Sample.{sb8, disk8, file8, addrs8, file8-IsFile}
use os_design_practice.Fs.Inode.Map.{block_of}
use os_design_practice.Fs.Table.{Entry, panics}
use os_design_practice.Fs.Dir.{dirlookup, dirlink}
use os_design_practice.Fs.Dir.Lookup.{IsDir, Answer, dirlookup-Answer}

first_block : (o : ℕ) → o < 32 → block_of addrs8 disk8 (o / 1024) ≡ 3
first_block o lt = (let z : o / 1024 ≡ 0 = omega (arith, lt) in rw z refl)

file8-IsDir : IsDir sb8 file8 disk8
file8-IsDir = record {
  file = file8-IsFile;
  sized = omega arith;
  whole = refl;
  present = λ o lt z. absurd (omega (arith, first_block o lt, z));
}

abbrev name_a : ℕ → ℕ
name_a i = if i == 0 then 97 else 0

abbrev table : List Entry
table =
    record { ip = file8; ref = 0; valid = false; lock = record { locked = false; pid = 0 } } ∷ []

dirlookup-Answer_example :
    Answer sb8 (omega arith) name_a table file8 disk8 (dirlookup sb8 name_a table file8 disk8)
dirlookup-Answer_example =
    dirlookup-Answer sb8 (omega arith) name_a table file8 disk8 file8-IsDir refl

-- No entry is made in what is not a directory.
test_dirlink : dirlink sb8 7 name_a 5 table (record file8 { kind = 2 }) disk8 ≡ panics
unfolding dirlink dirlookup
test_dirlink = refl
