-- ===== src/File/Tests.antt =====
-- Concrete runs of kernel/file.c, over layers that write at most 2000 bytes in all.
use os_design_practice.Prelude.{
  List, [], arith, first_index, min, minus_one, none, pos, refl, some, suc, true, zero, ℕ, ◌-◌, ◌∷◌,
  ◌≡◌, ◌≢◌,
}
use os_design_practice.File.{
  File, fd_none, fd_inode, Layers, filealloc, filedup, fileclose, close_object, fileread, filewrite,
  read_kind, write_kind, write_chunks,
}
use os_design_practice.File.Counts.{refs, System, alloc, Reach, here, next, references_counted}
use os_design_practice.File.Chunks.{Written, write_chunks-Written}

-- The state counts the bytes that may still be written.
abbrev toy : Layers
toy = record {
  State = ℕ;
  pipeclose = λ p w s. s;
  piperead = λ p addr n s. (pos 0, s);
  pipewrite = λ p addr n s. (pos n, s);
  device_read = λ m. none;
  device_write = λ m. none;
  readi = λ ip addr off n s. (pos 0, s);
  writei = λ ip addr off n s. (pos (min n s), s - n);
  iput = λ ip s. s;
}

abbrev file : ℕ → File
file ref = record {
  kind = fd_none;
  ref = ref;
  readable = true;
  writable = true;
  pipe = 0;
  ip = 3;
  off = 0;
  major = pos 0;
}

abbrev empty_table : System toy
empty_table = record { files = file 0 ∷ file 0 ∷ []; handles = []; below = 0 }

abbrev one_open : System toy
one_open = record { files = file 1 ∷ file 0 ∷ []; handles = 0 ∷ []; below = 0 }

one_open-Reach : Reach toy empty_table one_open
unfolding filealloc first_index
one_open-Reach = next here (alloc 0 one_open.files refl)

no_refs : (j : ℕ) → refs empty_table.files j ≡ 0
no_refs zero = refl
no_refs (suc zero) = refl
no_refs (suc (suc j)) = refl

references_counted_example :
    (refs one_open.files 0 ≡ 1)
    × (filedup 0 one_open.files ≢ none)
    × (fileclose toy 0 one_open.files 0 ≢ none)
    × ((j : ℕ) (fs : List File) → filealloc one_open.files ≡ some (j, fs) → j ≢ 0)
references_counted_example = references_counted toy 0 no_refs refl one_open-Reach refl

write_chunks-Written_example :
    (j : ℕ) × (g : File) × (t : ℕ) × (write_chunks toy 5000 9 5000 0 (file 1) 4000 ≡ some (j, g, t))
    × Written toy 9 5000 0 (file 1) 4000 j g t
write_chunks-Written_example =
    write_chunks-Written toy 5000 9 5000 0 (file 1) 4000 (omega arith) (omega arith)

-- The last close of a file clears it.
test_close : fileclose toy 0 one_open.files 0 ≡ some (file 0 ∷ file 0 ∷ [], 0)
unfolding fileclose close_object
test_close = refl

-- A short write is an error, and so is a negative count.
abbrev inode_file : File
inode_file = record (file 1) { kind = fd_inode }

test_write :
    (filewrite toy 9 (pos 2500) inode_file 2000
      ≡ some (minus_one, record inode_file { off = 2000 }, 0))
    × (filewrite toy 9 (pos 1500) inode_file 2000
        ≡ some (pos 1500, record inode_file { off = 1500 }, 500))
    × (fileread toy 9 minus_one inode_file 0 ≡ some (minus_one, inode_file, 0))
unfolding filewrite fileread write_kind read_kind write_chunks
test_write = (refl, refl, refl)
