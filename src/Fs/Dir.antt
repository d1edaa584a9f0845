-- ===== src/Fs/Dir.antt =====
-- Directories, of kernel/fs.c: `dirlookup` and `dirlink`.
--
-- A name is a map from offsets to bytes, of which 14 at most count. Loops over a directory run on its size
-- as fuel: each round does 16 bytes.
pub mod Entries
pub mod Taken
pub mod Lookup
use os_design_practice.Prelude.{
  Bool, List, Option, [], false, get_elem?, get_or, if◌then◌else◌, leb, ltb, minus_one, modify,
  negsuc, none, pos, some, suc, true, zero, ℕ, ℤ, ◌%◌, ◌*◌, ◌+◌, ◌-◌, ◌/◌, ◌==◌, ◌^◌, ◌||◌, ◌∷◌,
}
use os_design_practice.Fs.{Super, Disk, Block}
use os_design_practice.Fs.Inode.{Inode, User, readi, writei}
use os_design_practice.Fs.Path.{dirsiz}
use os_design_practice.Fs.Table.{Entry, Outcome, panics, sleeps, done, iget, iput}

abbrev pub t_dir : ℕ
t_dir = 1

pub record Dirent : Type 0 where
  pub inum : ℕ
  pub name : ℕ → ℕ

-- `sizeof(de)`
abbrev pub dirent_size : ℕ
dirent_size = 16

-- `strncmp(s, t, DIRSIZ) == 0`, from the offset `i` on, with `k` bytes to go.
pub same_from : (ℕ → ℕ) → (ℕ → ℕ) → ℕ → ℕ → Bool
same_from s t i zero = true
same_from s t i (suc k) =
    let rest = same_from s t (i + 1) k in
    if s i == t i then (if s i == 0 then true else rest) else false

pub namecmp : (ℕ → ℕ) → (ℕ → ℕ) → Bool
unfolding same_from
namecmp s t = same_from s t 0 dirsiz

-- `either_copyin` and `either_copyout` for an address in the kernel, whose memory is given.
abbrev pub kernel : (ℕ → ℕ) → User
kernel mem = record {
  copyin =
      λ bp o src m. (true, λ i. if ltb i o || leb (o + m) i then bp i else mem (src + (i - o)));
  copyout = λ a m. true;
}

abbrev pub to_dirent : List ℕ → Dirent
to_dirent bytes = record {
  inum = get_or bytes 0 0 + 256 * get_or bytes 1 0;
  name = λ i. get_or bytes (2 + i) 0;
}

-- `if(readi(...) != sizeof(de)) panic(...)`
abbrev pub check_read : Option (ℤ × List ℕ × Inode × Disk) → Outcome (Dirent × Inode × Disk)
check_read none = panics
check_read (some (negsuc k, bytes, dp, d)) = panics
check_read (some (pos k, bytes, dp, d)) =
    if k == dirent_size then done (to_dirent bytes, dp, d) else panics

pub read_dirent : Super → Inode → ℕ → Disk → Outcome (Dirent × Inode × Disk)
read_dirent sb dp off d = check_read (readi (kernel (λ a. 0)) sb dp 0 off dirent_size d)

-- The loop of `dirlookup`: the number of the inode, and where the entry is.
pub look_from : Super → (ℕ → ℕ) → ℕ → ℕ → Inode → Disk → Outcome (Option (ℕ × ℕ) × Inode × Disk)
unfolding read_dirent namecmp
look_from sb name zero off dp d = done (none, dp, d)
look_from sb name (suc fuel) off dp d =
    if ltb off dp.size
    then elim (read_dirent sb dp off d) [
      | panics ↦ panics
      | sleeps ↦ sleeps
      | done (de, dp', d') ↦
          let rest = look_from sb name fuel ((off + dirent_size) % 2 ^ 32) dp' d' in
          if de.inum == 0
          then rest
          else if namecmp name de.name
          then done (some (de.inum, off), dp', d')
          else rest
    ]
    else done (none, dp, d)

-- The entry of the table, and where the entry of the directory is; the table, the directory, and the disk.
pub dirlookup :
    Super
    → (ℕ → ℕ)
    → List Entry
    → Inode
    → Disk
    → Outcome (Option (ℕ × ℕ) × List Entry × Inode × Disk)
unfolding look_from
dirlookup sb name t dp d =
    if dp.kind == t_dir
    then elim (look_from sb name dp.size 0 dp d) [
      | panics ↦ panics
      | sleeps ↦ sleeps
      | done (none, dp', d') ↦ done (none, t, dp', d')
      | done (some (inum, off), dp', d') ↦ elim (iget dp'.dev inum t) [
        | none ↦ panics
        | some (i, t') ↦ done (some (i, off), t', dp', d')
      ]
    ]
    else panics

-- The loop of `dirlink`: where the first empty entry is, or the end.
pub empty_from : Super → ℕ → ℕ → Inode → Disk → Outcome (ℕ × Inode × Disk)
empty_from sb zero off dp d = done (off, dp, d)
empty_from sb (suc fuel) off dp d =
    if ltb off dp.size
    then elim (read_dirent sb dp off d) [
      | panics ↦ panics
      | sleeps ↦ sleeps
      | done (de, dp', d') ↦
          let rest = empty_from sb fuel (off + dirent_size) dp' d' in
          if de.inum == 0 then done (off, dp', d') else rest
    ]
    else done (off, dp, d)

-- `strncpy(de.name, name, DIRSIZ)`
abbrev pub padded : (ℕ → ℕ) → ℕ → ℕ → Bool → List ℕ
padded f i zero over = []
padded f i (suc k) true = 0 ∷ padded f i k true
padded f i (suc k) false = f i ∷ padded f (i + 1) k (f i == 0)

abbrev pub dirent_bytes : (ℕ → ℕ) → ℕ → List ℕ
dirent_bytes name inum = inum % 256 ∷ inum / 256 % 256 ∷ padded name 0 dirsiz false

-- `if(writei(...) != sizeof(de)) return -1; return 0`
abbrev pub check_write : Option (ℤ × Inode × Disk) → Outcome (ℤ × Inode × Disk)
check_write none = panics
check_write (some (negsuc k, dp, d)) = done (minus_one, dp, d)
check_write (some (pos k, dp, d)) =
    if k == dirent_size then done (pos 0, dp, d) else done (minus_one, dp, d)

abbrev pub add_entry : Super → (ℕ → ℕ) → ℕ → Inode → Disk → Outcome (ℤ × Inode × Disk)
unfolding empty_from
add_entry sb name inum dp d = elim (empty_from sb dp.size 0 dp d) [
  | panics ↦ panics
  | sleeps ↦ sleeps
  | done (off, dp', d') ↦
      check_write
        (writei (kernel (λ a. get_or (dirent_bytes name inum) a 0)) sb dp' 0 off dirent_size d')
]

-- Put the entry at `i` of the table.
abbrev pub put_at : Super → ℕ → ℕ → List Entry → Disk → Outcome (List Entry × Disk)
put_at sb me i t d = elim (get_elem? t i) [
  | none ↦ panics
  | some e ↦ elim (iput sb me d e) [
    | panics ↦ panics
    | sleeps ↦ sleeps
    | done (e', d') ↦ done (modify t i (λ x. e'), d')
  ]
]

-- The result, the table, the directory and the disk.
pub dirlink :
    Super → ℕ → (ℕ → ℕ) → ℕ → List Entry → Inode → Disk → Outcome (ℤ × List Entry × Inode × Disk)
unfolding dirlookup
dirlink sb me name inum t dp d = elim (dirlookup sb name t dp d) [
  | panics ↦ panics
  | sleeps ↦ sleeps
  | done (some (i, off), t', dp', d') ↦ elim (put_at sb me i t' d') [
    | panics ↦ panics
    | sleeps ↦ sleeps
    | done (t'', d'') ↦ done (minus_one, t'', dp', d'')
  ]
  | done (none, t', dp', d') ↦ elim (add_entry sb name inum dp' d') [
    | panics ↦ panics
    | sleeps ↦ sleeps
    | done (r, dp'', d'') ↦ done (r, t', dp'', d'')
  ]
]
