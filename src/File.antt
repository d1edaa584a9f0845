-- ===== src/File.antt =====
-- kernel/file.c: the table of open files.
--
-- What pipes, devices and inodes do stands in `Layers`. Each operation on the table is what happens
-- under `ftable.lock`.
pub mod Counts
pub mod Chunks
mod Tests
use os_design_practice.Prelude.{
  Bool, List, Option, false, first_index, get_elem?, if◌then◌else◌, leb, ltb, minus_one, modify,
  negsuc, none, not, pos, some, suc, zero, ℕ, ℤ, ◌%◌, ◌*◌, ◌+◌, ◌-◌, ◌/◌, ◌==◌, ◌^◌,
}

abbrev pub nfile : ℕ
nfile = 100

abbrev pub ndev : ℕ
ndev = 10

pub data FileType : Type 0 where
  fd_none : FileType
  fd_pipe : FileType
  fd_inode : FileType
  fd_device : FileType

-- `struct file`
pub record File : Type 0 where
  pub kind : FileType  -- `type`
  pub ref : ℕ
  pub readable : Bool
  pub writable : Bool
  pub pipe : ℕ
  pub ip : ℕ
  pub off : ℕ  -- uint
  pub major : ℤ

-- The operations below, on a state of their own. A `none` of a device is a missing entry of `devsw`.
-- Those on inodes include `ilock` and `iunlock`, and those that write or free `begin_op` and `end_op`.
pub record Layers : Type 1 where
  pub State : Type 0
  pub pipeclose : ℕ → Bool → State → State
  pub piperead : ℕ → ℕ → ℕ → State → ℤ × State
  pub pipewrite : ℕ → ℕ → ℕ → State → ℤ × State
  pub device_read : ℕ → Option (ℕ → ℕ → State → ℤ × State)
  pub device_write : ℕ → Option (ℕ → ℕ → State → ℤ × State)
  pub readi : ℕ → ℕ → ℕ → ℕ → State → ℤ × State  -- inode, address, offset, count
  pub writei : ℕ → ℕ → ℕ → ℕ → State → ℤ × State
  pub iput : ℕ → State → State

abbrev pub is_unused : File → Bool
is_unused f = f.ref == 0

pub filealloc : List File → Option (ℕ × List File)
filealloc fs = elim (first_index is_unused fs) [
  | none ↦ none
  | some i ↦ some (i, modify fs i (λ f. record f { ref = 1 }))
]

-- `none` is a panic.
pub filedup : ℕ → List File → Option (List File)
filedup i fs = elim (get_elem? fs i) [
  | none ↦ none
  | some f ↦ if ltb f.ref 1 then none else some (modify fs i (λ g. record g { ref = g.ref + 1 }))
]

-- `if (r > 0) f->off += r`
abbrev pub advance : ℤ → File → File
advance (pos r) f = record f { off = (f.off + r) % 2 ^ 32 }
advance (negsuc r) f = f

-- The major device number, where `devsw` can have it.
abbrev pub device_number : ℤ → Option ℕ
device_number (pos m) = if leb ndev m then none else some m
device_number (negsuc m) = none

-- `((MAXOPBLOCKS - 1 - 1 - 2) / 2) * BSIZE`
abbrev pub bsize : ℕ
bsize = 1024

abbrev pub max_chunk : ℕ
max_chunk = (10 - 1 - 1 - 2) / 2 * bsize

-- `r == n1`
abbrev pub is_count : ℤ → ℕ → Bool
is_count (pos r) n = r == n
is_count (negsuc r) n = false

-- `n1`
abbrev pub chunk : ℕ → ℕ → ℕ
chunk n i = if ltb max_chunk (n - i) then max_chunk else n - i

module _ (L : Layers) where
  open L use {State, pipeclose, piperead, pipewrite, device_read, device_write, readi, writei, iput}

  -- What closing the last reference does to the object.
  pub close_object : File → State → State
  close_object f s = elim f.kind [
    | fd_none ↦ s
    | fd_pipe ↦ pipeclose f.pipe f.writable s
    | fd_inode ↦ iput f.ip s
    | fd_device ↦ iput f.ip s
  ]

  -- `none` is a panic.
  pub fileclose : ℕ → List File → State → Option (List File × State)
  fileclose i fs s = elim (get_elem? fs i) [
    | none ↦ none
    | some f ↦
        if ltb f.ref 1
        then none
        else if ltb 0 (f.ref - 1)
        then some (modify fs i (λ g. record g { ref = g.ref - 1 }), s)
        else some (modify fs i (λ g. record g { ref = 0; kind = fd_none }), close_object f s)
  ]

  -- `fileread` of `n` bytes, once `n < 0` and a file that is not readable are refused; the file and
  -- the state after it. `none` is a panic.
  pub read_kind : ℕ → ℕ → File → State → Option (ℤ × File × State)
  read_kind addr n f s = elim f.kind [
    | fd_none ↦ none
    | fd_pipe ↦ let (r, s') = piperead f.pipe addr n s in some (r, f, s')
    | fd_inode ↦ let (r, s') = readi f.ip addr f.off n s in some (r, advance r f, s')
    | fd_device ↦ elim (device_number f.major) [
      | none ↦ some (minus_one, f, s)
      | some m ↦ elim (device_read m) [
        | none ↦ some (minus_one, f, s)
        | some g ↦ let (r, s') = g addr n s in some (r, f, s')
      ]
    ]
  ]

  pub fileread : ℕ → ℤ → File → State → Option (ℤ × File × State)
  fileread addr (pos n) f s =
      if not f.readable then some (minus_one, f, s) else read_kind addr n f s
  fileread addr (negsuc n) f s = some (minus_one, f, s)

  -- The loop of `filewrite`, with what is left of its fuel; `none` is out of fuel.
  pub write_chunks : ℕ → ℕ → ℕ → ℕ → File → State → Option (ℕ × File × State)
  write_chunks zero addr n i f s = if leb n i then some (i, f, s) else none
  write_chunks (suc fuel) addr n i f s =
      let (r, s') = writei f.ip (addr + i) f.off (chunk n i) s in
      let rest = write_chunks fuel addr n (i + chunk n i) (advance r f) s' in
      if leb n i
      then some (i, f, s)
      else if is_count r (chunk n i)
      then rest
      else some (i, advance r f, s')

  -- As `read_kind`; `n` is fuel enough for the loop.
  pub write_kind : ℕ → ℕ → File → State → Option (ℤ × File × State)
  write_kind addr n f s = elim f.kind [
    | fd_none ↦ none
    | fd_pipe ↦ let (r, s') = pipewrite f.pipe addr n s in some (r, f, s')
    | fd_inode ↦ elim (write_chunks n addr n 0 f s) [
      | none ↦ none
      | some (i, f', s') ↦ some ((if i == n then pos n else minus_one), f', s')
    ]
    | fd_device ↦ elim (device_number f.major) [
      | none ↦ some (minus_one, f, s)
      | some m ↦ elim (device_write m) [
        | none ↦ some (minus_one, f, s)
        | some g ↦ let (r, s') = g addr n s in some (r, f, s')
      ]
    ]
  ]

  pub filewrite : ℕ → ℤ → File → State → Option (ℤ × File × State)
  filewrite addr (pos n) f s =
      if not f.writable then some (minus_one, f, s) else write_kind addr n f s
  filewrite addr (negsuc n) f s = some (minus_one, f, s)
