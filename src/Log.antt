-- ===== src/Log.antt =====
-- kernel/log.c: the write-ahead log of the file system.
--
-- The disk is its log header, the blocks of the log, and the home locations of all other blocks; what
-- a block holds is any type. A commit is a sequence of disk writes, so that a crash can be a prefix of
-- it. `cache` is what `bread` returns for a block that the transaction has pinned in the buffer cache.
pub mod Crash
pub mod Cover
pub mod Space
pub mod Transaction
mod Tests
use os_design_practice.Prelude.{
  Bool, List, Option, [], false, if◌then◌else◌, leb, length, ltb, none, some, suc, true, update, ℕ,
  ◌%◌, ◌*◌, ◌++◌, ◌+◌, ◌-◌, ◌==◌, ◌^◌, ◌||◌, ◌∷◌,
}

abbrev pub maxopblocks : ℕ
maxopblocks = 10

abbrev pub logblocks : ℕ
logblocks = 30

-- `struct log`; `blocks` is `lh.block[0..lh.n)`.
pub record Log : Type 0 where
  pub blocks : List ℕ
  pub outstanding : ℕ  -- an int, as its 32 bits
  pub committing : Bool
  pub ncommit : ℕ

-- One iteration of `begin_op`: `none` means that the caller sleeps and tries again when it is woken.
pub begin_op : Log → Option Log
begin_op l =
    if l.committing
    then none
    else if ltb logblocks (length l.blocks + (l.outstanding + 1) * maxopblocks)
    then none
    else some (record l { outstanding = l.outstanding + 1 })

-- `none` is a panic. The second component tells whether the caller has to commit.
pub end_op : Log → Option (Log × Bool)
end_op l =
    let rest = (l.outstanding + (2 ^ 32 - 1)) % 2 ^ 32 in
    if l.committing
    then none
    else if rest == 0
    then some (record l { outstanding = rest; committing = true }, true)
    else some (record l { outstanding = rest }, false)

-- After `commit()`, which has set `lh.n` to 0.
pub end_commit : Log → Log
end_commit l = record l { blocks = []; committing = false; ncommit = l.ncommit + 1 }

-- The loop of `log_write` and the store after it: the block is found, or goes to the end.
pub absorb : ℕ → List ℕ → List ℕ
absorb b [] = b ∷ []
absorb b (x ∷ xs) = let rest = absorb b xs in if x == b then b ∷ xs else x ∷ rest

-- `none` is a panic.
pub log_write : ℕ → Log → Option Log
unfolding absorb
log_write b l =
    if leb logblocks (length l.blocks)
    then none
    else if ltb l.outstanding 1
    then none
    else some (record l { blocks = absorb b l.blocks })

-- `sys_sync` returns at once if nothing is outstanding, and otherwise when a commit has ended.
pub sync_target : Log → ℕ
sync_target l = if l.committing || ltb 0 l.outstanding then l.ncommit + 1 else l.ncommit

pub sync_done : ℕ → Log → Bool
sync_done target l = leb target l.ncommit

pub record Disk (B : Type 0) : Type 0 where
  pub header : List ℕ
  pub logged : ℕ → B  -- the block at `start + tail + 1`
  pub home : ℕ → B

-- A write of one disk block. `to_log` copies a cached block to the log, `install` a log block to its
-- home location, and `head` writes the header.
pub data Write : Type 0 where
  to_log : (tail block : ℕ) → Write
  head : List ℕ → Write
  install : (tail block : ℕ) → Write

-- The loop of `write_log`, over the entries of the header from `tail` on.
pub write_log : ℕ → List ℕ → List Write
write_log tail [] = []
write_log tail (b ∷ bs) = to_log tail b ∷ write_log (suc tail) bs

-- The loop of `install_trans`.
pub install_trans : ℕ → List ℕ → List Write
install_trans tail [] = []
install_trans tail (b ∷ bs) = install tail b ∷ install_trans (suc tail) bs

-- `write_log`, `write_head`, `install_trans`, and `write_head` with an empty header.
abbrev pub commit_writes : List ℕ → List Write
commit_writes bs = write_log 0 bs ++ (head bs ∷ (install_trans 0 bs ++ head [] ∷ []))

pub commit : List ℕ → List Write
commit [] = []
commit (b ∷ bs) = commit_writes (b ∷ bs)

module _ {B : Type 0} where
  pub write : (ℕ → B) → Disk B → Write → Disk B
  write cache d (to_log tail b) = record d { logged = update d.logged tail (cache b) }
  write cache d (head bs) = record d { header = bs }
  write cache d (install tail b) = record d { home = update d.home b (d.logged tail) }

  pub run : (ℕ → B) → List Write → Disk B → Disk B
  unfolding write
  run cache [] d = d
  run cache (w ∷ ws) d = run cache ws (write cache d w)

  -- The writes of `recover_from_log`, which reads the header from the disk.
  abbrev pub recover_writes : Disk B → List Write
  recover_writes d = install_trans 0 d.header ++ head [] ∷ []

  -- It uses no cached block: none is pinned after a crash.
  pub recover_from_log : (ℕ → B) → Disk B → Disk B
  recover_from_log cache d = run cache (recover_writes d) d
