-- ===== src/Log/Tests.antt =====
-- Concrete runs of the log of kernel/log.c.
use os_design_practice.Prelude.{
  List, [], arith, false, inr, length, none, refl, some, take, true, ℕ, ◌+◌, ◌<◌, ◌∷◌, ◌≡◌, ◌≢◌,
  ◌≤◌,
}
use os_design_practice.Log.{
  Log, Disk, begin_op, end_op, end_commit, log_write, absorb, sync_target, sync_done, run, commit,
  write_log, install_trans, recover_from_log,
}
use os_design_practice.Log.Transaction.{log_block, log_blocks, apply_writes, transaction_is_atomic}
use os_design_practice.Log.Space.{System, begin, write, Reach, here, next, fresh, no_panic}

abbrev zeros : ℕ → ℕ
zeros a = 0

abbrev clean_disk : Disk ℕ
clean_disk = record { header = []; logged = zeros; home = zeros }

abbrev one_op : Log
one_op = record { blocks = []; outstanding = 1; committing = false; ncommit = 0 }

abbrev two_blocks : Log
two_blocks = record { blocks = 33 ∷ 45 ∷ []; outstanding = 1; committing = false; ncommit = 0 }

-- Three writes to two blocks.
abbrev three_writes : List (ℕ × ℕ)
three_writes = (33, 7) ∷ (45, 8) ∷ (33, 9) ∷ []

abbrev written : Log × (ℕ → ℕ)
written = (two_blocks, apply_writes three_writes zeros)

-- A crash after the header and one of two blocks are written.
transaction_is_atomic_example :
    let after =
      (recover_from_log zeros
        (run (apply_writes three_writes zeros) (take 4 (commit (33 ∷ 45 ∷ []))) clean_disk)).home in
    (4 ≤ 2 → (a : ℕ) → after a ≡ 0)
    × (2 < 4 → (a : ℕ) → after a ≡ apply_writes three_writes zeros a)
unfolding log_blocks log_block log_write absorb
transaction_is_atomic_example =
    transaction_is_atomic zeros three_writes one_op clean_disk written 4 refl refl refl

-- One operation that has written one block.
abbrev one_write : System
one_write = record {
  log = record { blocks = 33 ∷ []; outstanding = 1; committing = false; ncommit = 0 };
  spent = (33 ∷ []) ∷ [];
}

one_write-Reach : Reach fresh one_write
unfolding begin_op log_write absorb
one_write-Reach =
    next (next here (begin one_op refl)) (write 0 33 [] one_write.log refl (inr (omega arith)) refl)

no_panic_example :
    (length one_write.log.blocks ≤ 30)
    × (end_op one_write.log ≢ none)
    × (1 < 10 → log_write 40 one_write.log ≢ none)
no_panic_example = no_panic 0 40 (33 ∷ []) one_write-Reach refl

-- The last operation to end commits.
test_end :
    end_op one_write.log
    ≡ some (record { blocks = 33 ∷ []; outstanding = 0; committing = true; ncommit = 0 }, true)
unfolding end_op
test_end = refl

-- A `sys_sync` during that commit waits for its end, and no longer.
test_sync :
    let busy = record one_write.log { outstanding = 0; committing = true } in
    (sync_done (sync_target busy) busy ≡ false)
    × (sync_done (sync_target busy) (end_commit busy) ≡ true)
unfolding sync_done sync_target end_commit
test_sync = (refl, refl)

-- The disk after a commit without a crash.
test_commit : (run (λ a. a + 1) (commit (33 ∷ 45 ∷ [])) clean_disk).home 45 ≡ 46
unfolding commit run write_log install_trans
test_commit = refl
