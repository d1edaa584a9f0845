-- ===== src/Buffer/Tests.antt =====
-- Concrete runs of the buffer cache of kernel/bio.c.
use os_design_practice.Prelude.{
  List, [], arith, false, first_index, modify, none, refl, some, true, ℕ, ◌∷◌, ◌≡◌, ◌≤◌,
}
use os_design_practice.Buffer.{
  Buf, nbuf, last_index, to_front, binit, initsleeplock, acquiresleep, holdingsleep, releasesleep,
  unlock, bget, let_go, brelse, recycle,
}
use os_design_practice.Buffer.Cached.{copies, get, lock, release, Reach, here, next, cached_once}
use os_design_practice.Buffer.Recycle.{BgetOutcome, bget-Outcome}

abbrev buffer : ℕ → ℕ → ℕ → Buf ℕ
buffer place blockno refcnt = record {
  place = place;
  valid = true;
  dev = 1;
  blockno = blockno;
  lock = record { locked = false; pid = 0 };
  refcnt = refcnt;
  content = blockno;
}

-- The fresh cache after `bget(1, 33)`, the lock by process 4, and `brelse`.
abbrev fresh : List (Buf ℕ)
fresh = binit 0 nbuf

abbrev after_get : List (Buf ℕ)
after_get = modify fresh 29 (recycle 1 33)

abbrev after_lock : List (Buf ℕ)
after_lock = modify after_get 29 (λ b. record b { lock = record { locked = true; pid = 4 } })

abbrev after_release : List (Buf ℕ)
after_release = elim (brelse 4 29 after_lock) [ none ↦ [] | some bs ↦ bs ]

after_release-Reach : Reach fresh after_release
unfolding bget binit first_index last_index initsleeplock acquiresleep brelse holdingsleep
    releasesleep unlock let_go to_front
after_release-Reach =
    next (next (next here (get 1 33 29 after_get (omega arith) refl)) (lock 4 29 after_lock refl))
      (release 4 29 after_release refl)

cached_once_example : copies 1 33 after_release ≤ 1
cached_once_example = cached_once 0 1 33 after_release-Reach (omega arith)

bget-Outcome_example :
    BgetOutcome 1 7 (buffer 0 5 0 ∷ buffer 1 6 1 ∷ []) (bget 1 7 (buffer 0 5 0 ∷ buffer 1 6 1 ∷ []))
bget-Outcome_example = bget-Outcome 1 7 (buffer 0 5 0 ∷ buffer 1 6 1 ∷ [])

-- The last reference goes, and the buffer moves to the front.
abbrev held : Buf ℕ
held = record (buffer 2 8 1) { lock = record { locked = true; pid = 4 } }

test_brelse : brelse 4 1 (buffer 0 5 0 ∷ held ∷ []) ≡ some (buffer 2 8 0 ∷ buffer 0 5 0 ∷ [])
unfolding brelse holdingsleep let_go unlock releasesleep to_front
test_brelse = refl

-- Only the holder may release, and a held lock is not taken again.
test_lock :
    (brelse 3 0 (held ∷ []) ≡ none)
    × (acquiresleep 3 held.lock ≡ none)
    × (acquiresleep 3 (releasesleep held.lock) ≡ some (record { locked = true; pid = 3 }))
unfolding brelse holdingsleep acquiresleep releasesleep
test_lock = (refl, refl, refl)
