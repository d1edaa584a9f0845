-- ===== src/Buffer.antt =====
-- kernel/bio.c and kernel/sleeplock.c: the buffer cache.
--
-- The circular list of buffers is a list, from `head.next` (the most recently used) to `head.prev`; a
-- buffer is known by its place in `bcache.buf`. What a block holds is any type, and the disk driver's
-- read a parameter. Each operation is what happens under `bcache.lock`.
pub mod Cached
pub mod Recycle
mod Tests
use os_design_practice.Prelude.{
  Bool, List, Option, [], false, first_index, get_elem?, if◌then◌else◌, modify, none, remove, some,
  suc, true, zero, ℕ, ◌%◌, ◌&&◌, ◌+◌, ◌-◌, ◌==◌, ◌^◌, ◌∷◌,
}

abbrev pub nbuf : ℕ
nbuf = 30

pub record SleepLock : Type 0 where
  pub locked : Bool
  pub pid : ℕ

pub initsleeplock : SleepLock
initsleeplock = record { locked = false; pid = 0 }

-- One iteration of the loop; `none` means that the caller sleeps.
unfoldable pub acquiresleep : ℕ → SleepLock → Option SleepLock
acquiresleep me lk = if lk.locked then none else some (record { locked = true; pid = me })

unfoldable pub releasesleep : SleepLock → SleepLock
releasesleep lk = record { locked = false; pid = 0 }

unfoldable pub holdingsleep : ℕ → SleepLock → Bool
holdingsleep me lk = lk.locked && lk.pid == me

-- `struct buf`; the links are the order of the list.
pub record Buf (B : Type 0) : Type 0 where
  pub place : ℕ
  pub valid : Bool
  pub dev : ℕ
  pub blockno : ℕ
  pub lock : SleepLock
  pub refcnt : ℕ  -- uint
  pub content : B  -- `data`

-- The loop from `head.prev`; the one from `head.next` is `first_index`.
pub last_index : {A : Type 0} → (A → Bool) → List A → Option ℕ
last_index test [] = none
last_index test (x ∷ xs) = elim (last_index test xs) [
  | none ↦ if test x then some 0 else none
  | some i ↦ some (suc i)
]

-- Unlink the buffer at `i`, and link it behind the head.
pub to_front : {A : Type 0} → ℕ → List A → List A
to_front i xs = elim (get_elem? xs i) [ none ↦ xs | some x ↦ x ∷ remove xs i ]

module _ {B : Type 0} where
  -- `binit`, on the zeroed array: each buffer is linked in front of those before it.
  pub binit : B → ℕ → List (Buf B)
  unfolding initsleeplock
  binit zeros zero = []
  binit zeros (suc n) =
      record {
        place = n;
        valid = false;
        dev = 0;
        blockno = 0;
        lock = initsleeplock;
        refcnt = 0;
        content = zeros;
      }
      ∷ binit zeros n

  abbrev pub holds : ℕ → ℕ → Buf B → Bool
  holds dev blockno b = b.dev == dev && b.blockno == blockno

  abbrev pub is_free : Buf B → Bool
  is_free b = b.refcnt == 0

  -- `refcnt++`, and `refcnt--`
  abbrev pub retain : Buf B → Buf B
  retain b = record b { refcnt = (b.refcnt + 1) % 2 ^ 32 }

  abbrev pub drop_ref : Buf B → Buf B
  drop_ref b = record b { refcnt = (b.refcnt + (2 ^ 32 - 1)) % 2 ^ 32 }

  abbrev pub recycle : ℕ → ℕ → Buf B → Buf B
  recycle dev blockno b = record b { dev = dev; blockno = blockno; valid = false; refcnt = 1 }

  -- `bget`, up to `acquiresleep`: where the buffer is, and the cache. `none` is a panic.
  unfoldable pub bget : ℕ → ℕ → List (Buf B) → Option (ℕ × List (Buf B))
  bget dev blockno bs = elim (first_index (holds dev blockno) bs) [
    | some i ↦ some (i, modify bs i retain)
    | none ↦ elim (last_index is_free bs) [
      | some i ↦ some (i, modify bs i (recycle dev blockno))
      | none ↦ none
    ]
  ]

  -- `bread` on the locked buffer, with the disk as `virtio_disk_rw` reads it.
  pub fill : (ℕ → ℕ → B) → Buf B → Buf B
  fill disk b = if b.valid then b else record b { content = disk b.dev b.blockno; valid = true }

  abbrev pub unlock : Buf B → Buf B
  unfolding releasesleep
  unlock b = record b { lock = releasesleep b.lock }

  -- Under the lock in `brelse`, on the buffer at `i`.
  pub let_go : ℕ → List (Buf B) → List (Buf B)
  let_go i bs =
      let bs' = modify bs i drop_ref in
      elim (get_elem? bs' i) [ none ↦ bs' | some b ↦ if is_free b then to_front i bs' else bs' ]

  -- `none` is a panic.
  pub brelse : ℕ → ℕ → List (Buf B) → Option (List (Buf B))
  brelse me i bs = elim (get_elem? bs i) [
    | none ↦ none
    | some b ↦ if holdingsleep me b.lock then some (let_go i (modify bs i unlock)) else none
  ]

  pub bpin : ℕ → List (Buf B) → List (Buf B)
  bpin i bs = modify bs i retain

  pub bunpin : ℕ → List (Buf B) → List (Buf B)
  bunpin i bs = modify bs i drop_ref
