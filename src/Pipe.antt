-- ===== src/Pipe.antt =====
-- kernel/pipe.c: a pipe, a ring of 512 bytes with two free-running 32-bit counters.
--
-- A call holds the pipe's lock from one sleep to the next, so it is a function on the pipe, and others
-- act on the pipe where it sleeps. The user's memory is a function from addresses (kernel/vm.c), with
-- `none` for a failed copy.
pub mod Ring
pub mod Transfer
mod Tests
use os_design_practice.Prelude.{
  Bool, List, Option, [], false, get_or, if◌then◌else◌, minus_one, none, not, pos, set, some, suc,
  true, zero, ℕ, ℤ, ◌%◌, ◌&&◌, ◌+◌, ◌-◌, ◌==◌, ◌^◌, ◌||◌, ◌∷◌,
}

abbrev pub pipesize : ℕ
pipesize = 512

-- `struct pipe`, less its lock
pub record Pipe : Type 0 where
  pub bytes : List ℕ  -- `data`
  pub nread : ℕ  -- uint
  pub nwrite : ℕ  -- uint
  pub readopen : Bool
  pub writeopen : Bool

-- What `pipealloc` puts into a fresh page.
pub pipe_init : List ℕ → Pipe
pipe_init page = record { bytes = page; nread = 0; nwrite = 0; readopen = true; writeopen = true }

-- The first component tells that the page is freed. Which side is woken: the readers or the writers.
pub data Side : Type 0 where
  readers writers : Side

pub pipeclose : Bool → Pipe → Side × Bool × Pipe
pipeclose writable pi =
    let pi' =
      if writable then record pi { writeopen = false } else record pi { readopen = false } in
    (if writable then readers else writers, not pi'.readopen && not pi'.writeopen, pi')

-- `pi->nwrite == pi->nread + PIPESIZE`, in unsigned arithmetic
unfoldable pub is_full : Pipe → Bool
is_full pi = pi.nwrite == (pi.nread + pipesize) % 2 ^ 32

unfoldable pub is_empty : Pipe → Bool
is_empty pi = pi.nread == pi.nwrite

-- `pi->data[pi->nwrite++ % PIPESIZE] = ch`
pub put : ℕ → Pipe → Pipe
put ch pi = record pi {
  bytes = set pi.bytes (pi.nwrite % pipesize) ch;
  nwrite = (pi.nwrite + 1) % 2 ^ 32;
}

-- `pi->data[pi->nread % PIPESIZE]`
pub front : Pipe → ℕ
front pi = get_or pi.bytes (pi.nread % pipesize) 0

-- `pi->nread++`
pub drop_front : Pipe → Pipe
drop_front pi = record pi { nread = (pi.nread + 1) % 2 ^ 32 }

-- A call returns, and has woken the readers or not; or it wakes the readers and sleeps: it has moved `i`
-- bytes and goes on from there when it is woken.
pub data Progress : Type 0 where
  returned : ℤ → Bool → Pipe → Progress
  sleeps : ℕ → Pipe → Progress

-- `if (i == 0) i = -1`
abbrev pub count_or_error : ℕ → ℤ
count_or_error zero = minus_one
count_or_error (suc i) = pos (suc i)

-- The `while` of `pipewrite` with `k` bytes left, `i` written; `copyin i` is the byte at `addr + i`, and
-- `killed i` what `killed(pr)` gives when `i` bytes are written: others may kill the caller meanwhile.
pub write_loop : (ℕ → Option ℕ) → (ℕ → Bool) → ℕ → ℕ → Pipe → Progress
unfolding is_full put
write_loop copyin killed zero i pi = returned (pos i) true pi
write_loop copyin killed (suc k) i pi =
    let next : Progress = elim (copyin i) [
      | none ↦ returned (count_or_error i) true pi
      | some ch ↦ write_loop copyin killed k (i + 1) (put ch pi)
    ] in
    if not pi.readopen || killed i
    then returned minus_one false pi
    else if is_full pi
    then sleeps i pi
    else next

-- A whole call: each of `others` is what happens to the pipe during one sleep, and what `killed(pr)` gives
-- after it. `none` means that the call has not returned after these.
pub pipewrite_from :
    (ℕ → Option ℕ)
    → (ℕ → Bool)
    → ℕ
    → ℕ
    → List ((Pipe → Pipe) × (ℕ → Bool))
    → Pipe
    → Option (ℤ × Pipe)
pipewrite_from copyin killed n i [] pi = elim (write_loop copyin killed (n - i) i pi) [
  | returned z woken pi' ↦ some (z, pi')
  | sleeps j pi' ↦ none
]
pipewrite_from copyin killed n i ((o, killed') ∷ others) pi =
    elim (write_loop copyin killed (n - i) i pi) [
      | returned z woken pi' ↦ some (z, pi')
      | sleeps j pi' ↦ pipewrite_from copyin killed' n j others (o pi')
    ]

pub pipewrite :
    (ℕ → Option ℕ) → (ℕ → Bool) → ℕ → List ((Pipe → Pipe) × (ℕ → Bool)) → Pipe → Option (ℤ × Pipe)
pipewrite copyin killed n others pi = pipewrite_from copyin killed n 0 others pi

-- The `for` of `piperead` with `k` bytes left, `i` read; `copyout i ch` tells whether `ch` could be
-- stored at `addr + i`. The bytes stored are returned too. It ends with a wakeup of the writers always.
pub read_loop : (ℕ → ℕ → Bool) → ℕ → ℕ → Pipe → ℤ × List ℕ × Pipe
unfolding is_empty front drop_front
read_loop copyout zero i pi = (pos i, [], pi)
read_loop copyout (suc k) i pi =
    let next : ℤ × List ℕ × Pipe =
      let (z, out, pi') = read_loop copyout k (i + 1) (drop_front pi) in (z, front pi ∷ out, pi') in
    if is_empty pi
    then (pos i, [], pi)
    else if copyout i (front pi)
    then next
    else (count_or_error i, [], pi)

-- Whether the `while` of `piperead` goes on waiting.
pub must_wait : Pipe → Bool
unfolding is_empty
must_wait pi = is_empty pi && pi.writeopen

pub piperead : (ℕ → ℕ → Bool) → Bool → ℕ → List (Pipe → Pipe) → Pipe → Option (ℤ × List ℕ × Pipe)
unfolding must_wait read_loop
piperead copyout killed n [] pi =
    if must_wait pi
    then if killed then some (minus_one, [], pi) else none
    else some (read_loop copyout n 0 pi)
piperead copyout killed n (o ∷ others) pi =
    let rest = piperead copyout killed n others (o pi) in
    if must_wait pi
    then if killed then some (minus_one, [], pi) else rest
    else some (read_loop copyout n 0 pi)
