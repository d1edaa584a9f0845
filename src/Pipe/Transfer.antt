-- ===== src/Pipe/Transfer.antt =====
-- `pipewrite` and `piperead` of kernel/pipe.c move bytes through the queue in order.
use os_design_practice.Prelude.{
  Bool, List, Option, [], false, length, minus_one, none, pos, some, true, ℕ, ℤ, ◌++◌, ◌+◌, ◌<◌,
  ◌∷◌, ◌≡◌, ◌≢◌, ◌≤◌, ◌⊎◌,
}
use os_design_practice.Pipe.{Pipe, is_full, front, Progress, returned, sleeps, count_or_error}
use os_design_practice.Pipe.Ring.{IsValid, contents}

-- `out` are bytes of the user's memory from `addr + i` on.
abbrev pub Sent : (ℕ → Option ℕ) → ℕ → List ℕ → Type 0
Sent copyin i [] = Unit
Sent copyin i (x ∷ xs) = (copyin i ≡ some x) × Sent copyin (i + 1) xs

-- The caller is alive before each of these bytes.
abbrev pub Lives : (ℕ → Bool) → ℕ → List ℕ → Type 0
Lives killed i [] = Unit
Lives killed i (x ∷ xs) = (killed i ≡ false) × Lives killed (i + 1) xs

-- From `pi` the call has put the bytes `out` at the end of the queue, with the read side open and the caller
-- alive whenever it has put one.
pub record Wrote (copyin : ℕ → Option ℕ) (killed : ℕ → Bool) (i : ℕ) (pi pi' : Pipe) (out : List ℕ)
    : Type 0 where
  pub valid : IsValid pi'
  pub lives : Lives killed i out
  pub open_side : 0 < length out → pi.readopen ≡ true
  pub same_side : pi'.readopen ≡ pi.readopen
  pub queue : contents pi' ≡ contents pi ++ out
  pub sent : Sent copyin i out

-- What a run of the loop from byte `i` on, with `k` bytes left, has done.
pub data WriteOutcome (copyin : ℕ → Option ℕ) (killed : ℕ → Bool) (k i : ℕ) (pi : Pipe)
    : Progress → Type 0 where
  complete :
      (out : List ℕ) (pi' : Pipe)
      → Wrote copyin killed i pi pi' out
      → length out ≡ k
      → WriteOutcome copyin killed k i pi (returned (pos (i + length out)) true pi')
  bad_copy :
      (out : List ℕ) (pi' : Pipe)
      → Wrote copyin killed i pi pi' out
      → length out < k
      → pi.readopen ≡ true
      → killed (i + length out) ≡ false
      → is_full pi' ≡ false
      → copyin (i + length out) ≡ none
      → WriteOutcome copyin killed k i pi (returned (count_or_error (i + length out)) true pi')
  stopped :
      (out : List ℕ) (pi' : Pipe)
      → Wrote copyin killed i pi pi' out
      → length out < k
      → (pi.readopen ≡ false) ⊎ (killed (i + length out) ≡ true)
      → WriteOutcome copyin killed k i pi (returned minus_one false pi')
  full :
      (out : List ℕ) (pi' : Pipe)
      → Wrote copyin killed i pi pi' out
      → length out < k
      → pi.readopen ≡ true
      → killed (i + length out) ≡ false
      → is_full pi' ≡ true
      → WriteOutcome copyin killed k i pi (sleeps (i + length out) pi')

-- Each byte was stored at its address, from `addr + i` on.
abbrev pub Stored : (ℕ → ℕ → Bool) → ℕ → List ℕ → Type 0
Stored copyout i [] = Unit
Stored copyout i (x ∷ xs) = (copyout i x ≡ true) × Stored copyout (i + 1) xs

-- From `pi` the call has taken the bytes `out` from the front of the queue, and stored them.
pub record Read (copyout : ℕ → ℕ → Bool) (i : ℕ) (pi pi' : Pipe) (out : List ℕ) : Type 0 where
  pub valid : IsValid pi'
  pub stored : Stored copyout i out
  pub queue : contents pi ≡ out ++ contents pi'

abbrev pub ReadOutcome : (ℕ → ℕ → Bool) → ℕ → ℕ → Pipe → ℤ × List ℕ × Pipe → Type 0
ReadOutcome copyout k i pi (z, out, pi') =
    Read copyout i pi pi' out
    × (length out ≤ k)
    × ((z ≡ pos (i + length out))
          × ((length out ≡ k)
              ⊎ (contents pi' ≡ [])
              ⊎ (contents pi' ≢ []) × (copyout (i + length out) (front pi') ≡ false))
        ⊎ (z ≡ minus_one)
          × (i ≡ 0)
          × (out ≡ [])
          × (contents pi ≢ [])
          × (copyout 0 (front pi) ≡ false))
