-- ===== src/Console.antt =====
-- kernel/console.c: the input of the console, a circular buffer with three wrapping indices.
--
-- `consoleintr` is what happens under `cons.lock` for one character, with what it sends to the UART and
-- whether it wakes the readers. The list that `procdump` prints is left out.
pub mod Edit
mod Tests
use os_design_practice.Prelude.{
  Bool, List, [], false, get_or, if◌then◌else◌, ltb, not, set, suc, true, zero, ℕ, ◌%◌, ◌&&◌, ◌++◌,
  ◌+◌, ◌-◌, ◌==◌, ◌^◌, ◌||◌, ◌∷◌,
}

abbrev pub input_buf_size : ℕ
input_buf_size = 128

abbrev pub backspace : ℕ
backspace = 256

-- `C(x)` for an upper-case letter
abbrev pub control : ℕ → ℕ
control x = x - 64

pub record Console : Type 0 where
  pub buf : List ℕ
  pub r : ℕ  -- uint
  pub w : ℕ  -- uint
  pub e : ℕ  -- uint

-- `a - b` of two uints
abbrev pub minus : ℕ → ℕ → ℕ
minus a b = (a + (2 ^ 32 - b)) % 2 ^ 32

pub consputc : ℕ → List ℕ
consputc c = if c == backspace then 8 ∷ 32 ∷ 8 ∷ [] else c ∷ []

-- Erase the last character, if there is one that is not yet in a line.
pub erase : Console → Console × List ℕ
unfolding consputc
erase k = if k.e == k.w then (k, []) else (record k { e = minus k.e 1 }, consputc backspace)

-- The loop that kills a line, with fuel; it ends by itself when the line is empty.
pub kill_line : ℕ → Console → Console × List ℕ
unfolding erase
kill_line zero k = (k, [])
kill_line (suc fuel) k =
    let (k', out) = erase k in
    let (k'', rest) = kill_line fuel k' in
    if k.e == k.w || get_or k.buf (minus k.e 1 % input_buf_size) 0 == 10
    then (k, [])
    else (k'', out ++ rest)

-- A character is stored; whether the readers are woken comes last.
pub store : ℕ → Console → Console × Bool
store c k =
    let k' = record k { buf = set k.buf (k.e % input_buf_size) c; e = (k.e + 1) % 2 ^ 32 } in
    if c == 10 || c == control 68 || minus k'.e k.r == input_buf_size
    then (record k' { w = k'.e }, true)
    else (k', false)

abbrev pub newline : ℕ → ℕ
newline c = if c == 13 then 10 else c

pub consoleintr : ℕ → Console → Console × List ℕ × Bool
unfolding consputc kill_line erase store
consoleintr c k =
    if c == control 80
    then (k, [], false)
    else if c == control 85
    then (let (k', out) = kill_line input_buf_size k in (k', out, false))
    else if c == control 72 || c == 127
    then (let (k', out) = erase k in (k', out, false))
    else if not (c == 0) && ltb (minus k.e k.r) input_buf_size
    then (let (k', woken) = store (newline c) k in (k', consputc (newline c), woken))
    else (k, [], false)

-- What the loop of `consoleread` comes to: it has read so many bytes, or waits after so many.
pub data Read : Type 0 where
  finished : ℕ → Console → Read
  waits : ℕ → Console → Read

-- The loop with `n` bytes left, `i` read; `copyout i c` tells whether `c` could be stored at
-- `dst + i`. A byte that could not is taken all the same, and an end of file is left for the next call
-- unless it comes first.
pub read_loop : (ℕ → ℕ → Bool) → ℕ → ℕ → Console → Read
read_loop copyout zero i k = finished i k
read_loop copyout (suc n) i k =
    let c = get_or k.buf (k.r % input_buf_size) 0 in
    let k' = record k { r = (k.r + 1) % 2 ^ 32 } in
    let rest = read_loop copyout n (i + 1) k' in
    if k.r == k.w
    then waits i k
    else if c == control 68
    then finished i (if ltb 0 i then k else k')
    else if not (copyout i c)
    then finished i k'
    else if c == 10
    then finished (i + 1) k'
    else rest
