-- ===== src/Pipe/Ring.antt =====
-- A pipe of kernel/pipe.c as a queue of bytes: the counters may wrap, the order is kept.
use os_design_practice.Prelude.{
  ==_iff, List, [], ap, ap₂, arith, false, get_or, get_or-set_ne, get_or-set_self, length,
  length-set, ne_of_test, refl, set, suc, sym, true, zero, ℕ, ◌%◌, ◌++◌, ◌+◌, ◌-◌, ◌<◌, ◌^◌, ◌↔◌,
  ◌∙◌, ◌∷◌, ◌≡◌, ◌≢◌, ◌≤◌,
}
use os_design_practice.Pipe.{Pipe, pipesize, pipe_init, is_full, is_empty, put, front, drop_front}

-- The bytes written and not read.
abbrev pub count : Pipe → ℕ
count pi = (pi.nwrite + 2 ^ 32 - pi.nread) % 2 ^ 32

pub record IsValid (pi : Pipe) : Type 0 where
  pub room : length pi.bytes ≡ pipesize
  pub read_word : pi.nread < 2 ^ 32
  pub write_word : pi.nwrite < 2 ^ 32
  pub bounded : count pi ≤ pipesize

-- The `n` bytes from counter `r` on.
abbrev pub window : List ℕ → ℕ → ℕ → List ℕ
window bytes r zero = []
window bytes r (suc n) = get_or bytes (r % pipesize) 0 ∷ window bytes ((r + 1) % 2 ^ 32) n

-- The bytes in the pipe, oldest first.
abbrev pub contents : Pipe → List ℕ
contents pi = window pi.bytes pi.nread (count pi)

length-window : (bytes : List ℕ) (r n : ℕ) → length (window bytes r n) ≡ n
length-window bytes r zero = refl
length-window bytes r (suc n) = ap suc (length-window bytes ((r + 1) % 2 ^ 32) n)

pub length-contents : (pi : Pipe) → length (contents pi) ≡ count pi
length-contents pi = length-window pi.bytes pi.nread (count pi)

-- Writing just past a window of fewer than 512 bytes extends it.
window-set :
    (bytes : List ℕ) (x n r w : ℕ)
    → length bytes ≡ pipesize
    → r < 2 ^ 32
    → n < pipesize
    → w ≡ (r + n) % 2 ^ 32
    → window (set bytes (w % pipesize) x) r (suc n) ≡ window bytes r n ++ x ∷ []
window-set bytes x zero r w len hr hn e =
    let e' : w ≡ r = omega arith in
    rw e' (ap (λ b. b ∷ []) (get_or-set_self bytes (r % pipesize) x 0 (omega arith)))
window-set bytes x (suc n) r w len hr hn e =
    ap₂ ◌∷◌ (get_or-set_ne bytes (w % pipesize) (r % pipesize) x 0 (omega arith))
      (window-set bytes x n ((r + 1) % 2 ^ 32) w len (omega arith) (omega arith) (omega arith))

window-front :
    (bytes : List ℕ) (r n : ℕ)
    → n ≢ 0
    → window bytes r n ≡ get_or bytes (r % pipesize) 0 ∷ window bytes ((r + 1) % 2 ^ 32) (n - 1)
window-front bytes r zero h = absurd (h refl)
window-front bytes r (suc n) h = ap (λ k. window bytes r (suc k)) (omega arith)

pub pipe_init-IsValid :
    (page : List ℕ)
    → length page ≡ pipesize
    → IsValid (pipe_init page) × (contents (pipe_init page) ≡ [])
unfolding pipe_init
pipe_init-IsValid page h = (omega arith, refl)

-- The test `nwrite == nread + PIPESIZE` tells when 512 bytes are in the pipe, and `nread == nwrite`
-- when none are, however often the counters have wrapped.
pub tests_count :
    (pi : Pipe)
    → IsValid pi
    → ((is_full pi ≡ true) ↔ (length (contents pi) ≡ pipesize))
      × ((is_empty pi ≡ true) ↔ (contents pi ≡ []))
unfolding is_full is_empty
tests_count pi v = (
  (
    λ h. omega (arith, length-contents pi, (==_iff _ _).0 h),
    λ h. (==_iff _ _).1 (omega (arith, length-contents pi)),
  ),
  (
    λ h. let z : count pi ≡ 0 = omega (arith, (==_iff _ _).0 h) in ap (window pi.bytes pi.nread) z,
    λ h. (==_iff _ _).1 (omega (arith, length-contents pi, ap length h)),
  ),
)

-- A byte put into a pipe that is not full goes to the end, and the invariant is kept.
pub put_refines :
    (ch : ℕ) (pi : Pipe)
    → IsValid pi
    → is_full pi ≡ false
    → IsValid (put ch pi) × (contents (put ch pi) ≡ contents pi ++ ch ∷ [])
unfolding put is_full
put_refines ch pi v h =
    let free : count pi < pipesize =
      omega (arith, v.read_word, v.write_word, v.bounded, ne_of_test _ _ h) in
    let more : (((pi.nwrite + 1) % 2 ^ 32) + 2 ^ 32 - pi.nread) % 2 ^ 32 ≡ suc (count pi) =
      omega (arith, v.read_word, v.write_word) in
    (
      record {
        room = length-set pi.bytes (pi.nwrite % pipesize) ch ∙ v.room;
        read_word = v.read_word;
        write_word = omega arith;
        bounded = omega arith;
      },
      ap (window (set pi.bytes (pi.nwrite % pipesize) ch) pi.nread) more
          ∙ window-set pi.bytes ch (count pi) pi.nread pi.nwrite v.room v.read_word free
              (omega (arith, v.read_word, v.write_word)),
    )

-- The byte in front is the oldest, and dropping it leaves the others.
pub drop_front_refines :
    (pi : Pipe)
    → IsValid pi
    → is_empty pi ≡ false
    → IsValid (drop_front pi) × (contents pi ≡ front pi ∷ contents (drop_front pi))
unfolding drop_front front is_empty
drop_front_refines pi v h =
    let some' : count pi ≢ 0 = omega (arith, v.read_word, v.write_word, ne_of_test _ _ h) in
    let less : (pi.nwrite + 2 ^ 32 - (pi.nread + 1) % 2 ^ 32) % 2 ^ 32 ≡ count pi - 1 =
      omega (arith, v.read_word, v.write_word) in
    (
      record {
        room = v.room;
        read_word = omega arith;
        write_word = v.write_word;
        bounded = omega (arith, v.bounded);
      },
      window-front pi.bytes pi.nread (count pi) some'
          ∙ ap
              (λ n.
                get_or pi.bytes (pi.nread % pipesize) 0
                ∷ window pi.bytes ((pi.nread + 1) % 2 ^ 32) n)
              (sym less),
    )
