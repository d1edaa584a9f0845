-- ===== src/Console/Tests.antt =====
-- Concrete runs of kernel/console.c.
use os_design_practice.Prelude.{[], arith, false, refl, replicate, true, ◌++◌, ◌-◌, ◌^◌, ◌∷◌, ◌≡◌}
use os_design_practice.Console.{
  Console, consoleintr, store, erase, kill_line, consputc, finished, waits, read_loop,
}
use os_design_practice.Console.Edit.{IsValid, Kept, consoleintr-Kept}

-- The indices are about to wrap: a line of two characters waits, and one character is being edited.
abbrev typing : Console
typing = record { buf = 65 ∷ replicate 125 0 ++ (66 ∷ 10 ∷ []); r = 2 ^ 32 - 2; w = 0; e = 1 }

typing-IsValid : IsValid typing
typing-IsValid = record {
  sized = refl;
  r_bound = omega arith;
  w_bound = omega arith;
  e_bound = omega arith;
  ordered = omega arith;
  fits = omega arith;
}

-- Ctrl-U.
consoleintr-Kept_example : Kept typing (consoleintr 21 typing).0
consoleintr-Kept_example = consoleintr-Kept 21 typing typing-IsValid

test_kill : consoleintr 21 typing ≡ (record typing { e = 0 }, 8 ∷ 32 ∷ 8 ∷ [], false)
unfolding consoleintr kill_line erase consputc
test_kill = refl

-- Return ends the line and wakes the readers.
test_return : consoleintr 13 typing ≡ (
  record typing { buf = 65 ∷ 10 ∷ replicate 124 0 ++ (66 ∷ 10 ∷ []); w = 2; e = 2 },
  10 ∷ [],
  true,
)
unfolding consoleintr store consputc
test_return = refl

-- A read takes one line, and the next one waits.
test_read :
    (read_loop (λ i c. true) 9 0 typing ≡ finished 2 (record typing { r = 0 }))
    × (read_loop (λ i c. true) 9 0 (record typing { r = 0 }) ≡ waits 0 (record typing { r = 0 }))
unfolding read_loop
test_read = (refl, refl)
