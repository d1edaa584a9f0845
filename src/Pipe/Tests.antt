-- ===== src/Pipe/Tests.antt =====
-- kernel/pipe.c at concrete inputs: a pipe whose counters are about to wrap.
use os_design_practice.Prelude.{
  Option, [], arith, false, if◌then◌else◌, ltb, minus_one, none, not, pos, refl, replicate, some,
  true, ℕ, ◌++◌, ◌+◌, ◌-◌, ◌^◌, ◌∷◌, ◌≡◌,
}
use os_design_practice.Pipe.{
  Pipe, is_full, is_empty, put, front, drop_front, write_loop, pipeclose, pipewrite, pipewrite_from,
  piperead, must_wait, readers, pipe_init,
}
use os_design_practice.Pipe.Ring.{IsValid, contents, put_refines, drop_front_refines}

-- One byte, 7, at index 511; the next goes to index 0.
abbrev wrapping : Pipe
wrapping = record {
  bytes = replicate 511 0 ++ 7 ∷ [];
  nread = 2 ^ 32 - 1;
  nwrite = 0;
  readopen = true;
  writeopen = true;
}

wrapping-IsValid : IsValid wrapping
wrapping-IsValid = record {
  room = refl;
  read_word = omega arith;
  write_word = omega arith;
  bounded = omega arith;
}

put_refines_example :
    IsValid (put 9 wrapping) × (contents (put 9 wrapping) ≡ contents wrapping ++ 9 ∷ [])
unfolding is_full
put_refines_example = put_refines 9 wrapping wrapping-IsValid refl

drop_front_refines_example :
    IsValid (drop_front wrapping)
    × (contents wrapping ≡ front wrapping ∷ contents (drop_front wrapping))
unfolding is_empty
drop_front_refines_example = drop_front_refines wrapping wrapping-IsValid refl

abbrev user_bytes : ℕ → Option ℕ
user_bytes i = if ltb i 2 then some (i + 40) else none

test_close :
    pipeclose true wrapping
    ≡ (readers, not wrapping.readopen, record wrapping { writeopen = false })
unfolding pipeclose
test_close = refl

-- The copy of the third byte fails.
test_pipewrite :
    pipewrite user_bytes (λ i. false) 3 [] (pipe_init (0 ∷ []))
    ≡ some (pos 2, put 41 (put 40 (pipe_init (0 ∷ []))))
unfolding pipewrite pipewrite_from write_loop is_full put pipe_init
test_pipewrite = refl

-- An empty pipe with a writer blocks, and a killed reader returns.
test_piperead :
    (piperead (λ i ch. true) false 5 [] (pipe_init []) ≡ none)
    × (piperead (λ i ch. true) true 5 [] (pipe_init []) ≡ some (minus_one, [], pipe_init []))
unfolding piperead must_wait is_empty pipe_init
test_piperead = (refl, refl)
