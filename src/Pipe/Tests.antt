-- ===== src/Pipe/Tests.antt =====
-- Pipes on concrete bytes, next to the point where the counters wrap.
use spring_os_mp.Prelude.{
  ℕ, some, none, List, [], ◌∷◌, ◌≡◌, refl, true, false, ◌-◌, replicate, length-replicate, arith,
}
use spring_os_mp.Pipe.Defs.{
  Pipe, Transfer, pipewrite, piperead, pipe_size, uint_mod, put_byte, pipealloc, pipeclose,
}
use spring_os_mp.Pipe.Queue.{IsValid, contents, put_byte-contents}
use spring_os_mp.Pipe.Transfer.{
  WriteOutcome, CallOutcome, pipewrite-WriteOutcome, piperead-CallOutcome,
}

abbrev wrapping : Pipe
wrapping = record {
  buf = replicate pipe_size 7;
  nread = uint_mod - 1;
  nwrite = uint_mod - 1;
  readopen = true;
  writeopen = true;
}

wrapping-IsValid : IsValid wrapping
wrapping-IsValid = record {
  storage = length-replicate {A = ℕ} pipe_size 7;
  read_fits = omega arith;
  write_fits = omega arith;
  bounded = omega arith;
}

after : Transfer → List ℕ
after (Transfer.done j q) = contents q
after (Transfer.failed q) = []
after (Transfer.asleep j q) = contents q

two_written : after (pipewrite false wrapping (some 1 ∷ some 2 ∷ none ∷ [])) ≡ 1 ∷ 2 ∷ []
unfolding after pipewrite
two_written = refl

put_byte-contents_example :
    (contents (put_byte wrapping 5) ≡ 5 ∷ []) × IsValid (put_byte wrapping 5)
put_byte-contents_example = put_byte-contents wrapping 5 wrapping-IsValid refl

pipewrite-WriteOutcome_example :
    WriteOutcome false
      (contents wrapping)
      (some 1 ∷ some 2 ∷ none ∷ [])
      0
      (pipewrite false wrapping (some 1 ∷ some 2 ∷ none ∷ []))
pipewrite-WriteOutcome_example =
    pipewrite-WriteOutcome false wrapping (some 1 ∷ some 2 ∷ none ∷ []) wrapping-IsValid

piperead-CallOutcome_example :
    CallOutcome false
      (put_byte wrapping 5)
      (true ∷ true ∷ [])
      (piperead false (put_byte wrapping 5) (true ∷ true ∷ []))
piperead-CallOutcome_example =
    piperead-CallOutcome false (put_byte wrapping 5) (true ∷ true ∷ [])
      (put_byte-contents wrapping 5 wrapping-IsValid refl).1

both_closed : (pipeclose (pipeclose (pipealloc []) true).0 false).1 ≡ true
unfolding pipealloc pipeclose
both_closed = refl
