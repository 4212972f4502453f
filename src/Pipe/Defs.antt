-- ===== src/Pipe/Defs.antt =====
-- `struct pipe` and its functions in mp4/kernel/pipe.c. The counters are `uint`s and wrap. A call
-- is modelled up to where it sleeps; the lock and the wake-ups are left out. What `copyin` reads from
-- the caller is a list, with `none` where the address is not mapped; what `copyout` answers is a list
-- of Booleans.
use spring_os_mp.Prelude.{
  ℕ, ◌+◌, ◌%◌, ◌^◌, Bool, true, false, Option, some, none, List, [], ◌∷◌, get_or, set, not, ◌==◌,
  ◌&&◌, ◌||◌, if◌then◌else◌,
}

abbrev pub pipe_size : ℕ
pipe_size = 512

abbrev pub uint_mod : ℕ
uint_mod = 2 ^ 32

pub record Pipe : Type 0 where
  pub buf : List ℕ
  pub nread : ℕ
  pub nwrite : ℕ
  pub readopen : Bool
  pub writeopen : Bool

-- The fields that `pipealloc` sets, on a fresh page whose bytes are `junk`.
unfoldable pub pipealloc : List ℕ → Pipe
pipealloc junk = record { buf = junk; nread = 0; nwrite = 0; readopen = true; writeopen = true }

-- `pipeclose`: the pipe, and whether its page is freed.
unfoldable pub pipeclose : Pipe → Bool → Pipe × Bool
pipeclose pi writable =
    let pi' : Pipe =
      if writable then record pi { writeopen = false } else record pi { readopen = false } in
    (pi', not pi'.readopen && not pi'.writeopen)

abbrev pub is_full : Pipe → Bool
is_full pi = pi.nwrite == (pi.nread + pipe_size) % uint_mod

abbrev pub is_empty : Pipe → Bool
is_empty pi = pi.nread == pi.nwrite

-- `pi->data[pi->nwrite++ % PIPESIZE] = ch`
unfoldable pub put_byte : Pipe → ℕ → Pipe
put_byte pi ch = record pi {
  buf = set pi.buf (pi.nwrite % pipe_size) ch;
  nwrite = (pi.nwrite + 1) % uint_mod;
}

-- `pi->data[pi->nread++ % PIPESIZE]`
unfoldable pub take_byte : Pipe → ℕ × Pipe
take_byte pi =
    (get_or pi.buf (pi.nread % pipe_size) 0, record pi { nread = (pi.nread + 1) % uint_mod })

-- How a call ends: with its return value, with -1, or asleep after `i` bytes.
pub data Transfer : Type 0 where
  done : ℕ → Pipe → Transfer
  failed : Pipe → Transfer
  asleep : ℕ → Pipe → Transfer

-- The loop of `pipewrite` from byte `i` on.
unfoldable pub write_from : Bool → Pipe → List (Option ℕ) → ℕ → Transfer
unfolding put_byte
write_from killed pi [] i = done i pi
write_from killed pi (none ∷ src) i =
    if is_full pi then if not pi.readopen || killed then failed pi else asleep i pi else done i pi
write_from killed pi (some ch ∷ src) i =
    let rest = write_from killed (put_byte pi ch) src (i + 1) in
    if is_full pi then if not pi.readopen || killed then failed pi else asleep i pi else rest

unfoldable pub pipewrite : Bool → Pipe → List (Option ℕ) → Transfer
unfolding write_from
pipewrite killed pi src = write_from killed pi src 0

-- The loop of `piperead` from byte `i` on, with the bytes that reach the caller.
unfoldable pub read_from : Pipe → List Bool → ℕ → List ℕ × ℕ × Pipe
unfolding take_byte
read_from pi [] i = ([], i, pi)
read_from pi (false ∷ oks) i = if is_empty pi then ([], i, pi) else ([], i, (take_byte pi).1)
read_from pi (true ∷ oks) i =
    let rest = read_from (take_byte pi).1 oks (i + 1) in
    if is_empty pi then ([], i, pi) else ((take_byte pi).0 ∷ rest.0, rest.1, rest.2)

-- `piperead`: the bytes that it copies out, and how it ends.
unfoldable pub piperead : Bool → Pipe → List Bool → List ℕ × Transfer
unfolding read_from
piperead killed pi oks =
    if is_empty pi && pi.writeopen
    then if killed then ([], failed pi) else ([], asleep 0 pi)
    else let (bytes, i, pi') = read_from pi oks 0 in (bytes, done i pi')
