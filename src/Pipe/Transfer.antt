-- ===== src/Pipe/Transfer.antt =====
-- What `pipewrite` and `piperead` move between the caller and the queue of a pipe.
use spring_os_mp.Prelude.{
  ℕ, suc, ◌+◌, Bool, true, false, Option, some, none, List, [], ◌∷◌, ◌++◌, map, ◌≡◌, refl, ap, ◌∙◌,
  length, arith, not, ◌||◌, inl, inr, Bool-cases, if◌then◌else◌, ◌&&◌, subst,
}
use spring_os_mp.Pipe.Defs.{
  Pipe, Transfer, write_from, pipewrite, read_from, piperead, is_full, is_empty, put_byte,
  take_byte,
}
use spring_os_mp.Pipe.Queue.{IsValid, contents, put_byte-contents, take_byte-contents}
use spring_os_mp.Prelude.{get_elem?}
use spring_os_mp.Prelude.{take}
use spring_os_mp.Prelude.{replicate}

-- The source is at its end or at an address that is not mapped.
abbrev pub IsUnreadable : List (Option ℕ) → Type 0
IsUnreadable [] = Unit
IsUnreadable (none ∷ src) = Unit
IsUnreadable (some ch ∷ src) = ⊥

-- The bytes in front of `rest` are what was added to the queue `c`.
abbrev pub Added : List ℕ → List (Option ℕ) → List ℕ → List (Option ℕ) → Pipe → Type 0
Added c src bytes rest q = (src ≡ map some bytes ++ rest) × (contents q ≡ c ++ bytes) × IsValid q

-- What a write that has come to byte `i` of its source, with the queue at `c`, may end in.
abbrev pub WriteOutcome : Bool → List ℕ → List (Option ℕ) → ℕ → Transfer → Type 0
WriteOutcome killed c src i (Transfer.done j q) =
    (bytes : List ℕ) × (rest : List (Option ℕ)) × Added c src bytes rest q
    × (j ≡ i + length bytes)
    × IsUnreadable rest
WriteOutcome killed c src i (Transfer.failed q) =
    (bytes : List ℕ) × (rest : List (Option ℕ)) × Added c src bytes rest q
    × (is_full q ≡ true)
    × ((not q.readopen || killed) ≡ true)
WriteOutcome killed c src i (Transfer.asleep j q) =
    (bytes : List ℕ) × (rest : List (Option ℕ)) × Added c src bytes rest q
    × (j ≡ i + length bytes)
    × (is_full q ≡ true)
    × ((not q.readopen || killed) ≡ false)

append-one : (c bytes : List ℕ) (ch : ℕ) → (c ++ ch ∷ []) ++ bytes ≡ c ++ ch ∷ bytes
append-one [] bytes ch = refl
append-one (x ∷ c) bytes ch = ap (λ l. x ∷ l) (append-one c bytes ch)

append_nil : (c : List ℕ) → c ≡ c ++ []
append_nil [] = refl
append_nil (x ∷ c) = ap (λ l. x ∷ l) (append_nil c)

Added-more :
    (c : List ℕ) (ch : ℕ) (src : List (Option ℕ)) (bytes : List ℕ) (rest : List (Option ℕ))
    (q : Pipe)
    → Added (c ++ ch ∷ []) src bytes rest q
    → Added c (some ch ∷ src) (ch ∷ bytes) rest q
Added-more c ch src bytes rest q h = (ap (λ l. some ch ∷ l) h.0, h.1 ∙ append-one c bytes ch, h.2)

WriteOutcome-more :
    (killed : Bool) (c : List ℕ) (ch : ℕ) (src : List (Option ℕ)) (i : ℕ) (t : Transfer)
    → WriteOutcome killed (c ++ ch ∷ []) src (i + 1) t
    → WriteOutcome killed c (some ch ∷ src) i t
WriteOutcome-more killed c ch src i (Transfer.done j q) (bytes, rest, a, n, e) =
    (ch ∷ bytes, rest, Added-more c ch src bytes rest q a, omega arith, e)
WriteOutcome-more killed c ch src i (Transfer.failed q) (bytes, rest, a, e, g) =
    (ch ∷ bytes, rest, Added-more c ch src bytes rest q a, e, g)
WriteOutcome-more killed c ch src i (Transfer.asleep j q) (bytes, rest, a, n, e, g) =
    (ch ∷ bytes, rest, Added-more c ch src bytes rest q a, omega arith, e, g)

Added-none : (pi : Pipe) (src : List (Option ℕ)) → IsValid pi → Added (contents pi) src [] src pi
Added-none pi src v = (refl, append_nil (contents pi), v)

-- A write that meets a full pipe.
blocked :
    (killed : Bool) (pi : Pipe) (src : List (Option ℕ)) (i : ℕ)
    → IsValid pi
    → is_full pi ≡ true
    → WriteOutcome killed
        (contents pi)
        src
        i
        (if not pi.readopen || killed then Transfer.failed pi else Transfer.asleep i pi)
blocked killed pi src i v full = elim (Bool-cases (not pi.readopen || killed)) [
  | inl gone ↦ simp gone ([], src, Added-none pi src v, full, refl)
  | inr stays ↦ simp stays ([], src, Added-none pi src v, omega arith, full, refl)
]

write_from-WriteOutcome :
    (killed : Bool) (pi : Pipe) (src : List (Option ℕ)) (i : ℕ)
    → IsValid pi
    → WriteOutcome killed (contents pi) src i (write_from killed pi src i)
unfolding write_from
write_from-WriteOutcome killed pi [] i v = ([], [], Added-none pi [] v, omega arith, tt)
write_from-WriteOutcome killed pi (none ∷ src) i v = elim (Bool-cases (is_full pi)) [
  | inl full ↦ simp full (blocked killed pi (none ∷ src) i v full)
  | inr room ↦ simp room ([], none ∷ src, Added-none pi (none ∷ src) v, omega arith, tt)
]
write_from-WriteOutcome killed pi (some ch ∷ src) i v = elim (Bool-cases (is_full pi)) [
  | inl full ↦ simp full (blocked killed pi (some ch ∷ src) i v full)
  | inr room ↦
      let (put, ok) = put_byte-contents pi ch v room in
      let rest : WriteOutcome killed (contents pi ++ ch ∷ []) src (i + 1)
          (write_from killed (put_byte pi ch) src (i + 1)) =
        subst
          (λ c. WriteOutcome killed c src (i + 1) (write_from killed (put_byte pi ch) src (i + 1)))
          put (write_from-WriteOutcome killed (put_byte pi ch) src (i + 1) ok) in
      simp room (
        WriteOutcome-more killed (contents pi) ch src i
          (write_from killed (put_byte pi ch) src (i + 1)) rest)
]

-- For every valid pipe and source, `pipewrite` appends to the queue exactly the source's bytes in
-- front of the point where it stops, and the pipe stays valid. It returns their number at the end of
-- the source or at an address that is not mapped; it fails only where the pipe is full and its reader
-- is gone or the caller killed; it sleeps only where the pipe is full and neither is the case.
pub pipewrite-WriteOutcome :
    (killed : Bool) (pi : Pipe) (src : List (Option ℕ))
    → IsValid pi
    → WriteOutcome killed (contents pi) src 0 (pipewrite killed pi src)
unfolding pipewrite
pipewrite-WriteOutcome killed pi src v = write_from-WriteOutcome killed pi src 0 v

-- Why the loop of `piperead` stops, and the byte it loses where `copyout` fails.
pub data Stop (oks : List Bool) (bytes : List ℕ) (q : Pipe) : List ℕ → Type 0 where
  filled : length bytes ≡ length oks → Stop oks bytes q []
  drained : is_empty q ≡ true → Stop oks bytes q []
  fault : (ch : ℕ) → get_elem? oks (length bytes) ≡ some false → Stop oks bytes q (ch ∷ [])

-- What a read of the queue `c` gives: its first bytes, in order, each at an address that is mapped, at
-- most one lost byte, and what is left in the pipe.
pub record ReadOutcome (c : List ℕ) (oks : List Bool) (i : ℕ) (r : List ℕ × ℕ × Pipe) : Type 0 where
  pub lost : List ℕ
  pub split : c ≡ r.0 ++ lost ++ contents r.2
  pub valid : IsValid r.2
  pub number : r.1 ≡ i + length r.0
  pub mapped : take (length r.0) oks ≡ replicate (length r.0) true
  pub stop : Stop oks r.0 r.2 lost

Stop-more :
    (ok : Bool) (oks : List Bool) (ch : ℕ) (bytes : List ℕ) (q : Pipe) (lost : List ℕ)
    → Stop oks bytes q lost
    → Stop (ok ∷ oks) (ch ∷ bytes) q lost
Stop-more ok oks ch bytes q _ (Stop.filled e) = Stop.filled (ap suc e)
Stop-more ok oks ch bytes q _ (Stop.drained e) = Stop.drained e
Stop-more ok oks ch bytes q _ (Stop.fault c e) = Stop.fault c e

drained-ReadOutcome :
    (pi : Pipe) (oks : List Bool) (i : ℕ)
    → IsValid pi
    → is_empty pi ≡ true
    → ReadOutcome (contents pi) oks i ([], i, pi)
drained-ReadOutcome pi oks i v e = record {
  lost = [];
  split = refl;
  valid = v;
  number = omega arith;
  mapped = refl;
  stop = Stop.drained e;
}

read_from-ReadOutcome :
    (pi : Pipe) (oks : List Bool) (i : ℕ)
    → IsValid pi
    → ReadOutcome (contents pi) oks i (read_from pi oks i)
unfolding read_from
read_from-ReadOutcome pi [] i v = record {
  lost = [];
  split = refl;
  valid = v;
  number = omega arith;
  mapped = refl;
  stop = Stop.filled refl;
}
read_from-ReadOutcome pi (false ∷ oks) i v = elim (Bool-cases (is_empty pi)) [
  | inl e ↦ simp e (drained-ReadOutcome pi (false ∷ oks) i v e)
  | inr n ↦
      let (front, ok) = take_byte-contents pi v n in
      let outcome : ReadOutcome (contents pi) (false ∷ oks) i ([], i, (take_byte pi).1) = record {
        lost = (take_byte pi).0 ∷ [];
        split = front;
        valid = ok;
        number = omega arith;
        mapped = refl;
        stop = Stop.fault (take_byte pi).0 refl;
      } in
      simp n outcome
]
read_from-ReadOutcome pi (true ∷ oks) i v = elim (Bool-cases (is_empty pi)) [
  | inl e ↦ simp e (drained-ReadOutcome pi (true ∷ oks) i v e)
  | inr n ↦
      let (front, ok) = take_byte-contents pi v n in
      let r : List ℕ × ℕ × Pipe = read_from (take_byte pi).1 oks (i + 1) in
      let h : ReadOutcome (contents (take_byte pi).1) oks (i + 1) r =
        read_from-ReadOutcome (take_byte pi).1 oks (i + 1) ok in
      let outcome : ReadOutcome (contents pi) (true ∷ oks) i ((take_byte pi).0 ∷ r.0, r.1, r.2) =
        record {
          lost = h.lost;
          split = front ∙ ap (λ l. (take_byte pi).0 ∷ l) h.split;
          valid = h.valid;
          number = h.number ∙ add_suc i (length r.0);
          mapped = ap (λ l. true ∷ l) h.mapped;
          stop = Stop-more true oks (take_byte pi).0 r.0 r.2 h.lost h.stop;
        } in
      simp n outcome
]
  where
    add_suc : (a b : ℕ) → a + 1 + b ≡ a + suc b
    add_suc a b = omega arith

both : {a b : Bool} → (a && b) ≡ true → (a ≡ true) × (b ≡ true)
both {a = true} {b = true} h = (refl, refl)
both {a = true} {b = false} h = cc
both {a = false} {b} h = cc

-- What a call of `piperead` may end in.
abbrev pub CallOutcome : Bool → Pipe → List Bool → List ℕ × Transfer → Type 0
CallOutcome killed pi oks (bytes, Transfer.done j q) = ReadOutcome (contents pi) oks 0 (bytes, j, q)
CallOutcome killed pi oks (bytes, Transfer.failed q) =
    (bytes ≡ []) × (q ≡ pi) × (killed ≡ true) × (is_empty pi ≡ true) × (pi.writeopen ≡ true)
CallOutcome killed pi oks (bytes, Transfer.asleep j q) =
    (bytes ≡ []) × (q ≡ pi) × (killed ≡ false) × (is_empty pi ≡ true) × (pi.writeopen ≡ true)

-- For every valid pipe, `piperead` copies out the first bytes of the queue in order and returns their
-- number: as many as asked, or until the pipe is empty, or up to the first address that is not mapped,
-- where the next byte is taken from the pipe and lost. All bytes that it copies out go to mapped
-- addresses. It fails or sleeps, with the pipe as it was, only
-- where the pipe is empty and open for writing, and fails exactly then if the caller is killed.
pub piperead-CallOutcome :
    (killed : Bool) (pi : Pipe) (oks : List Bool)
    → IsValid pi
    → CallOutcome killed pi oks (piperead killed pi oks)
unfolding piperead
piperead-CallOutcome killed pi oks v = elim (Bool-cases (is_empty pi && pi.writeopen)) [
  | inr go ↦ simp go (read_from-ReadOutcome pi oks 0 v)
  | inl wait ↦ elim (Bool-cases killed) [
    | inl k ↦ simp k (simp wait (refl, refl, refl, (both wait).0, (both wait).1))
    | inr k ↦ simp k (simp wait (refl, refl, refl, (both wait).0, (both wait).1))
  ]
]
