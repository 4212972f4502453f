-- ===== src/Pipe/Queue.antt =====
-- A pipe as the queue of the bytes in it. The counters may wrap: `PIPESIZE` divides their range.
use spring_os_mp.Prelude.{
  ℕ, zero, suc, ◌+◌, ◌-◌, ◌%◌, ◌≤◌, ◌<◌, false, List, [], ◌∷◌, ◌++◌, ◌≡◌, ◌≢◌, refl, sym, ap, ◌∙◌,
  length, length-set, get_or, set, arith, ◌==◌,
}
use mathlib.Core.Path.{ap₂}
use spring_os_mp.Pipe.Defs.{pipe_size, uint_mod, Pipe, put_byte, take_byte, is_full, is_empty}
use spring_os_mp.Prelude.{subst}

-- How many bytes are in the pipe.
abbrev pub count : Pipe → ℕ
count pi = (pi.nwrite + uint_mod - pi.nread) % uint_mod

-- The `n` bytes from counter `h` on.
abbrev pub window : List ℕ → ℕ → ℕ → List ℕ
window buf h zero = []
window buf h (suc n) = get_or buf (h % pipe_size) 0 ∷ window buf ((h + 1) % uint_mod) n

abbrev pub contents : Pipe → List ℕ
contents pi = window pi.buf pi.nread (count pi)

pub record IsValid (pi : Pipe) : Type 0 where
  pub storage : length pi.buf ≡ pipe_size
  pub read_fits : pi.nread < uint_mod
  pub write_fits : pi.nwrite < uint_mod
  pub bounded : count pi ≤ pipe_size

get_or-set_self : (xs : List ℕ) (i v : ℕ) → i < length xs → get_or (set xs i v) i 0 ≡ v
get_or-set_self [] i v h = absurd (omega arith)
get_or-set_self (x ∷ xs) zero v h = refl
get_or-set_self (x ∷ xs) (suc i) v h = get_or-set_self xs i v (omega arith)

get_or-set_ne : (xs : List ℕ) (i j v : ℕ) → i ≢ j → get_or (set xs i v) j 0 ≡ get_or xs j 0
get_or-set_ne [] i j v h = refl
get_or-set_ne (x ∷ xs) zero zero v h = absurd (h refl)
get_or-set_ne (x ∷ xs) zero (suc j) v h = refl
get_or-set_ne (x ∷ xs) (suc i) zero v h = refl
get_or-set_ne (x ∷ xs) (suc i) (suc j) v h = get_or-set_ne xs i j v (λ e. h (ap suc e))

-- Writing at the counter just past a window extends it by that byte.
window-set :
    (buf : List ℕ) (x n h w : ℕ)
    → length buf ≡ pipe_size
    → h < uint_mod
    → n < pipe_size
    → w ≡ (h + n) % uint_mod
    → window (set buf (w % pipe_size) x) h (suc n) ≡ window buf h n ++ x ∷ []
window-set buf x zero h w s lt k e =
    let same : w ≡ h = omega arith in
    rw same (ap (λ y. y ∷ []) (get_or-set_self buf (h % pipe_size) x (omega arith)))
window-set buf x (suc n) h w s lt k e =
    ap₂ ◌∷◌ (get_or-set_ne buf (w % pipe_size) (h % pipe_size) x (omega arith))
      (window-set buf x n ((h + 1) % uint_mod) w s (omega arith) (omega arith) (omega arith))

-- A window by its first byte, where the code tests for an empty pipe.
window_nonempty :
    (buf : List ℕ) (h n : ℕ)
    → n ≢ 0
    → window buf h n ≡ get_or buf (h % pipe_size) 0 ∷ window buf ((h + 1) % uint_mod) (n - 1)
window_nonempty buf h zero p = absurd (p refl)
window_nonempty buf h (suc n) p = ap (λ k. window buf h (suc k)) (omega arith)

below_full :
    (r w : ℕ)
    → r < uint_mod
    → w < uint_mod
    → (w + uint_mod - r) % uint_mod ≤ pipe_size
    → w ≢ (r + pipe_size) % uint_mod
    → (w + uint_mod - r) % uint_mod < pipe_size
below_full r w hr hw b ne = omega arith

write_at :
    (r w : ℕ) → r < uint_mod → w < uint_mod → w ≡ (r + (w + uint_mod - r) % uint_mod) % uint_mod
write_at r w hr hw = omega arith

count-put :
    (r w : ℕ)
    → r < uint_mod
    → w < uint_mod
    → (w + uint_mod - r) % uint_mod < pipe_size
    → ((w + 1) % uint_mod + uint_mod - r) % uint_mod ≡ suc ((w + uint_mod - r) % uint_mod)
count-put r w hr hw b = omega arith

count-take :
    (r w : ℕ)
    → r < uint_mod
    → w < uint_mod
    → r ≢ w
    → (w + uint_mod - (r + 1) % uint_mod) % uint_mod ≡ (w + uint_mod - r) % uint_mod - 1
count-take r w hr hw ne = omega arith

count-some : (r w : ℕ) → r < uint_mod → w < uint_mod → r ≢ w → (w + uint_mod - r) % uint_mod ≢ 0
count-some r w hr hw ne e = ne (omega arith)

ne_of-test : (a b : ℕ) → (a == b) ≡ false → a ≢ b
ne_of-test a b h e = ground arith

count-room : (pi : Pipe) → IsValid pi → is_full pi ≡ false → count pi < pipe_size
count-room pi v room =
    below_full pi.nread pi.nwrite v.read_fits v.write_fits v.bounded
      (ne_of-test pi.nwrite ((pi.nread + pipe_size) % uint_mod) room)

-- For every valid pipe that is not full, a byte written goes to the end of the queue, and the pipe
-- stays valid.
pub put_byte-contents :
    (pi : Pipe) (ch : ℕ)
    → IsValid pi
    → is_full pi ≡ false
    → (contents (put_byte pi ch) ≡ contents pi ++ ch ∷ []) × IsValid (put_byte pi ch)
unfolding put_byte
put_byte-contents pi ch v room =
    let fits : count pi < pipe_size = count-room pi v room in
    let w : pi.nwrite ≡ (pi.nread + count pi) % uint_mod =
      write_at pi.nread pi.nwrite v.read_fits v.write_fits in
    let one_more : ((pi.nwrite + 1) % uint_mod + uint_mod - pi.nread) % uint_mod ≡ suc (count pi) =
      count-put pi.nread pi.nwrite v.read_fits v.write_fits fits in
    (
      ap (window (set pi.buf (pi.nwrite % pipe_size) ch) pi.nread) one_more
          ∙ window-set pi.buf ch (count pi) pi.nread pi.nwrite v.storage v.read_fits fits w,
      record {
        storage = length-set pi.buf (pi.nwrite % pipe_size) ch ∙ v.storage;
        read_fits = v.read_fits;
        write_fits = omega arith;
        bounded = subst (λ c. c ≤ pipe_size) (sym one_more) (omega arith);
      },
    )

-- For every valid pipe that is not empty, the byte read is the first of the queue, the rest stays,
-- and the pipe stays valid.
pub take_byte-contents :
    (pi : Pipe)
    → IsValid pi
    → is_empty pi ≡ false
    → (contents pi ≡ (take_byte pi).0 ∷ contents (take_byte pi).1) × IsValid (take_byte pi).1
unfolding take_byte
take_byte-contents pi v some_left =
    let ne : pi.nread ≢ pi.nwrite = ne_of-test pi.nread pi.nwrite some_left in
    let fewer : (pi.nwrite + uint_mod - (pi.nread + 1) % uint_mod) % uint_mod ≡ count pi - 1 =
      count-take pi.nread pi.nwrite v.read_fits v.write_fits ne in
    (
      window_nonempty pi.buf pi.nread (count pi)
            (count-some pi.nread pi.nwrite v.read_fits v.write_fits ne)
          ∙ ap
              (λ n.
                get_or pi.buf (pi.nread % pipe_size) 0
                ∷ window pi.buf ((pi.nread + 1) % uint_mod) n)
              (sym fewer),
      record {
        storage = v.storage;
        read_fits = omega arith;
        write_fits = v.write_fits;
        bounded = subst (λ c. c ≤ pipe_size) (sym fewer) (le_pred (count pi) v.bounded);
      },
    )
  where
    le_pred : (n : ℕ) → n ≤ pipe_size → n - 1 ≤ pipe_size
    le_pred n h = omega arith
