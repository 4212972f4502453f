-- ===== src/Strings/Defs.antt =====
-- The functions of mp4/kernel/string.c on a memory, which is a function from addresses to bytes.
-- Addresses do not wrap; a `char` is its byte. `strlen`, which stops only at a zero byte, is left out.
use spring_os_mp.Prelude.{ℕ, zero, suc, ◌+◌, ◌%◌, ◌==◌, ltb, ◌&&◌, if◌then◌else◌}
use spring_os_mp.Prelude.Int.{ℤ, pos, ◌-ℤ◌}

abbrev pub Memory : Type 0
Memory = ℕ → ℕ

abbrev pub store : Memory → ℕ → ℕ → Memory
store m a v b = if b == a then v else m b

-- `memset` of `n` bytes, from `dst` up; the byte is that of the `int` c.
unfoldable pub memset : Memory → ℕ → ℕ → ℕ → Memory
memset m dst c zero = m
memset m dst c (suc n) = memset (store m dst (c % 256)) (dst + 1) c n

unfoldable pub memcmp : Memory → ℕ → ℕ → ℕ → ℤ
memcmp m s1 s2 zero = pos 0
memcmp m s1 s2 (suc n) =
    let rest = memcmp m (s1 + 1) (s2 + 1) n in
    if m s1 == m s2 then rest else pos (m s1) -ℤ pos (m s2)

-- The loop of `memmove` from the end.
unfoldable pub copy_down : Memory → ℕ → ℕ → ℕ → Memory
copy_down m d s zero = m
copy_down m d s (suc n) = copy_down (store m (d + n) (m (s + n))) d s n

-- The loop of `memmove` from the start.
unfoldable pub copy_up : Memory → ℕ → ℕ → ℕ → Memory
copy_up m d s zero = m
copy_up m d s (suc n) = copy_up (store m d (m s)) (d + 1) (s + 1) n

unfoldable pub memmove : Memory → ℕ → ℕ → ℕ → Memory
unfolding copy_down copy_up
memmove m dst src n =
    if ltb src dst && ltb dst (src + n) then copy_down m dst src n else copy_up m dst src n

unfoldable pub memcpy : Memory → ℕ → ℕ → ℕ → Memory
unfolding memmove
memcpy m dst src n = memmove m dst src n

unfoldable pub strncmp : Memory → ℕ → ℕ → ℕ → ℤ
strncmp m p q zero = pos 0
strncmp m p q (suc n) =
    let rest = strncmp m (p + 1) (q + 1) n in
    if m p == 0 then pos (m p) -ℤ pos (m q) else if m p == m q then rest else pos (m p) -ℤ pos (m q)

-- The second loop of `strncpy`.
unfoldable pub zero_fill : Memory → ℕ → ℕ → Memory
zero_fill m s zero = m
zero_fill m s (suc n) = zero_fill (store m s 0) (s + 1) n

unfoldable pub strncpy : Memory → ℕ → ℕ → ℕ → Memory
unfolding zero_fill
strncpy m s t zero = m
strncpy m s t (suc n) =
    let m' = store m s (m t) in
    let rest = strncpy m' (s + 1) (t + 1) n in if m t == 0 then zero_fill m' (s + 1) n else rest

-- The loop of `safestrcpy` with room for `n` more bytes and the zero byte, and the zero byte.
unfoldable pub safe_copy : Memory → ℕ → ℕ → ℕ → Memory
safe_copy m s t zero = store m s 0
safe_copy m s t (suc n) =
    let m' = store m s (m t) in
    let rest = safe_copy m' (s + 1) (t + 1) n in if m t == 0 then store m' (s + 1) 0 else rest

unfoldable pub safestrcpy : Memory → ℕ → ℕ → ℕ → Memory
unfolding safe_copy
safestrcpy m s t zero = m
safestrcpy m s t (suc n) = safe_copy m s t n
