-- ===== src/Strings/Tests.antt =====
-- Copies in a small memory.
use spring_os_mp.Prelude.{ℕ, ◌+◌, ◌<◌, List, [], ◌∷◌, ◌≡◌, refl, arith, get_or}
use spring_os_mp.Prelude.Int.{pos, negsuc, ◌-ℤ◌}
use spring_os_mp.Strings.Defs.{
  Memory, memmove, memset, memcmp, strncmp, strncpy, safestrcpy, copy_up, copy_down, zero_fill,
}
use spring_os_mp.Strings.Move.{Outside, memmove-copies}
use spring_os_mp.Strings.Copy.{Ends, safestrcpy-Ends}

-- "abc", then "abd".
abbrev letters : Memory
letters a = get_or (97 ∷ 98 ∷ 99 ∷ 0 ∷ 97 ∷ 98 ∷ 100 ∷ 0 ∷ []) a 0

abbrev bytes : Memory → ℕ → List ℕ
bytes m n = m n ∷ m (n + 1) ∷ m (n + 2) ∷ m (n + 3) ∷ []

overlapping : bytes (memmove letters 1 0 3) 0 ≡ 97 ∷ 97 ∷ 98 ∷ 99 ∷ []
unfolding memmove copy_down copy_up
overlapping = refl

compared : memcmp letters 0 4 2 ≡ pos 0
unfolding memcmp
compared = refl

before : strncmp letters 0 4 4 ≡ negsuc 0
unfolding strncmp ◌-ℤ◌
before = refl

fills_up : bytes (strncpy letters 4 3 4) 4 ≡ 0 ∷ 0 ∷ 0 ∷ 0 ∷ []
unfolding strncpy zero_fill
fills_up = refl

cleared : bytes (memset letters 0 256 4) 0 ≡ 0 ∷ 0 ∷ 0 ∷ 0 ∷ []
unfolding memset
cleared = refl

memmove-copies_example :
    ((i : ℕ) → i < 3 → memmove letters 1 0 3 (1 + i) ≡ letters (0 + i))
    × ((a : ℕ) → Outside 1 3 a → memmove letters 1 0 3 a ≡ letters a)
memmove-copies_example = memmove-copies letters 1 0 3

safestrcpy-Ends_example :
    Ends (safestrcpy letters 4 0 3) 4 3
    × ((a : ℕ) → Outside 4 3 a → safestrcpy letters 4 0 3 a ≡ letters a)
safestrcpy-Ends_example = safestrcpy-Ends letters 4 0 3 (omega arith)
