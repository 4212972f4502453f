-- ===== src/Journal/Header.antt =====
-- The log header on disk: what `write_head` writes is what `read_head` reads.
use spring_os_mp.Prelude.{
  ℕ, zero, suc, ◌+◌, ◌≤◌, ◌<◌, List, [], ◌∷◌, ◌≡◌, refl, ◌∙◌, length, length-set, get_or, set,
  arith,
}
use spring_os_mp.Journal.Blocks.{Data}
use spring_os_mp.Journal.Defs.{entries_from, fill_from}
use mathlib.Core.Path.{ap₂}

get_or-set_self : (h : Data) (i v : ℕ) → i < length h → get_or (set h i v) i 0 ≡ v
get_or-set_self [] i v l = absurd (omega arith)
get_or-set_self (x ∷ h) zero v l = refl
get_or-set_self (x ∷ h) (suc i) v l = get_or-set_self h i v (omega arith)

get_or-set_lt : (h : Data) (i j v : ℕ) → j < i → get_or (set h i v) j 0 ≡ get_or h j 0
get_or-set_lt [] i j v l = refl
get_or-set_lt (x ∷ h) zero j v l = absurd (omega arith)
get_or-set_lt (x ∷ h) (suc i) zero v l = refl
get_or-set_lt (x ∷ h) (suc i) (suc j) v l = get_or-set_lt h i j v (omega arith)

-- Filling from entry `i` on leaves the words up to `i`.
get_or-fill_from :
    (h : Data) (i : ℕ) (bs : List ℕ) (j : ℕ) → j ≤ i → get_or (fill_from h i bs) j 0 ≡ get_or h j 0
unfolding fill_from
get_or-fill_from h i [] j l = refl
get_or-fill_from h i (b ∷ bs) j l =
    get_or-fill_from (set h (suc i) b) (suc i) bs j (omega arith)
    ∙ get_or-set_lt h (suc i) j b (omega arith)

entries_from-fill_from :
    (h : Data) (i : ℕ) (bs : List ℕ)
    → suc i + length bs ≤ length h
    → entries_from (fill_from h i bs) i (length bs) ≡ bs
unfolding entries_from fill_from
entries_from-fill_from h i [] fits = refl
entries_from-fill_from h i (b ∷ bs) fits =
    ap₂ ◌∷◌
      (get_or-fill_from (set h (suc i) b) (suc i) bs (suc i) (omega arith)
        ∙ get_or-set_self h (suc i) b (omega arith))
      (entries_from-fill_from (set h (suc i) b) (suc i) bs (omega (arith, length-set h (suc i) b)))

-- For every header block and list of block numbers with room for them, the header that `write_head`
-- writes is read back by `read_head`: its first word is the count, and the entries are the list.
pub header_round_trip :
    (h : Data) (bs : List ℕ)
    → 1 + length bs ≤ length h
    → let h' = fill_from (set h 0 (length bs)) 0 bs in
      (get_or h' 0 0 ≡ length bs) × (entries_from h' 0 (get_or h' 0 0) ≡ bs)
header_round_trip h bs fits =
    let count =
      get_or-fill_from (set h 0 (length bs)) 0 bs 0 (omega arith)
      ∙ get_or-set_self h 0 (length bs) (omega arith) in
    (
      count,
      rw count (
          entries_from-fill_from (set h 0 (length bs)) 0 bs
            (omega (arith, length-set h 0 (length bs)))),
    )
