-- ===== src/Thrd/Contexts.antt =====
-- Which context `sys_thrdstop` of mp3/xv6/kernel/thrd.c gives out.
use spring_os_mp.Prelude.{
  ℕ, zero, suc, ◌<◌, Bool, true, false, Option, some, none, List, [], ◌∷◌, ◌≡◌, refl, ap, length,
  get_elem?, set, arith,
}
use spring_os_mp.Thrd.Defs.{alloc_context, used_behind}

-- What a call of `alloc_context` answers is in range and changes one entry.
abbrev pub Allocated : List Bool → Option (ℕ × List Bool) → Type 0
Allocated us none = (i : ℕ) → i < length us → get_elem? us i ≡ some true
Allocated us (some (i, vs)) =
    (i < length us)
    × (get_elem? us i ≡ some false)
    × (vs ≡ set us i true)
    × ((j : ℕ) → j < i → get_elem? us j ≡ some true)

Allocated-behind :
    (us : List Bool) (r : Option (ℕ × List Bool))
    → Allocated us r
    → Allocated (true ∷ us) (used_behind true r)
Allocated-behind us none h = all_used
  where
    all_used : (i : ℕ) → i < suc (length us) → get_elem? (true ∷ us) i ≡ some true
    all_used zero lt = refl
    all_used (suc i) lt = h i (omega arith)
Allocated-behind us (some (i, vs)) (lt, free, e, before) =
    (omega arith, free, ap (λ l. true ∷ l) e, earlier)
  where
    earlier : (j : ℕ) → j < suc i → get_elem? (true ∷ us) j ≡ some true
    earlier zero l = refl
    earlier (suc j) l = before j (omega arith)

-- For every array of contexts, the loop of `sys_thrdstop` finds the first that is not in use and sets
-- only its entry, or none where every context is in use.
pub alloc_context-Allocated : (us : List Bool) → Allocated us (alloc_context us)
unfolding alloc_context
alloc_context-Allocated [] = (λ i h. absurd (omega arith))
alloc_context-Allocated (false ∷ us) = (omega arith, refl, refl, (λ j h. absurd (omega arith)))
alloc_context-Allocated (true ∷ us) =
    Allocated-behind us (alloc_context us) (alloc_context-Allocated us)
