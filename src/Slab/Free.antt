-- ===== src/Slab/Free.antt =====
-- When `kmem_cache_free` of mp2/kernel/slab.c gives a page back.
use spring_os_mp.Prelude.{
  ℕ, ◌+◌, ◌-◌, ◌%◌, ◌≤◌, Option, some, none, ◌∷◌, ◌++◌, length, ◌==◌, leb, leb→le, ltb, ◌&&◌,
  Bool-cases, inl, inr,
}
use spring_os_mp.Slab.Defs.{
  Slab, KmemCache, mp2_min_avail_slab, retire, free_in, free_found, requeue, written, unlinked,
  kmem_cache_free, max_objs, slab_at, page_size, uint_mod,
}

-- A page that goes back leaves the least number of available slabs.
abbrev pub LeavesEnough : Option (KmemCache × Option ℕ) → Type 0
LeavesEnough none = Unit
LeavesEnough (some (c, none)) = Unit
LeavesEnough (some (c, some page)) = mp2_min_avail_slab ≤ length c.partial + length c.free

retire-LeavesEnough : (c : KmemCache) (s : Slab) → LeavesEnough (some (retire c s))
retire-LeavesEnough c s = elim (Bool-cases (s.in_use == 0)) [
  | inr used ↦ simp used tt
  | inl unused ↦
      let c' : KmemCache = unlinked s.address c in
      elim (Bool-cases (leb mp2_min_avail_slab (length c'.partial + length c'.free))) [
        | inl enough ↦
            simp unused
              (simp enough (leb→le mp2_min_avail_slab (length c'.partial + length c'.free) enough))
        | inr few ↦ simp unused (simp few tt)
      ]
]

free_in-LeavesEnough : (c : KmemCache) (obj : ℕ) (s : Slab) → LeavesEnough (some (free_in c obj s))
free_in-LeavesEnough c obj s =
    let s' : Slab = record s {
      freelist = obj ∷ s.freelist;
      in_use = (s.in_use + uint_mod - 1) % uint_mod;
    } in
    elim (Bool-cases (s'.in_use + 1 == max_objs c.object_size)) [
      | inl e ↦ simp e (retire-LeavesEnough (requeue c s') s')
      | inr e ↦ simp e (retire-LeavesEnough (written s' c) s')
    ]

found-LeavesEnough : (c : KmemCache) (obj : ℕ) (r : Option Slab) → LeavesEnough (free_found c obj r)
found-LeavesEnough c obj none = tt
found-LeavesEnough c obj (some s) = free_in-LeavesEnough c obj s

-- For every cache and object, whenever `kmem_cache_free` gives a page back, the cache keeps at least
-- MP2_MIN_AVAIL_SLAB partial and free slabs.
pub kmem_cache_free-LeavesEnough : (c : KmemCache) (obj : ℕ) → LeavesEnough (kmem_cache_free c obj)
unfolding kmem_cache_free
kmem_cache_free-LeavesEnough c obj =
    elim (Bool-cases (leb c.address obj && ltb obj (c.address + page_size))) [
      | inl own ↦ simp own tt
      | inr other ↦ simp other (
          found-LeavesEnough c obj
            (slab_at (obj - obj % page_size) (c.full ++ c.partial ++ c.free)))
    ]
