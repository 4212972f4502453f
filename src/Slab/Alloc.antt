-- ===== src/Slab/Alloc.antt =====
-- `kmem_cache_alloc` of mp2/kernel/slab.c keeps the cache in order and counts right.
use spring_os_mp.Prelude.{
  ℕ, zero, suc, ◌+◌, ◌-◌, ◌%◌, ◌≤◌, ◌<◌, false, Option, some, none, List, [], ◌∷◌, ◌≡◌, refl, sym,
  ap, ◌∙◌, length, arith, ◌==◌, ==_iff, Bool-cases, inl, inr, subst,
}
use spring_os_mp.Prelude.Fold.{All, All-append}
use spring_os_mp.Slab.Defs.{
  Slab, KmemCache, max_objs, chain, new_slab, place, take_object, alloc_new, alloc_free, alloc_slab,
  alloc_object, kmem_cache_alloc, uint_mod,
}

-- A slab of a cache whose slabs have room for `n` objects counts them right.
abbrev pub Counts : ℕ → Slab → Type 0
Counts n s = length s.freelist + s.in_use ≡ n

abbrev pub IsFull : ℕ → Slab → Type 0
IsFull n s = Counts n s × (s.in_use ≡ n)

abbrev pub IsPartial : ℕ → Slab → Type 0
IsPartial n s = Counts n s × (1 ≤ s.in_use) × (s.in_use < n)

abbrev pub IsFree : ℕ → Slab → Type 0
IsFree n s = Counts n s × (s.in_use ≡ 0)

pub record IsValid (c : KmemCache) : Type 0 where
  pub room : 1 ≤ max_objs c.object_size
  pub fits : max_objs c.object_size < uint_mod
  pub fulls : All (IsFull (max_objs c.object_size)) c.full
  pub partials : All (IsPartial (max_objs c.object_size)) c.partial
  pub frees : All (IsFree (max_objs c.object_size)) c.free

length-chain : (more run size : ℕ) → length (chain more run size) ≡ suc more
length-chain zero run size = refl
length-chain (suc more) run size = ap suc (length-chain more (run + size) size)

-- The slab `s` with its first object taken.
abbrev pub taken : Slab → List ℕ → Slab
taken s objs = record s { freelist = objs; in_use = (s.in_use + 1) % uint_mod }

-- What `kmem_cache_alloc` may answer, with `page` from `kalloc`: an object of the cache's own; the
-- first of the first partial slab; with none, of the first free slab; with none, of a new slab; and no
-- object only where there is no page for one.
pub data AllocOutcome (c : KmemCache) (page : Option ℕ)
    : Option (Option ℕ × KmemCache) → Type 0 where
  own :
      (obj : ℕ) (objs : List ℕ)
      → c.freelist ≡ obj ∷ objs
      → IsValid (record c { freelist = objs })
      → AllocOutcome c page (some (some obj, record c { freelist = objs }))
  from_partial :
      (obj : ℕ) (objs : List ℕ) (s : Slab) (ps : List Slab)
      → c.partial ≡ s ∷ ps
      → s.freelist ≡ obj ∷ objs
      → IsValid (place c (taken s objs) ps)
      → AllocOutcome c page (some (some obj, place c (taken s objs) ps))
  from_free :
      (obj : ℕ) (objs : List ℕ) (s : Slab) (fs : List Slab)
      → c.partial ≡ []
      → c.free ≡ s ∷ fs
      → s.freelist ≡ obj ∷ objs
      → IsValid (place (record c { free = fs }) (taken s objs) [])
      → AllocOutcome c page (some (some obj, place (record c { free = fs }) (taken s objs) []))
  from_page :
      (obj : ℕ) (objs : List ℕ) (a : ℕ)
      → c.partial ≡ []
      → c.free ≡ []
      → page ≡ some a
      → (new_slab c.object_size a).freelist ≡ obj ∷ objs
      → IsValid (place c (taken (new_slab c.object_size a) objs) [])
      → AllocOutcome c page (some (some obj, place c (taken (new_slab c.object_size a) objs) []))
  exhausted :
      c.freelist ≡ []
      → c.partial ≡ []
      → c.free ≡ []
      → page ≡ none
      → AllocOutcome c page (some (none, c))

module _ (c : KmemCache) (v : IsValid c) where
  place-IsValid :
      (fs ps : List Slab) (s : Slab)
      → All (IsFree (max_objs c.object_size)) fs
      → All (IsPartial (max_objs c.object_size)) ps
      → Counts (max_objs c.object_size) s
      → 1 ≤ s.in_use
      → IsValid (place (record c { free = fs }) s ps)
  place-IsValid fs ps s hf hp counts used = elim (Bool-cases (s.in_use == max_objs c.object_size)) [
    | inl e ↦ simp e (record {
      room = v.room;
      fits = v.fits;
      fulls =
          All-append (IsFull (max_objs c.object_size)) c.full (s ∷ []) v.fulls
            ((counts, (==_iff s.in_use (max_objs c.object_size)).0 e), tt);
      partials = hp;
      frees = hf;
    })
    | inr e ↦ simp e (record {
      room = v.room;
      fits = v.fits;
      fulls = v.fulls;
      partials = (
        (counts, used, below s.in_use (length s.freelist) (max_objs c.object_size) counts e),
        hp,
      );
      frees = hf;
    })
  ]
    where
      below : (u l n : ℕ) → l + u ≡ n → (u == n) ≡ false → u < n
      below u l n h e = ground arith

  taken-Counts :
      (s : Slab) (obj : ℕ) (objs : List ℕ)
      → s.freelist ≡ obj ∷ objs
      → Counts (max_objs c.object_size) s
      → (Counts (max_objs c.object_size) (taken s objs)) × (1 ≤ (taken s objs).in_use)
  taken-Counts s obj objs e h =
      sums s.in_use (length objs) (max_objs c.object_size) v.fits
        (ap (λ l. length l + s.in_use) (sym e) ∙ h)
    where
      sums :
          (u l n : ℕ)
          → n < uint_mod
          → suc l + u ≡ n
          → (l + (u + 1) % uint_mod ≡ n) × (1 ≤ (u + 1) % uint_mod)
      sums u l n lt h = (omega arith, omega arith)

  -- A slab with objects left gives its first, into a valid cache.
  taken-IsValid :
      (fs ps : List Slab) (s : Slab) (obj : ℕ) (objs : List ℕ)
      → s.freelist ≡ obj ∷ objs
      → All (IsFree (max_objs c.object_size)) fs
      → All (IsPartial (max_objs c.object_size)) ps
      → Counts (max_objs c.object_size) s
      → IsValid (place (record c { free = fs }) (taken s objs) ps)
  taken-IsValid fs ps s obj objs e hf hp h =
      let (counts, used) = taken-Counts s obj objs e h in
      place-IsValid fs ps (taken s objs) hf hp counts used

  -- A slab that has less than all its objects in use has one to give.
  has_object :
      (s : Slab)
      → Counts (max_objs c.object_size) s
      → s.in_use < max_objs c.object_size
      → (obj : ℕ) × (objs : List ℕ) × (s.freelist ≡ obj ∷ objs)
  has_object s h lt = head_of s.freelist h
    where
      head_of :
          (l : List ℕ)
          → length l + s.in_use ≡ max_objs c.object_size
          → (obj : ℕ) × (objs : List ℕ) × (l ≡ obj ∷ objs)
      head_of [] h = absurd (omega arith)
      head_of (obj ∷ objs) h = (obj, objs, refl)

  new_slab-Counts : (a : ℕ) → Counts (max_objs c.object_size) (new_slab c.object_size a)
  new_slab-Counts a =
      ap (λ n. n + 0) (length-chain (max_objs c.object_size - 1) (a + 32) c.object_size)
      ∙ whole (max_objs c.object_size) v.room
    where
      whole : (n : ℕ) → 1 ≤ n → suc (n - 1) + 0 ≡ n
      whole n h = omega arith

  new-AllocOutcome :
      (page : Option ℕ)
      → c.freelist ≡ []
      → c.partial ≡ []
      → c.free ≡ []
      → AllocOutcome c page (alloc_new c page)
  new-AllocOutcome none e p q = AllocOutcome.exhausted e p q refl
  new-AllocOutcome (some a) e p q =
      let s = new_slab c.object_size a in
      let counts = new_slab-Counts a in
      let (obj, objs, l) = has_object s counts v.room in
      subst (λ l. AllocOutcome c (some a) (take_object c s l [])) (sym l)
        (AllocOutcome.from_page obj objs a p q refl l
          (taken-IsValid c.free [] s obj objs l v.frees tt counts))

  free-AllocOutcome :
      (fs : List Slab) (page : Option ℕ)
      → c.freelist ≡ []
      → c.partial ≡ []
      → c.free ≡ fs
      → All (IsFree (max_objs c.object_size)) fs
      → AllocOutcome c page (alloc_free c fs page)
  free-AllocOutcome [] page e p q h = new-AllocOutcome page e p q
  free-AllocOutcome (s ∷ fs) page e p q h =
      let (obj, objs, l) =
        has_object s h.0.0 (unused s.in_use (max_objs c.object_size) h.0.1 v.room) in
      subst (λ l. AllocOutcome c page (take_object (record c { free = fs }) s l [])) (sym l)
        (AllocOutcome.from_free obj objs s fs p q l (taken-IsValid fs [] s obj objs l h.1 tt h.0.0))
    where
      unused : (u n : ℕ) → u ≡ 0 → 1 ≤ n → u < n
      unused u n e h = omega arith

  slab-AllocOutcome :
      (ps : List Slab) (page : Option ℕ)
      → c.freelist ≡ []
      → c.partial ≡ ps
      → All (IsPartial (max_objs c.object_size)) ps
      → AllocOutcome c page (alloc_slab c ps page)
  slab-AllocOutcome [] page e p h = free-AllocOutcome c.free page e p refl v.frees
  slab-AllocOutcome (s ∷ ps) page e p h =
      let (obj, objs, l) = has_object s h.0.0 h.0.2 in
      subst (λ l. AllocOutcome c page (take_object c s l ps)) (sym l)
        (AllocOutcome.from_partial obj objs s ps p l
          (taken-IsValid c.free ps s obj objs l v.frees h.1 h.0.0))

  object-AllocOutcome :
      (os : List ℕ) (page : Option ℕ)
      → c.freelist ≡ os
      → AllocOutcome c page (alloc_object c os page)
  object-AllocOutcome [] page e = slab-AllocOutcome c.partial page e refl v.partials
  object-AllocOutcome (obj ∷ objs) page e = AllocOutcome.own obj objs e (record {
    room = v.room;
    fits = v.fits;
    fulls = v.fulls;
    partials = v.partials;
    frees = v.frees;
  })

-- For every valid cache, `kmem_cache_alloc` follows no null pointer and leaves a valid cache. It gives
-- the first object of the cache's own list; with none, of the first partial slab; with none, of the
-- first free slab, which becomes partial; with none, of a new slab; and no object only where there is
-- no page for one. The slab counts the object and goes to the full ones with its last.
pub kmem_cache_alloc-AllocOutcome :
    (c : KmemCache) (page : Option ℕ) → IsValid c → AllocOutcome c page (kmem_cache_alloc c page)
unfolding kmem_cache_alloc
kmem_cache_alloc-AllocOutcome c page v = object-AllocOutcome c v c.freelist page refl
