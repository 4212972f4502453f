-- ===== src/Slab/Defs.antt =====
-- `struct slab`, `struct kmem_cache` and the allocation and release of objects in
-- mp2/kernel/slab.c. A free list is the list of its addresses; the three lists of slabs are the lists
-- of the slabs they link. `kalloc` is a parameter: its answer is an argument. The lock and the
-- diagnostic output are left out. `none` is an access through a null pointer, or through an address
-- that is in no slab of the cache.
use spring_os_mp.Prelude.{
  ℕ, zero, suc, ◌+◌, ◌-◌, ◌/◌, ◌%◌, ◌^◌, Option, some, none, List, [], ◌∷◌, ◌++◌, length, ◌==◌, ltb,
  leb, ◌&&◌, if◌then◌else◌,
}

abbrev pub page_size : ℕ
page_size = 4096

-- `sizeof(struct slab)`
abbrev pub slab_bytes : ℕ
slab_bytes = 32

-- `sizeof(struct kmem_cache)`
abbrev pub cache_bytes : ℕ
cache_bytes = 120

abbrev pub mp2_min_avail_slab : ℕ
mp2_min_avail_slab = 2

abbrev pub uint_mod : ℕ
uint_mod = 2 ^ 32

pub record Slab : Type 0 where
  pub address : ℕ
  pub freelist : List ℕ
  pub in_use : ℕ

pub record KmemCache : Type 0 where
  pub address : ℕ
  pub object_size : ℕ
  pub full : List Slab
  pub partial : List Slab
  pub free : List Slab
  pub freelist : List ℕ

-- How many objects a slab has room for.
abbrev pub max_objs : ℕ → ℕ
max_objs object_size = (page_size - slab_bytes) / object_size

-- The loops that link a free list: `more` objects after the first.
abbrev pub chain : ℕ → ℕ → ℕ → List ℕ
chain zero run object_size = run ∷ []
chain (suc more) run object_size = run ∷ chain more (run + object_size) object_size

-- `kmem_cache_create` on the page that `kalloc` answers; the name is left out.
unfoldable pub kmem_cache_create : Option ℕ → ℕ → Option KmemCache
kmem_cache_create none object_size = none
kmem_cache_create (some page) object_size = some (record {
  address = page;
  object_size = object_size;
  full = [];
  partial = [];
  free = [];
  freelist = chain ((page_size - cache_bytes) / object_size - 1) (page + cache_bytes) object_size;
})

-- The slab that `kmem_cache_alloc` makes of a page.
abbrev pub new_slab : ℕ → ℕ → Slab
new_slab object_size page = record {
  address = page;
  freelist = chain (max_objs object_size - 1) (page + slab_bytes) object_size;
  in_use = 0;
}

-- The move to `full`, for the slab `s` in front of the partial slabs `ps`.
abbrev pub place : KmemCache → Slab → List Slab → KmemCache
place c s ps =
    if s.in_use == max_objs c.object_size
    then record c { partial = ps; full = c.full ++ s ∷ [] }
    else record c { partial = s ∷ ps }

-- The end of `kmem_cache_alloc`, for the slab `s` in front of the partial slabs `ps`.
abbrev pub take_object : KmemCache → Slab → List ℕ → List Slab → Option (Option ℕ × KmemCache)
take_object c s [] ps = none
take_object c s (obj ∷ objs) ps =
    some (some obj, place c (record s { freelist = objs; in_use = (s.in_use + 1) % uint_mod }) ps)

abbrev pub alloc_new : KmemCache → Option ℕ → Option (Option ℕ × KmemCache)
alloc_new c none = some (none, c)
alloc_new c (some page) = let s = new_slab c.object_size page in take_object c s s.freelist []

abbrev pub alloc_free : KmemCache → List Slab → Option ℕ → Option (Option ℕ × KmemCache)
alloc_free c [] page = alloc_new c page
alloc_free c (s ∷ fs) page = take_object (record c { free = fs }) s s.freelist []

abbrev pub alloc_slab : KmemCache → List Slab → Option ℕ → Option (Option ℕ × KmemCache)
alloc_slab c [] page = alloc_free c c.free page
alloc_slab c (s ∷ ps) page = take_object c s s.freelist ps

abbrev pub alloc_object : KmemCache → List ℕ → Option ℕ → Option (Option ℕ × KmemCache)
alloc_object c (obj ∷ objs) page = some (some obj, record c { freelist = objs })
alloc_object c [] page = alloc_slab c c.partial page

-- `kmem_cache_alloc`, with what `kalloc` answers if it is called.
unfoldable pub kmem_cache_alloc : KmemCache → Option ℕ → Option (Option ℕ × KmemCache)
kmem_cache_alloc c page = alloc_object c c.freelist page

-- `list_del` of the slab at an address.
abbrev pub list_del : ℕ → List Slab → List Slab
list_del a [] = []
list_del a (s ∷ ss) = if s.address == a then ss else s ∷ list_del a ss

abbrev pub slab_at : ℕ → List Slab → Option Slab
slab_at a [] = none
slab_at a (s ∷ ss) = if s.address == a then some s else slab_at a ss

abbrev pub unlinked : ℕ → KmemCache → KmemCache
unlinked a c = record c {
  full = list_del a c.full;
  partial = list_del a c.partial;
  free = list_del a c.free;
}

-- A write through a pointer to the slab, wherever it is linked.
abbrev pub write_slab : Slab → List Slab → List Slab
write_slab s [] = []
write_slab s (t ∷ ts) = if t.address == s.address then s ∷ ts else t ∷ write_slab s ts

abbrev pub written : Slab → KmemCache → KmemCache
written s c = record c {
  full = write_slab s c.full;
  partial = write_slab s c.partial;
  free = write_slab s c.free;
}

-- The move to the end of `partial`.
abbrev pub requeue : KmemCache → Slab → KmemCache
requeue c s = let c' = unlinked s.address c in record c' { partial = c'.partial ++ s ∷ [] }

-- The last part of `kmem_cache_free`: the cache, and the page that goes back to `kfree`.
abbrev pub retire : KmemCache → Slab → KmemCache × Option ℕ
retire c s =
    let c' = unlinked s.address c in
    if s.in_use == 0
    then if leb mp2_min_avail_slab (length c'.partial + length c'.free)
      then (c', some s.address)
      else (record c' { free = c'.free ++ s ∷ [] }, none)
    else (c, none)

-- `kmem_cache_free` of an object of the slab `s`.
abbrev pub free_in : KmemCache → ℕ → Slab → KmemCache × Option ℕ
free_in c obj s =
    let s' : Slab = record s {
      freelist = obj ∷ s.freelist;
      in_use = (s.in_use + uint_mod - 1) % uint_mod;
    } in
    if s'.in_use + 1 == max_objs c.object_size
    then retire (requeue c s') s'
    else retire (written s' c) s'

abbrev pub free_found : KmemCache → ℕ → Option Slab → Option (KmemCache × Option ℕ)
free_found c obj none = none
free_found c obj (some s) = some (free_in c obj s)

unfoldable pub kmem_cache_free : KmemCache → ℕ → Option (KmemCache × Option ℕ)
kmem_cache_free c obj =
    if leb c.address obj && ltb obj (c.address + page_size)
    then some (record c { freelist = obj ∷ c.freelist }, none)
    else free_found c obj (slab_at (obj - obj % page_size) (c.full ++ c.partial ++ c.free))
