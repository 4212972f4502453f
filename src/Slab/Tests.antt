-- ===== src/Slab/Tests.antt =====
-- A cache of objects of 2,000 bytes: one in the cache's page, two in a slab.
use spring_os_mp.Prelude.{some, none, [], ◌∷◌, ◌≡◌, refl, arith}
use spring_os_mp.Slab.Defs.{KmemCache, kmem_cache_create, kmem_cache_alloc, kmem_cache_free}
use spring_os_mp.Slab.Free.{LeavesEnough, kmem_cache_free-LeavesEnough}
use spring_os_mp.Slab.Alloc.{IsValid, AllocOutcome, kmem_cache_alloc-AllocOutcome}

-- Empty, with its own object given out.
abbrev used_up : KmemCache
used_up = record {
  address = 4096;
  object_size = 2000;
  full = [];
  partial = [];
  free = [];
  freelist = [];
}

abbrev one_taken : KmemCache
one_taken = record used_up {
  partial = record { address = 8192; freelist = 10224 ∷ []; in_use = 1 } ∷ [];
}

used_up-IsValid : IsValid used_up
used_up-IsValid = record {
  room = omega arith;
  fits = omega arith;
  fulls = tt;
  partials = tt;
  frees = tt;
}

new_cache : kmem_cache_create (some 4096) 2000 ≡ some (record used_up { freelist = 4216 ∷ [] })
unfolding kmem_cache_create
new_cache = refl

from_new_page : kmem_cache_alloc used_up (some 8192) ≡ some (some 8224, one_taken)
unfolding kmem_cache_alloc
from_new_page = refl

-- The slab goes to the free list, since no other is available.
given_back :
    kmem_cache_free one_taken 8224
    ≡ some (
      record used_up {
        free = record { address = 8192; freelist = 8224 ∷ 10224 ∷ []; in_use = 0 } ∷ [];
      },
      none,
    )
unfolding kmem_cache_free
given_back = refl

kmem_cache_alloc-AllocOutcome_example :
    AllocOutcome used_up (some 8192) (kmem_cache_alloc used_up (some 8192))
kmem_cache_alloc-AllocOutcome_example =
    kmem_cache_alloc-AllocOutcome used_up (some 8192) used_up-IsValid

kmem_cache_free-LeavesEnough_example : LeavesEnough (kmem_cache_free one_taken 8224)
kmem_cache_free-LeavesEnough_example = kmem_cache_free-LeavesEnough one_taken 8224
