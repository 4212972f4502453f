-- ===== src/Slab.antt =====
-- The slab allocator of mp2/kernel/slab.c.
pub mod Defs
pub mod Alloc
pub mod Free
mod Tests
