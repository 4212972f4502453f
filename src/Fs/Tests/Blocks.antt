-- ===== src/Fs/Tests/Blocks.antt =====
-- An empty inode on a small disk.
use spring_os_mp.Prelude.{
  ℕ, List, [], ◌∷◌, true, false, ◌<◌, ◌+◌, ◌⊎◌, length, Option, some, none, ◌≡◌, refl, ap, arith,
  ◌==◌, ltb, Bool-cases, inl, inr,
}
use spring_os_mp.Journal.Defs.{Fs, log_write, absorb}
use spring_os_mp.Fs.Blocks.{Blocks, ndirect, balloc, bfree, first_unused, bmap}
use spring_os_mp.Fs.Blocks.{store_entry, is_stored}
use spring_os_mp.Fs.Dir.{dirlink, dirlookup, lookup_from, empty_from, max_file_bytes, dirent_size}
use spring_os_mp.Fs.Dir.Stored.{Refused, dirlink-Refused}
use spring_os_mp.Fs.Blocks.Once.{block_at, IsOnce}
use spring_os_mp.Fs.Blocks.Outcome.{Maps, bmap-Maps}

-- The log of mkfs, with some transactions open and some blocks named.
abbrev log_of : ℕ → List ℕ → Fs
log_of outstanding block = record {
  log = record {
    start = 2;
    size = 30;
    outstanding = outstanding;
    committing = false;
    block = block;
  };
  blocks = record { cached = λ b. []; disk = λ b. []; images = [] };
}

-- Block 0 is marked.
abbrev empty : Blocks
empty = record {
  size = 4;
  bmapstart = 45;
  used = λ b. b == 0;
  words = λ b i. 7;
  addrs = λ i. 0;
  journal = log_of 1 [];
}

nothing_named : (k : ℕ) → block_at empty k ≡ 0
nothing_named k = elim (Bool-cases (ltb k ndirect)) [
  | inl y ↦ simp y refl
  | inr n ↦ elim (Bool-cases (k == 268)) [
    | inl y ↦ simp n (simp y refl)
    | inr m ↦ simp n (simp m refl)
  ]
]

not_live : (k : ℕ) → (block_at empty k == 0) ≡ false → ⊥
not_live k h = cc (ap (λ x. x == 0) (nothing_named k), h)

empty-IsOnce : IsOnce empty
empty-IsOnce = record {
  marked = λ k lt h. absurd (not_live k h);
  once = λ k l lt mt h e. absurd (not_live k h);
}

bmap-Maps_example : Maps empty 13 (bmap empty 13)
bmap-Maps_example = bmap-Maps empty 13 (omega arith) empty-IsOnce

abbrev block_of : Option (ℕ × Blocks) → Option (ℕ × ℕ)
block_of none = none
block_of (some (b, s)) = some (b, s.addrs 12)

-- The indirect block comes first, and is zeroed.
indirect_first : block_of (bmap empty 13) ≡ some (2, 1)
unfolding bmap balloc first_unused log_write absorb
indirect_first = refl

full : block_of (bmap (record empty { size = 2 }) 13) ≡ none
unfolding bmap balloc first_unused log_write absorb
full = refl

-- `sys_get_disk_lbn` opens no transaction: where the file has no block yet, `bmap` panics.
no_transaction : block_of (bmap (record empty { journal = log_of 0 [] }) 13) ≡ none
unfolding bmap balloc first_unused log_write
no_transaction = refl

abbrev logged_of : Option (ℕ × Blocks) → List ℕ
logged_of none = []
logged_of (some (b, s)) = s.journal.log.block

-- The bitmap, both new blocks, and the indirect block, which is there already.
logged : logged_of (bmap empty 13) ≡ 45 ∷ 1 ∷ 2 ∷ []
unfolding bmap balloc first_unused log_write absorb
logged = refl

freeing_free : bfree empty 3 ≡ none
unfolding bfree
freeing_free = refl

-- A directory with no entries, written outside of a transaction.
outside_panics :
    dirlink
      (λ off. is_stored (store_entry 33 (record empty { journal = log_of 0 [] }) off))
      []
      (97 ∷ [])
      6
    ≡ none
unfolding dirlink dirlookup lookup_from empty_from store_entry bmap balloc first_unused log_write
outside_panics = refl

-- The same in a transaction.
inside_stores : is_stored (store_entry 33 empty 0) ≡ true
unfolding store_entry bmap balloc first_unused log_write absorb
inside_stores = refl

dirlink-Refused_example :
    (max_file_bytes < length {A = ℕ} [] + dirent_size)
    ⊎ Refused (record empty { journal = log_of 0 [] })
dirlink-Refused_example =
    dirlink-Refused 33 (record empty { journal = log_of 0 [] }) [] (97 ∷ []) 6
      (record { marked = empty-IsOnce.marked; once = empty-IsOnce.once }) refl refl outside_panics
