-- ===== src/Fs/Blocks/Outcome.antt =====
-- What `bmap` of mp4/kernel/fs.c promises.
use spring_os_mp.Prelude.{
  ℕ, zero, suc, ◌+◌, ◌-◌, ◌<◌, ◌≤◌, Bool, true, false, Option, some, none, ◌≡◌, refl, sym, ◌∙◌, ap,
  subst, arith, ◌==◌, ==_iff, ltb, ◌⊎◌, Bool-cases, inl, inr,
}
use spring_os_mp.Fs.Blocks.{
  Blocks, ndirect, nindirect, first_unused, balloc, mark, mark_logged, then_log, bitmap_block,
  log_stored, store_block, put_addr, put_word, direct, indirect, bmap,
}
use spring_os_mp.Journal.Defs.{Fs, log_write}
use spring_os_mp.Fs.Blocks.Logged.{
  Short, Kept, Logs, Short-later, Kept-later, log_write-Logs, then_log-Logs,
}
use spring_os_mp.Fs.Blocks.Once.{places, block_at, IsOnce, Grown, Grown-IsOnce}
use spring_os_mp.Fs.Blocks.Map.{marked, direct-Grown, top-Grown, word-Grown}

-- No block can be given out: block 0 is not marked, or all are.
abbrev Full : Blocks → Type 0
Full s = (s.used 0 ≡ false) ⊎ ((x : ℕ) → x < s.size → s.used x ≡ true)

-- No two blocks can be given out.
abbrev pub Crowded : Blocks → Type 0
Crowded s =
    (s.used 0 ≡ false)
    ⊎ ((x y : ℕ) → x < s.size → y < s.size → s.used x ≡ false → s.used y ≡ false → x ≡ y)

-- At most one block more is marked.
record OneMore (s : Blocks) (b : ℕ) (s' : Blocks) : Type 0 where
  pub size : s'.size ≡ s.size
  pub old : (x : ℕ) → s'.used x ≡ false → s.used x ≡ false
  pub new : (x : ℕ) → s.used x ≡ false → (s'.used x ≡ false) ⊎ (x ≡ b)

-- The new state, in which places below `n` other than `k` are as before.
abbrev pub Mapped : ℕ → Blocks → ℕ → ℕ → Blocks → Type 0
Mapped n s k b s' =
    IsOnce s'
    × ((b == 0) ≡ false)
    × (block_at s' k ≡ b)
    × ((l : ℕ) → l < n → (l == k) ≡ false → block_at s' l ≡ block_at s l)
    × ((block_at s k == 0) ≡ false → b ≡ block_at s k)

-- What an answer for a place promises, with `n` calls of `log_write` at most.
abbrev Places : ℕ → Blocks → ℕ → Option (ℕ × Blocks) → Type 0
Places n s k none = Full s ⊎ Short n s.journal
Places n s k (some (b, s')) = Mapped places s k b s' × OneMore s b s' × Kept n s.journal s'.journal

abbrev pub Maps : Blocks → ℕ → Option (ℕ × Blocks) → Type 0
Maps s k none = Crowded s ⊎ Short 5 s.journal
Maps s k (some (b, s')) = Mapped 268 s k b s' × Kept 5 s.journal s'.journal

abbrev Unused : (ℕ → Bool) → ℕ → ℕ → Option ℕ → Type 0
Unused used b n none = (x : ℕ) → b ≤ x → x < b + n → used x ≡ true
Unused used b n (some y) = used y ≡ false

first_unused-Unused : (used : ℕ → Bool) (b n : ℕ) → Unused used b n (first_unused used b n)
unfolding first_unused
first_unused-Unused used b zero = λ x l h. absurd (omega arith)
first_unused-Unused used b (suc n) = elim (Bool-cases (used b)) [
  | inl y ↦ simp y (wider (first_unused used (b + 1) n) y (first_unused-Unused used (b + 1) n))
  | inr f ↦ simp f refl
]
  where
    wider : (r : Option ℕ) → used b ≡ true → Unused used (b + 1) n r → Unused used b (suc n) r
    wider none y h = λ x l m. elim (Bool-cases (x == b)) [
      | inl e ↦ ap used ((==_iff x b).0 e) ∙ y
      | inr d ↦ h x (ground (arith, l, d)) (omega (arith, m))
    ]
    wider (some z) y h = h

-- A state of which only the log may be another one.
abbrev with_journal : Blocks → Fs → Blocks
with_journal s journal = record s { journal = journal }

Grown-journal :
    (s : Blocks) (k b : ℕ) (u : Blocks) (j : Fs) → Grown s k b u → Grown s k b (with_journal u j)
Grown-journal s k b u j g = record {
  free = g.free;
  used = g.used;
  here = g.here;
  others = g.others;
}

Grown-OneMore :
    (s : Blocks) (k b : ℕ) (u : Blocks) → u.size ≡ s.size → Grown s k b u → OneMore s b u
Grown-OneMore s k b u size g = record { size = size; old = old; new = new }
  where
    old : (x : ℕ) → u.used x ≡ false → s.used x ≡ false
    old x e = elim (Bool-cases (x == b)) [
      | inl y ↦ ap s.used ((==_iff x b).0 y) ∙ g.free
      | inr n ↦ sym (ap (λ f. f x) g.used ∙ simp n refl) ∙ e
    ]

    new : (x : ℕ) → s.used x ≡ false → (u.used x ≡ false) ⊎ (x ≡ b)
    new x e = elim (Bool-cases (x == b)) [
      | inl y ↦ inr ((==_iff x b).0 y)
      | inr n ↦ inl (ap (λ f. f x) g.used ∙ simp n e)
    ]

Grown-Mapped :
    (s : Blocks) (k b : ℕ) (u : Blocks)
    → IsOnce s
    → (block_at s k == 0) ≡ true
    → (b == 0) ≡ false
    → Grown s k b u
    → Mapped places s k b u
Grown-Mapped s k b u v empty n g =
    (Grown-IsOnce s k b u g v, n, g.here, g.others, (λ live. absurd (cc (live, empty))))

-- A new block for a place that is free, once its two blocks are logged.
store_block-Places :
    (s : Blocks) (k b : ℕ) (put : ℕ → Blocks → Blocks) (o : Option Fs)
    → IsOnce s
    → (block_at s k == 0) ≡ true
    → ((b : ℕ) (u : Blocks) (j : Fs) → put b (with_journal u j) ≡ with_journal (put b u) j)
    → ((b : ℕ) (u : Blocks) → (put b u).size ≡ u.size)
    → ((b : ℕ) → (b == 0) ≡ false → s.used b ≡ false → Grown s k b (put b (marked s b)))
    → s.used b ≡ false
    → Logs 2 s.journal o
    → Places 2 s k (store_block put (mark_logged s b o))
store_block-Places s k b put none v empty same size grow h l = inr l
store_block-Places s k b put (some j) v empty same size grow h l = elim (Bool-cases (b == 0)) [
  | inl y ↦ simp y (inl (inl (subst (λ c. s.used c ≡ false) ((==_iff b 0).0 y) h)))
  | inr n ↦
      let u : Blocks = with_journal (put b (marked s b)) j in
      let g : Grown s k b u = Grown-journal s k b (put b (marked s b)) j (grow b n h) in
      let placed : Places 2 s k (some (b, put b (with_journal (marked s b) j))) =
        subst (λ w. Places 2 s k (some (b, w))) (sym (same b (marked s b) j))
          (Grown-Mapped s k b u v empty n g, Grown-OneMore s k b u (size b (marked s b)) g, l) in
      let ((once, live, here, others, old), more, kept) = placed in
      simp n ((once, refl, here, others, old), more, kept)
]

mark-Places :
    (s : Blocks) (k : ℕ) (put : ℕ → Blocks → Blocks) (r : Option ℕ)
    → IsOnce s
    → (block_at s k == 0) ≡ true
    → ((b : ℕ) (u : Blocks) (j : Fs) → put b (with_journal u j) ≡ with_journal (put b u) j)
    → ((b : ℕ) (u : Blocks) → (put b u).size ≡ u.size)
    → ((b : ℕ) → (b == 0) ≡ false → s.used b ≡ false → Grown s k b (put b (marked s b)))
    → Unused s.used 0 s.size r
    → Places 2 s k (store_block put (mark s r))
mark-Places s k put none v empty same size grow h =
    inl (inr (λ x lt. h x (omega arith) (omega (arith, lt))))
mark-Places s k put (some b) v empty same size grow h =
    store_block-Places s k b put (then_log (log_write s.journal (bitmap_block s b)) b) v empty same
      size grow h
      (then_log-Logs s.journal (log_write s.journal (bitmap_block s b)) b
        (log_write-Logs s.journal (bitmap_block s b)))

balloc-Places :
    (s : Blocks) (k : ℕ) (put : ℕ → Blocks → Blocks)
    → IsOnce s
    → (block_at s k == 0) ≡ true
    → ((b : ℕ) (u : Blocks) (j : Fs) → put b (with_journal u j) ≡ with_journal (put b u) j)
    → ((b : ℕ) (u : Blocks) → (put b u).size ≡ u.size)
    → ((b : ℕ) → (b == 0) ≡ false → s.used b ≡ false → Grown s k b (put b (marked s b)))
    → Places 2 s k (store_block put (balloc s))
unfolding balloc
balloc-Places s k put v empty same size grow =
    mark-Places s k put (first_unused s.used 0 s.size) v empty same size grow
      (first_unused-Unused s.used 0 s.size)

-- A place that has its block.
unmoved :
    (n : ℕ) (s : Blocks) (k b : ℕ)
    → IsOnce s
    → block_at s k ≡ b
    → (b == 0) ≡ false
    → Places n s k (some (b, s))
unmoved n s k b v e live = (
  (v, live, e, (λ l m d. refl), (λ h. sym e)),
  record { size = refl; old = λ x h. h; new = λ x h. inl h },
  (refl, refl, omega arith),
)

direct-Places : (s : Blocks) (i : ℕ) → IsOnce s → i < ndirect → Places 2 s i (direct s i)
direct-Places s i v lt =
    let y : ltb i ndirect ≡ true = ground (arith, lt) in
    let e : block_at s i ≡ s.addrs i = simp y refl in
    elim (Bool-cases (s.addrs i == 0)) [
      | inl z ↦ simp z (
          balloc-Places s i (put_addr i) v (ap (λ x. x == 0) e ∙ z) (λ b u j. refl) (λ b u. refl)
            (λ b n free. direct-Grown s i b v lt free))
      | inr n ↦
          let ((once, live', here, others, old), more, kept) = unmoved 2 s i (s.addrs i) v e n in
          simp n ((once, refl, here, others, old), more, kept)
    ]

top-Places : (s : Blocks) → IsOnce s → Places 2 s 268 (direct s ndirect)
top-Places s v = elim (Bool-cases (s.addrs ndirect == 0)) [
  | inl z ↦ simp z (
      balloc-Places s 268 (put_addr ndirect) v z (λ b u j. refl) (λ b u. refl)
        (λ b n free. top-Grown s b z n free))
  | inr n ↦
      let (m, more, kept) = unmoved 2 s 268 (s.addrs ndirect) v refl n in
      simp n ((v, refl, refl, (λ l lt d. refl), (λ live. refl)), more, kept)
]

-- The indirect block is logged once it names the new block.
log_stored-Places :
    (s : Blocks) (k addr : ℕ) (r : Option (ℕ × Blocks))
    → Places 2 s k r
    → Places 3 s k (log_stored addr r)
log_stored-Places s k addr none (inl h) = inl h
log_stored-Places s k addr none (inr h) =
    inr (Short-later 1 2 3 s.journal s.journal refl (refl, refl, omega arith) h)
log_stored-Places s k addr (some (b, u)) (m, more, kept) =
    logged (log_write u.journal addr) (log_write-Logs u.journal addr)
  where
    logged :
        (o : Option Fs)
        → Logs 1 u.journal o
        → Places 3 s k
            (elim o [ none ↦ none | some journal ↦ some (b, record u { journal = journal }) ])
    logged none h = inr (Short-later 2 1 3 s.journal u.journal refl kept h)
    logged (some j) h = (
      relogged m,
      record { size = more.size; old = more.old; new = more.new },
      Kept-later 2 1 3 s.journal u.journal j refl kept h,
    )
      where
        relogged : Mapped places s k b u → Mapped places s k b (with_journal u j)
        relogged (v, live, here, others, old) =
            (record { marked = v.marked; once = v.once }, live, here, others, old)

word_at :
    (s : Blocks) (n : ℕ)
    → n < nindirect
    → (s.addrs ndirect == 0) ≡ false
    → block_at s (ndirect + n) ≡ s.words (s.addrs ndirect) n
word_at s n lt live =
    let y : ltb (ndirect + n) ndirect ≡ false = ground arith in
    let z : (ndirect + n == 268) ≡ false = ground (arith, lt) in
    let e : ndirect + n - ndirect ≡ n = omega arith in
    simp y (simp z (simp live (ap (s.words (s.addrs ndirect)) e)))

word-Places :
    (s : Blocks) (n : ℕ)
    → IsOnce s
    → n < nindirect
    → (s.addrs ndirect == 0) ≡ false
    → Places 3 s (ndirect + n) (indirect n (some (s.addrs ndirect, s)))
word-Places s n v lt live =
    let e : block_at s (ndirect + n) ≡ s.words (s.addrs ndirect) n = word_at s n lt live in
    elim (Bool-cases (s.words (s.addrs ndirect) n == 0)) [
      | inl z ↦ simp z (
          log_stored-Places s (ndirect + n) (s.addrs ndirect)
            (store_block (put_word (s.addrs ndirect) n) (balloc s))
            (balloc-Places s (ndirect + n) (put_word (s.addrs ndirect) n) v (ap (λ x. x == 0) e ∙ z)
              (λ b u j. refl) (λ b u. refl) (λ b m free. word-Grown s n b v lt live free)))
      | inr m ↦
          let ((once, live', here, others, old), more, kept) =
            unmoved 3 s (ndirect + n) (s.words (s.addrs ndirect) n) v e m in
          simp m ((once, refl, here, others, old), more, kept)
    ]

Full-Crowded : (s : Blocks) → Full s → Crowded s
Full-Crowded s (inl e) = inl e
Full-Crowded s (inr h) = inr (λ x y l m e f. absurd (cc (h x l, e)))

-- Where all are marked after one more, no two were not.
OneMore-Crowded : (s u : Blocks) (b : ℕ) → OneMore s b u → Full u → Crowded s
OneMore-Crowded s u b m (inl e) = inl (m.old 0 e)
OneMore-Crowded s u b m (inr h) = inr (λ x y l k e f. is_b x l e ∙ sym (is_b y k f))
  where
    is_b : (x : ℕ) → x < s.size → s.used x ≡ false → x ≡ b
    is_b x l e = elim (m.new x e) [
      | inl n ↦ absurd (cc (h x (subst (λ z. x < z) (sym m.size) l), n))
      | inr y ↦ y
    ]

-- First the indirect block, then the word in it.
after_top :
    (s u : Blocks) (addr k : ℕ) (r : Option (ℕ × Blocks))
    → k < 268
    → OneMore s addr u
    → Kept 2 s.journal u.journal
    → ((l : ℕ) → l < places → (l == 268) ≡ false → block_at u l ≡ block_at s l)
    → Places 3 u k r
    → Maps s k r
after_top s u addr k none lt more kept same (inl h) = inl (OneMore-Crowded s u addr more h)
after_top s u addr k none lt more kept same (inr h) =
    inr (Short-later 2 3 5 s.journal u.journal refl kept h)
after_top s u addr k (some (b, w)) lt more kept same ((v, live, here, others, old), m, kept') =
    let e : block_at u k ≡ block_at s k = same k (omega (arith, lt)) (ground (arith, lt)) in
    (
      (
        v,
        live,
        here,
        (λ l m d. others l (omega (arith, m)) d ∙ same l (omega (arith, m)) (ground (arith, m))),
        (λ n. old (ap (λ x. x == 0) e ∙ n) ∙ e),
      ),
      Kept-later 2 3 5 s.journal u.journal w.journal refl kept kept',
    )

panics-Maps : (s : Blocks) → Full s ⊎ Short 2 s.journal → Crowded s ⊎ Short 5 s.journal
panics-Maps s (inl h) = inl (Full-Crowded s h)
panics-Maps s (inr h) = inr (Short-later 3 2 5 s.journal s.journal refl (refl, refl, omega arith) h)

indirect-Maps :
    (s : Blocks) (n : ℕ) (r : Option (ℕ × Blocks))
    → n < nindirect
    → Places 2 s 268 r
    → Maps s (ndirect + n) (indirect n r)
indirect-Maps s n none lt h = panics-Maps s h
indirect-Maps s n (some (addr, u)) lt ((v, live, here, others, old), more, kept) =
    after_top s u addr (ndirect + n) (indirect n (some (addr, u))) (omega (arith, lt)) more kept
      others
      (subst (λ a. Places 3 u (ndirect + n) (indirect n (some (a, u)))) here
        (word-Places u n v lt (ap (λ a. a == 0) here ∙ live)))

Places-Maps : (s : Blocks) (k : ℕ) (r : Option (ℕ × Blocks)) → Places 2 s k r → Maps s k r
Places-Maps s k none h = panics-Maps s h
Places-Maps s k (some (b, u)) ((v, live, here, others, old), m, kept) = (
  (v, live, here, (λ l m d. others l (omega (arith, m)) d), old),
  Kept-later 2 3 5 s.journal u.journal u.journal refl kept (refl, refl, omega arith),
)

-- For every inode none of whose blocks is named twice, and all of whose blocks are marked in the bitmap,
-- and every block number below MAXFILE: `bmap` panics only where block 0 is not marked, or at most one block
-- of the disk is not, or no transaction is open, or the log has no room for five more entries. Else the block that it answers is not 0 and is the one that the inode then has at
-- this number; where the inode had one it is that one, at all other numbers it has the block that it had,
-- and still no block is named twice and all are marked; the
-- same transactions are open, and the log has five more entries at most.
pub bmap-Maps : (s : Blocks) (bn : ℕ) → bn < 268 → IsOnce s → Maps s bn (bmap s bn)
unfolding bmap
bmap-Maps s bn lt v = elim (Bool-cases (ltb bn ndirect)) [
  | inl y ↦ simp y (Places-Maps s bn (direct s bn) (direct-Places s bn v (ground (arith, y))))
  | inr n ↦
      let e : ndirect + (bn - ndirect) ≡ bn = ground (arith, n) in
      let y : ltb (bn - ndirect) nindirect ≡ true = ground (arith, lt) in
      simp n (
        simp y (
          subst (λ k. Maps s k (indirect (bn - ndirect) (direct s ndirect))) e
            (indirect-Maps s (bn - ndirect) (direct s ndirect) (ground (arith, y))
              (top-Places s v))))
]
