-- ===== src/Fs/Blocks/Once.antt =====
-- `bmap` of mp4/kernel/fs.c gives no block twice.
use spring_os_mp.Prelude.{
  ℕ, ◌-◌, ◌<◌, true, false, ◌≡◌, refl, sym, ◌∙◌, ap, ◌==◌, ==_iff, ltb, Bool-cases, inl, inr,
  if◌then◌else◌,
}
use spring_os_mp.Prelude.Maps.{update_at, update_at-same}
use spring_os_mp.Fs.Blocks.{Blocks, ndirect}

-- The places of an inode: 268 blocks of data, and at 268 the indirect block. What a place names, or 0.
abbrev pub places : ℕ
places = 269

abbrev pub block_at : Blocks → ℕ → ℕ
block_at s k =
    if ltb k ndirect
    then s.addrs k
    else if k == 268
    then s.addrs ndirect
    else if s.addrs ndirect == 0
    then 0
    else s.words (s.addrs ndirect) (k - ndirect)

-- Every block that is named is marked, and none is named twice.
pub record IsOnce (s : Blocks) : Type 0 where
  pub marked : (k : ℕ) → k < places → (block_at s k == 0) ≡ false → s.used (block_at s k) ≡ true
  pub once :
      (k l : ℕ)
      → k < places
      → l < places
      → (block_at s k == 0) ≡ false
      → block_at s k ≡ block_at s l
      → k ≡ l

-- A state in which one place, that was free, names a block that was not marked, and all else is the same.
pub record Grown (s : Blocks) (k b : ℕ) (s' : Blocks) : Type 0 where
  pub free : s.used b ≡ false
  pub used : s'.used ≡ update_at s.used b true
  pub here : block_at s' k ≡ b
  pub others : (l : ℕ) → l < places → (l == k) ≡ false → block_at s' l ≡ block_at s l

pub Grown-IsOnce : (s : Blocks) (k b : ℕ) (s' : Blocks) → Grown s k b s' → IsOnce s → IsOnce s'
Grown-IsOnce s k b s' g v = record { marked = marked; once = once }
  where
    still : (x : ℕ) → s.used x ≡ true → s'.used x ≡ true
    still x h =
        ap (λ u. u x) g.used ∙ elim (Bool-cases (x == b)) [ inl y ↦ simp y refl | inr n ↦ simp n h ]

    marked_b : s'.used b ≡ true
    marked_b = ap (λ u. u b) g.used ∙ update_at-same s.used b true

    marked : (l : ℕ) → l < places → (block_at s' l == 0) ≡ false → s'.used (block_at s' l) ≡ true
    marked l lt h = elim (Bool-cases (l == k)) [
      | inl y ↦
          let e : block_at s' l ≡ b = ap (block_at s') ((==_iff l k).0 y) ∙ g.here in
          ap s'.used e ∙ marked_b
      | inr n ↦
          let e : block_at s' l ≡ block_at s l = g.others l lt n in
          ap s'.used e ∙ still (block_at s l) (v.marked l lt (ap (λ x. x == 0) (sym e) ∙ h))
    ]

    -- An old place does not name the new block.
    fresh : (l : ℕ) → l < places → (block_at s l == 0) ≡ false → block_at s l ≡ b → ⊥
    fresh l lt h e = cc (v.marked l lt h, ap s.used e, g.free)

    once :
        (l m : ℕ)
        → l < places
        → m < places
        → (block_at s' l == 0) ≡ false
        → block_at s' l ≡ block_at s' m
        → l ≡ m
    once l m lt mt h e = elim (Bool-cases (l == k)) [
      | inl y ↦ elim (Bool-cases (m == k)) [
        | inl z ↦ (==_iff l k).0 y ∙ sym ((==_iff m k).0 z)
        | inr n ↦
            let new : block_at s' l ≡ b = ap (block_at s') ((==_iff l k).0 y) ∙ g.here in
            let old : block_at s' m ≡ block_at s m = g.others m mt n in
            absurd (fresh m mt (ap (λ x. x == 0) (sym old ∙ sym e) ∙ h) (sym old ∙ sym e ∙ new))
      ]
      | inr n ↦
          let old : block_at s' l ≡ block_at s l = g.others l lt n in
          let live : (block_at s l == 0) ≡ false = ap (λ x. x == 0) (sym old) ∙ h in
          elim (Bool-cases (m == k)) [
            | inl z ↦
                let new : block_at s' m ≡ b = ap (block_at s') ((==_iff m k).0 z) ∙ g.here in
                absurd (fresh l lt live (sym old ∙ e ∙ new))
            | inr o ↦ v.once l m lt mt live (sym old ∙ e ∙ g.others m mt o)
          ]
    ]
