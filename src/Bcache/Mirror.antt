-- ===== src/Bcache/Mirror.antt =====
-- The simulated RAID 1 of mp4/kernel/bio.c: which copy of a block is read back after a write.
use spring_os_mp.Prelude.{
  ℕ_discrete, ℕ, ◌<◌, ◌≢◌, ◌≡◌, refl, sym, ◌∙◌, ap, Bool, true, false, not, ◌||◌, arith, Bool-cases,
  if◌then◌else◌, inl, inr, List,
}
use spring_os_mp.Prelude.Int.{eqb_ℤ, pos}
use spring_os_mp.Bcache.Defs.{
  Buf, Failure, Device, fill, bwrite, is_forced, mirror_of, to_int, uint_mod, logical_disk_size,
}
use spring_os_mp.Prelude.{◌⊎◌}

-- `bread` goes to the disk for this buffer.
abbrev pub goes_to_disk : Failure → Buf → Bool
goes_to_disk f c = not c.valid || is_forced f c.blockno

-- The copy that is read under `fr` is one that was written under `fw`.
abbrev pub Covers : Failure → Failure → ℕ → Type 0
Covers fw fr n =
    (if is_forced fr n then not (eqb_ℤ fw.force_disk_fail_id (pos 1)) else not (is_forced fw n))
    ≡ true

mirror-ne : (n : ℕ) → n < uint_mod → n ≢ mirror_of n
mirror-ne n h e = omega arith

module _ {D : Type 0} (device : Device D) where
  -- The disk after `bwrite`, by its three tests.
  abbrev copies : Bool → Bool → Bool → D → ℕ → List ℕ → D
  copies skip0 error0 skip1 d n block =
      let d0 : D = if skip0 then d else if error0 then d else device.write d n block in
      if skip1 then d0 else device.write d0 (mirror_of n) block

  copies-read :
      (skip0 error0 skip1 forced : Bool) (d : D) (n : ℕ) (block : List ℕ)
      → n < uint_mod
      → (if forced then not skip1 else not (skip0 || error0)) ≡ true
      → (if forced
          then device.read (copies skip0 error0 skip1 d n block) (mirror_of n)
          else device.read (copies skip0 error0 skip1 d n block) n)
        ≡ block
  copies-read skip0 error0 false true d n block lt h = device.read-write_same _ (mirror_of n) block
  copies-read skip0 error0 true true d n block lt h = cc
  copies-read true error0 skip1 false d n block lt h = cc
  copies-read false true skip1 false d n block lt h = cc
  copies-read false false true false d n block lt h = device.read-write_same d n block
  copies-read false false false false d n block lt h =
      device.read-write_other _ (mirror_of n) n block (λ e. mirror-ne n lt (sym e))
      ∙ device.read-write_same d n block

  copies-other :
      (skip0 error0 skip1 : Bool) (d : D) (n m : ℕ) (block : List ℕ)
      → n ≢ m
      → mirror_of n ≢ m
      → device.read (copies skip0 error0 skip1 d n block) m ≡ device.read d m
  copies-other true error0 true d n m block p q = refl
  copies-other true error0 false d n m block p q = device.read-write_other d (mirror_of n) m block q
  copies-other false true true d n m block p q = refl
  copies-other false true false d n m block p q = device.read-write_other d (mirror_of n) m block q
  copies-other false false true d n m block p q = device.read-write_other d n m block p
  copies-other false false false d n m block p q =
      device.read-write_other _ (mirror_of n) m block q ∙ device.read-write_other d n m block p

  -- What a read of block `n` takes from the disk.
  abbrev disk_read : Failure → D → ℕ → List ℕ
  disk_read f d n = if is_forced f n then device.read d (mirror_of n) else device.read d n

  fill-disk :
      (f : Failure) (d : D) (c : Buf)
      → goes_to_disk f c ≡ true
      → (fill device f d c).«data» ≡ (
          if is_forced f c.blockno
          then device.read d (mirror_of c.blockno)
          else device.read d c.blockno)
  unfolding fill
  fill-disk f d c e = simp e refl

  fill-cong :
      (f : Failure) (d d' : D) (c : Buf)
      → disk_read f d c.blockno ≡ disk_read f d' c.blockno
      → (fill device f d c).«data» ≡ (fill device f d' c).«data»
  unfolding fill
  fill-cong f d d' c e = elim (Bool-cases (goes_to_disk f c)) [
    | inl y ↦ simp y e
    | inr n ↦ simp n refl
  ]

  -- For every device, if the copy that `bread` reads under its failure setting is one that `bwrite`
  -- wrote under its own, a read of that block that goes to the disk gives what was written.
  pub fill-bwrite :
      (fw fr : Failure) (d : D) (b c : Buf)
      → c.blockno ≡ b.blockno
      → b.blockno < uint_mod
      → goes_to_disk fr c ≡ true
      → Covers fw fr b.blockno
      → (fill device fr (bwrite device fw d b) c).«data» ≡ b.«data»
  unfolding bwrite
  fill-bwrite fw fr d b c same lt goes h =
      fill-disk fr (bwrite device fw d b) c goes
      ∙ ap (disk_read fr (bwrite device fw d b)) same
      ∙ copies-read (eqb_ℤ fw.force_disk_fail_id (pos 0))
          (eqb_ℤ fw.force_read_error_pbn (to_int b.blockno)) (eqb_ℤ fw.force_disk_fail_id (pos 1))
          (is_forced fr b.blockno) d b.blockno b.«data» lt h

  -- For every device and failure settings, a write of one block of the logical disk leaves what a read
  -- of any other block of it gives as it was.
  pub fill-bwrite_other :
      (fw fr : Failure) (d : D) (b c : Buf)
      → b.blockno < logical_disk_size
      → c.blockno < logical_disk_size
      → b.blockno ≢ c.blockno
      → (fill device fr (bwrite device fw d b) c).«data» ≡ (fill device fr d c).«data»
  unfolding bwrite
  fill-bwrite_other fw fr d b c lb lc ne = fill-cong fr (bwrite device fw d b) d c (
      either (is_forced fr c.blockno) (λ m. device.read (bwrite device fw d b) m) (device.read d)
        (mirror_of c.blockno) c.blockno
        (other_at (mirror_of c.blockno) (λ e. ne_mirror (sym e)) (λ e. ne_mirrors e))
        (other_at c.blockno ne ne_low))
    where
      ne_mirror : mirror_of c.blockno ≢ b.blockno
      ne_mirror e = omega arith

      ne_mirrors : mirror_of b.blockno ≢ mirror_of c.blockno
      ne_mirrors e = ne (omega arith)

      ne_low : mirror_of b.blockno ≢ c.blockno
      ne_low e = omega arith

      other_at :
          (m : ℕ)
          → b.blockno ≢ m
          → mirror_of b.blockno ≢ m
          → device.read (bwrite device fw d b) m ≡ device.read d m
      other_at m p q =
          copies-other (eqb_ℤ fw.force_disk_fail_id (pos 0))
            (eqb_ℤ fw.force_read_error_pbn (to_int b.blockno)) (eqb_ℤ fw.force_disk_fail_id (pos 1))
            d b.blockno m b.«data» p q

      either :
          (t : Bool) (p q : ℕ → List ℕ) (m n : ℕ)
          → p m ≡ q m
          → p n ≡ q n
          → (if t then p m else p n) ≡ (if t then q m else q n)
      either true p q m n x y = x
      either false p q m n x y = y

  -- The two copies of a block are the same.
  abbrev pub IsMirrored : D → ℕ → Type 0
  IsMirrored d n = device.read d n ≡ device.read d (mirror_of n)

  copies-IsMirrored :
      (skip0 error0 skip1 : Bool) (d : D) (k n : ℕ) (block : List ℕ)
      → k < logical_disk_size
      → n < logical_disk_size
      → (skip0 || error0) ≡ false
      → skip1 ≡ false
      → (n ≡ k) ⊎ IsMirrored d n
      → IsMirrored (copies skip0 error0 skip1 d k block) n
  copies-IsMirrored true error0 skip1 d k n block lk ln a1 a2 h = cc
  copies-IsMirrored false true skip1 d k n block lk ln a1 a2 h = cc
  copies-IsMirrored false false true d k n block lk ln a1 a2 h = cc
  copies-IsMirrored false false false d k n block lk ln a1 a2 h = elim (ℕ_discrete k n) [
    | yes e ↦
        ap (device.read (copies false false false d k block)) (sym e)
        ∙ copies-read false false false false d k block (omega arith) refl
        ∙ sym (copies-read false false false true d k block (omega arith) refl)
        ∙ ap (λ m. device.read (copies false false false d k block) (mirror_of m)) e
    | no ne ↦
        copies-other false false false d k n block ne (λ e. low e)
        ∙ before ne h
        ∙ sym (
            copies-other false false false d k (mirror_of n) block (λ e. high e)
              (λ e. ne (omega arith)))
  ]
    where
      low : mirror_of k ≢ n
      low e = omega arith

      high : k ≢ mirror_of n
      high e = omega arith

      before : k ≢ n → (n ≡ k) ⊎ IsMirrored d n → IsMirrored d n
      before ne (inl e) = absurd (ne (sym e))
      before ne (inr m) = m

  -- With no failure simulated, after `bwrite` of a block of the logical disk the two copies of that block
  -- are the same, whatever they were, and so are those of every other block whose copies were.
  pub bwrite-IsMirrored :
      (f : Failure) (d : D) (b : Buf) (n : ℕ)
      → b.blockno < logical_disk_size
      → n < logical_disk_size
      → is_forced f b.blockno ≡ false
      → eqb_ℤ f.force_disk_fail_id (pos 1) ≡ false
      → (n ≡ b.blockno) ⊎ IsMirrored d n
      → IsMirrored (bwrite device f d b) n
  unfolding bwrite
  bwrite-IsMirrored f d b n lt ln a1 a2 h =
      copies-IsMirrored (eqb_ℤ f.force_disk_fail_id (pos 0))
        (eqb_ℤ f.force_read_error_pbn (to_int b.blockno)) (eqb_ℤ f.force_disk_fail_id (pos 1)) d
        b.blockno n b.«data» lt ln a1 a2 h
