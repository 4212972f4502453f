-- ===== src/Fs/Create/Refs.antt =====
-- `create` of mp4/kernel/sysfile.c holds the references that it should.
use spring_os_mp.Prelude.{
  ℕ, ◌+◌, ◌-◌, Option, some, none, List, [], ◌∷◌, ◌∙◌, ◌==◌, not, ◌&&◌, ◌||◌, Bool-cases, inl, inr,
}
use spring_os_mp.Prelude.Int.{ℤ, pos}
use spring_os_mp.Strings.Defs.{Memory}
use spring_os_mp.Fs.Defs.{Fs, Inode, iget, ilock, iput, put_inode, m_all, t_dir, t_file, t_device}
use spring_os_mp.Fs.Dir.{Lookup, dirlookup, dirlink}
use spring_os_mp.Fs.Counts.{Counts, and_one, Small, iget-Counts, iput-Counts, Locked, ilock-Locked}
use spring_os_mp.Fs.Walk.{Outcome, namex}
use spring_os_mp.Fs.Walk.Refs.{Balanced, fits, grown, swapped, entered, namex-Balances}
use spring_os_mp.Fs.Create.{
  claim, ialloc, first_free, with_content, link_in, then_link, dots, created, fill_new, make_new,
  take_old, by_name, at_parent, in_parent, parent_call, create,
}
use spring_os_mp.Fs.Defs.{short_mod}
use spring_os_mp.Prelude.{◌%◌}

-- What an operation on directories leaves of the counts.
abbrev Kept : (ℕ → ℕ) → Option Fs → Type 0
Kept f none = Unit
Kept f (some s) = Counts s f

with_content-Kept :
    (f : ℕ → ℕ) (s : Fs) (d : ℕ) (r : Option (Option (List ℕ)))
    → Counts s f
    → Kept f (with_content s d r)
with_content-Kept f s d none h = tt
with_content-Kept f s d (some none) h = tt
with_content-Kept f s d (some (some content)) h = h

then_link-Kept :
    (f : ℕ → ℕ) (r : Option Fs) (d : ℕ) (name : List ℕ) (i : ℕ)
    → Kept f r
    → Kept f (then_link r d name i)
then_link-Kept f none d name i h = tt
then_link-Kept f (some s) d name i h =
    with_content-Kept f s d (dirlink (s.stores d) (s.inode d).content name i) h

dots-Kept : (f : ℕ → ℕ) (s : Fs) (dp i : ℕ) → Counts s f → Kept f (dots s dp i)
dots-Kept f s dp i h =
    let s' : Fs =
      put_inode s dp (record (s.inode dp) { nlink = ((s.inode dp).nlink + 1) % short_mod }) in
    then_link-Kept f (link_in s' i (b'.' ∷ []) i) i (b'.' ∷ b'.' ∷ []) dp
      (with_content-Kept f s' i (dirlink (s'.stores i) (s'.inode i).content (b'.' ∷ []) i) h)

module _ (f : ℕ → ℕ) (small : Small f) where
  created-Balanced :
      (m : Memory) (dp i : ℕ) (r : Option Fs)
      → Kept (and_one (and_one f dp) i) r
      → Balanced f (created m dp i r)
  created-Balanced m dp i none h = tt
  created-Balanced m dp i (some s) h =
      iput-Counts s (and_one f i) dp (grown f small i dp) (λ j. h j ∙ swapped f small dp i j)

  fill_new-Balanced :
      (type : ℕ) (major : ℤ) (m : Memory) (dp : ℕ) (name : List ℕ) (i : ℕ) (s : Fs) (r : Option Fs)
      → Locked s r
      → Counts s (and_one (and_one f dp) i)
      → Balanced f (fill_new type major m dp name i r)
  fill_new-Balanced type major m dp name i s none l h = tt
  fill_new-Balanced type major m dp name i s (some t) l h =
      let g : ℕ → ℕ = and_one (and_one f dp) i in
      let t' : Fs = put_inode t i (record (t.inode i) { major = major; nlink = 1; mode = m_all }) in
      let counts : Counts t' g = (λ j. l.1 j ∙ h j) in
      elim (Bool-cases (type == t_dir)) [
        | inl y ↦ simp y (
            created-Balanced m dp i (then_link (dots t' dp i) dp name i)
              (then_link-Kept g (dots t' dp i) dp name i (dots-Kept g t' dp i counts)))
        | inr n ↦ simp n (
            created-Balanced m dp i (then_link (some t') dp name i)
              (then_link-Kept g (some t') dp name i counts))
      ]

  make_new-Balanced :
      (type : ℕ) (major : ℤ) (s : Fs) (m : Memory) (dp : ℕ) (name : List ℕ) (r : Option ℕ)
      → Counts s (and_one f dp)
      → Balanced f (make_new type major m dp name (claim s type r))
  make_new-Balanced type major s m dp name none h = tt
  make_new-Balanced type major s m dp name (some i) h =
      let x : Inode = record {
        type = type;
        major = pos 0;
        mode = m_all;
        nlink = 0;
        content = [];
      } in
      let s' : Fs = iget (put_inode s i x) i in
      fill_new-Balanced type major m dp name i s' (ilock s' i) (ilock-Locked s' i)
        (iget-Counts (put_inode s i x) (and_one f dp) i (grown f small dp i) h)

  take_old-Balanced :
      (type : ℕ) (m : Memory) (i : ℕ) (s : Fs) (r : Option Fs)
      → Locked s r
      → Counts s (and_one f i)
      → Balanced f (take_old type m i r)
  take_old-Balanced type m i s none l h = tt
  take_old-Balanced type m i s (some t) l h =
      let counts : Counts t (and_one f i) = (λ j. l.1 j ∙ h j) in
      elim (Bool-cases
        (type == t_file && ((t.inode i).type == t_file || (t.inode i).type == t_device))) [
          | inl y ↦ simp y counts
          | inr n ↦ simp n (iput-Counts t f i (fits f small i) counts)
        ]

  by_name-Balanced :
      (type : ℕ) (major : ℤ) (s : Fs) (m : Memory) (dp : ℕ) (name : List ℕ) (l : Lookup)
      → Counts s (and_one f dp)
      → Balanced f (by_name type major s m dp name l)
  unfolding ialloc
  by_name-Balanced type major s m dp name Lookup.broken h = tt
  by_name-Balanced type major s m dp name (Lookup.entry off i) h =
      let s' : Fs = iput (iget s i) dp in
      take_old-Balanced type m i s' (ilock s' i) (ilock-Locked s' i) (entered f small s dp i h)
  by_name-Balanced type major s m dp name Lookup.missing h =
      make_new-Balanced type major s m dp name (first_free s.inode 1 (s.ninodes - 1)) h

  at_parent-Balanced :
      (type : ℕ) (major : ℤ) (m : Memory) (dp : ℕ) (name : List ℕ) (s : Fs) (r : Option Fs)
      → Locked s r
      → Counts s (and_one f dp)
      → Balanced f (at_parent type major m dp name r)
  at_parent-Balanced type major m dp name s none l h = tt
  at_parent-Balanced type major m dp name s (some t) l h =
      elim (Bool-cases (not ((t.inode dp).type == t_dir))) [
        | inl y ↦ simp y tt
        | inr n ↦ simp n (
            by_name-Balanced type major t m dp name (dirlookup (t.inode dp).content name)
              (λ j. l.1 j ∙ h j))
      ]

  in_parent-Balanced :
      (type : ℕ) (major : ℤ) (o : Outcome) → Balanced f o → Balanced f (in_parent type major o)
  in_parent-Balanced type major Outcome.panic h = tt
  in_parent-Balanced type major Outcome.out_of_fuel h = tt
  in_parent-Balanced type major (Outcome.result none name m s) h = h
  in_parent-Balanced type major (Outcome.result (some dp) name m s) h =
      at_parent-Balanced type major m dp name s (ilock s dp) (ilock-Locked s dp) h

-- The references around a call of `create`.
pub create-Balances :
    (f : ℕ → ℕ) (fuel cwd : ℕ) (s : Fs) (m : Memory) (p type : ℕ) (major : ℤ)
    → Small f
    → Counts s f
    → Balanced f (create fuel cwd s m p type major)
unfolding create
create-Balances f fuel cwd s m p type major small h =
    in_parent-Balanced f small type major (namex fuel (parent_call cwd) s m p)
      (namex-Balances f fuel (parent_call cwd) s m p small h)
