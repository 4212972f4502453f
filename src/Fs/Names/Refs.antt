-- ===== src/Fs/Names/Refs.antt =====
-- The references around `sys_link` and `sys_unlink` of mp4/kernel/sysfile.c.
use spring_os_mp.Prelude.{
  ℕ, ◌+◌, ◌^◌, ◌<◌, arith, Bool, true, false, Option, some, none, List, refl, ◌∙◌, ◌==◌, not, ◌||◌,
  leb, Bool-cases, inl, inr, if◌then◌else◌,
}
use spring_os_mp.Strings.Defs.{Memory}
use spring_os_mp.Fs.Defs.{Fs, iget, ilock, iput, t_dir}
use spring_os_mp.Fs.Dir.{Lookup, dirlookup, dirlink}
use spring_os_mp.Fs.Counts.{Counts, and_one, Small, iget-Counts, iput-Counts, Locked, ilock-Locked}
use spring_os_mp.Fs.Walk.{Outcome, namex}
use spring_os_mp.Fs.Walk.Refs.{Balanced, fits, grown, swapped, namex-Balances}
use spring_os_mp.Fs.Link.{plain_call}
use spring_os_mp.Fs.Create.{parent_call}
use spring_os_mp.Fs.Open.{Os}
use spring_os_mp.Fs.Calls.{Return}
use spring_os_mp.Fs.Calls.Refs.{Leaves}
use spring_os_mp.Fs.Names.{
  more_links, fewer_links, unlink_back, name_entry, name_in, name_parent, link_old, link_found,
  sys_link, isdirempty, not_removed, remove, remove_if, remove_entry, remove_found, is_dots,
  remove_in, remove_path, sys_unlink,
}
use spring_os_mp.Fs.Defs.{put_inode}

abbrev pub Keeps : (ℕ → ℕ) → Return → Type 0
Keeps f r = Leaves (λ x. Counts x.fs f) r

module _ (f : ℕ → ℕ) (small : Small f) where
  unlink_back-Keeps :
      (os : Os) (m : Memory) (ip : ℕ) (s : Fs) (r : Option Fs)
      → Locked s r
      → Counts s (and_one f ip)
      → Keeps f (unlink_back os m ip r)
  unlink_back-Keeps os m ip s none l h = tt
  unlink_back-Keeps os m ip s (some t) l h =
      iput-Counts (fewer_links t ip) f ip (fits f small ip) (λ j. l.1 j ∙ h j)

  name_entry-Keeps :
      (os : Os) (m : Memory) (ip dp : ℕ) (s : Fs) (r : Option (Option (List ℕ)))
      → Counts s (and_one (and_one f ip) dp)
      → Keeps f (name_entry os m ip dp s r)
  name_entry-Keeps os m ip dp s none h = tt
  name_entry-Keeps os m ip dp s (some none) h =
      let s' : Fs = iput s dp in
      unlink_back-Keeps os m ip s' (ilock s' ip) (ilock-Locked s' ip)
        (iput-Counts s (and_one f ip) dp (grown f small ip dp) h)
  name_entry-Keeps os m ip dp s (some (some content)) h =
      let s' : Fs = put_inode s dp (record (s.inode dp) { content = content }) in
      iput-Counts (iput s' dp) f ip (fits f small ip)
        (iput-Counts s' (and_one f ip) dp (grown f small ip dp) h)

  name_in-Keeps :
      (os : Os) (m : Memory) (ip dp : ℕ) (name : List ℕ) (s : Fs) (r : Option Fs)
      → Locked s r
      → Counts s (and_one (and_one f ip) dp)
      → Keeps f (name_in os m ip dp name r)
  name_in-Keeps os m ip dp name s none l h = tt
  name_in-Keeps os m ip dp name s (some t) l h =
      elim (Bool-cases (not ((t.inode dp).type == t_dir))) [
        | inl y ↦ simp y tt
        | inr n ↦ simp n (
            name_entry-Keeps os m ip dp t (dirlink (t.stores dp) (t.inode dp).content name ip)
              (λ j. l.1 j ∙ h j))
      ]

  name_parent-Keeps :
      (os : Os) (ip : ℕ) (o : Outcome) → Balanced (and_one f ip) o → Keeps f (name_parent os ip o)
  name_parent-Keeps os ip Outcome.panic h = tt
  name_parent-Keeps os ip Outcome.out_of_fuel h = tt
  name_parent-Keeps os ip (Outcome.result none name m s) h =
      unlink_back-Keeps os m ip s (ilock s ip) (ilock-Locked s ip) h
  name_parent-Keeps os ip (Outcome.result (some dp) name m s) h =
      name_in-Keeps os m ip dp name s (ilock s dp) (ilock-Locked s dp) h

  link_old-Keeps :
      (fuel : ℕ) (os : Os) (new : ℕ) (m : Memory) (ip : ℕ) (s : Fs) (r : Option Fs)
      → Small (and_one f ip)
      → Locked s r
      → Counts s (and_one f ip)
      → Keeps f (link_old fuel os new m ip r)
  link_old-Keeps fuel os new m ip s none few l h = tt
  link_old-Keeps fuel os new m ip s (some t) few l h =
      let counts : Counts t (and_one f ip) = (λ j. l.1 j ∙ h j) in
      elim (Bool-cases ((t.inode ip).type == t_dir)) [
        | inl y ↦ simp y (iput-Counts t f ip (fits f small ip) counts)
        | inr n ↦ simp n (
            name_parent-Keeps os ip (namex fuel (parent_call os.cwd) (more_links t ip) m new) (
              namex-Balances (and_one f ip) fuel (parent_call os.cwd) (more_links t ip) m new few
                counts))
      ]

  link_found-Keeps :
      (fuel : ℕ) (os : Os) (new : ℕ) (o : Outcome)
      → ((i : ℕ) → Small (and_one f i))
      → Balanced f o
      → Keeps f (link_found fuel os new o)
  link_found-Keeps fuel os new Outcome.panic few h = tt
  link_found-Keeps fuel os new Outcome.out_of_fuel few h = tt
  link_found-Keeps fuel os new (Outcome.result none name m s) few h = h
  link_found-Keeps fuel os new (Outcome.result (some ip) name m s) few h =
      link_old-Keeps fuel os new m ip s (ilock s ip) (few ip) (ilock-Locked s ip) h

  not_removed-Keeps :
      (os : Os) (m : Memory) (s : Fs) (dp : ℕ)
      → Counts s (and_one f dp)
      → Keeps f (not_removed os m s dp)
  not_removed-Keeps os m s dp h = iput-Counts s f dp (fits f small dp) h

  remove-Keeps :
      (os : Os) (m : Memory) (s : Fs) (dp off ip : ℕ)
      → Counts s (and_one (and_one f dp) ip)
      → Keeps f (remove os m s dp off ip)
  remove-Keeps os m s dp off ip h =
      let g : ℕ → ℕ = and_one (and_one f ip) dp in
      let h' : Counts s g = (λ j. h j ∙ swapped f small dp ip j) in
      let last : (t : Fs) → Counts t g → Counts (iput (fewer_links (iput t dp) ip) ip) f = λ t k.
        iput-Counts (fewer_links (iput t dp) ip) f ip (fits f small ip)
          (iput-Counts t (and_one f ip) dp (grown f small ip dp) k) in
      elim (Bool-cases ((s.inode ip).type == t_dir)) [
        | inl y ↦ simp y (last _ h')
        | inr n ↦ simp n (last _ h')
      ]

  remove_if-Keeps :
      (os : Os) (m : Memory) (s : Fs) (dp off ip : ℕ) (r : Option Bool)
      → Counts s (and_one (and_one f dp) ip)
      → Keeps f (remove_if os m s dp off ip r)
  remove_if-Keeps os m s dp off ip none h = tt
  remove_if-Keeps os m s dp off ip (some true) h = remove-Keeps os m s dp off ip h
  remove_if-Keeps os m s dp off ip (some false) h =
      not_removed-Keeps os m (iput s ip) dp
        (iput-Counts s (and_one f dp) ip (grown f small dp ip) h)

  remove_entry-Keeps :
      (os : Os) (m : Memory) (dp off ip : ℕ) (s : Fs) (r : Option Fs)
      → Locked s r
      → Counts s (and_one (and_one f dp) ip)
      → Keeps f (remove_entry os m dp off ip r)
  remove_entry-Keeps os m dp off ip s none l h = tt
  remove_entry-Keeps os m dp off ip s (some t) l h =
      let x = t.inode ip in
      elim (Bool-cases (x.nlink == 0 || leb (2 ^ 15) x.nlink)) [
        | inl y ↦ simp y tt
        | inr n ↦ simp n (
            remove_if-Keeps os m t dp off ip
              (if x.type == t_dir then isdirempty x.content else some true) (λ j. l.1 j ∙ h j))
      ]

  remove_found-Keeps :
      (os : Os) (m : Memory) (s : Fs) (dp : ℕ) (l : Lookup)
      → Counts s (and_one f dp)
      → Keeps f (remove_found os m s dp l)
  remove_found-Keeps os m s dp Lookup.broken h = tt
  remove_found-Keeps os m s dp Lookup.missing h = not_removed-Keeps os m s dp h
  remove_found-Keeps os m s dp (Lookup.entry off i) h =
      remove_entry-Keeps os m dp off i (iget s i) (ilock (iget s i) i) (ilock-Locked (iget s i) i)
        (iget-Counts s (and_one f dp) i (grown f small dp i) h)

  remove_in-Keeps :
      (os : Os) (m : Memory) (dp : ℕ) (name : List ℕ) (s : Fs) (r : Option Fs)
      → Locked s r
      → Counts s (and_one f dp)
      → Keeps f (remove_in os m dp name r)
  remove_in-Keeps os m dp name s none l h = tt
  remove_in-Keeps os m dp name s (some t) l h =
      let counts : Counts t (and_one f dp) = (λ j. l.1 j ∙ h j) in
      elim (Bool-cases (is_dots name)) [
        | inl y ↦ simp y (not_removed-Keeps os m t dp counts)
        | inr n ↦ elim (Bool-cases (not ((t.inode dp).type == t_dir))) [
          | inl z ↦ simp n (simp z tt)
          | inr d ↦
              simp n
                (simp d (remove_found-Keeps os m t dp (dirlookup (t.inode dp).content name) counts))
        ]
      ]

  remove_path-Keeps : (os : Os) (o : Outcome) → Balanced f o → Keeps f (remove_path os o)
  remove_path-Keeps os Outcome.panic h = tt
  remove_path-Keeps os Outcome.out_of_fuel h = tt
  remove_path-Keeps os (Outcome.result none name m s) h = h
  remove_path-Keeps os (Outcome.result (some dp) name m s) h =
      remove_in-Keeps os m dp name s (ilock s dp) (ilock-Locked s dp) h

-- For every state whose counts of references are below 2^28, whatever `sys_link` and `sys_unlink` answer,
-- all counts are as before.
pub sys_unlink-Keeps :
    (fuel : ℕ) (os : Os) (old new p : ℕ)
    → ((j : ℕ) → (os.fs.entry j).ref < 2 ^ 28)
    → Keeps (λ j. (os.fs.entry j).ref) (sys_link fuel os old new)
      × Keeps (λ j. (os.fs.entry j).ref) (sys_unlink fuel os p)
unfolding sys_link sys_unlink
sys_unlink-Keeps fuel os old new p few =
    let f : ℕ → ℕ = λ j. (os.fs.entry j).ref in
    let small : Small f = λ j. omega (arith, few j) in
    (
      link_found-Keeps f small fuel os new (namex fuel (plain_call os.cwd) os.fs os.memory old)
          (λ i j. below (f j) (j == i) (few j))
          (namex-Balances f fuel (plain_call os.cwd) os.fs os.memory old small (λ j. refl)),
      remove_path-Keeps f small os (namex fuel (parent_call os.cwd) os.fs os.memory p)
          (namex-Balances f fuel (parent_call os.cwd) os.fs os.memory p small (λ j. refl)),
    )
  where
    below : (k : ℕ) (b : Bool) → k < 2 ^ 28 → k + (if b then 1 else 0) < 2 ^ 29
    below k true h = omega arith
    below k false h = omega arith
