-- ===== src/Journal/WriteLog.antt =====
-- `write_log`: the log gets a copy of each block, and nothing else changes.
use spring_os_mp.Prelude.{
  ℕ, suc, ◌+◌, ◌≤◌, ◌<◌, List, [], ◌∷◌, ◌≡◌, refl, sym, ◌∙◌, ◌⊎◌, length, arith,
}
use spring_os_mp.Prelude.Fold.{All, All-map}
use spring_os_mp.Journal.Blocks.{Disk, Blocks, bread, modify, bwrite}
use spring_os_mp.Journal.Defs.{log_entries, write_log_from}
use spring_os_mp.Journal.Install.{IsHome, Logged}

-- What `write_log` does from entry `tail` on.
pub record Copied (start tail : ℕ) (bs : List ℕ) (s t : Blocks) : Type 1 where
  pub in_cache : (c : ℕ) → (c ≤ start + tail) ⊎ (start + log_entries < c) → t.cached c ≡ s.cached c
  pub on_disk : (c : ℕ) → (c ≤ start + tail) ⊎ (start + log_entries < c) → t.disk c ≡ s.disk c
  pub logged_cache : Logged start tail bs t.cached s.cached
  pub logged_disk : Logged start tail bs t.disk s.cached
  pub on_the_way :
      (Q : Disk → Type 0)
      → ((d : Disk) → ((c : ℕ) → (c ≤ start) ⊎ (start + log_entries < c) → d c ≡ s.disk c) → Q d)
      → All Q s.images
      → All Q t.images

-- `Logged` only reads blocks from entry `tail` on, and targets of the blocks.
Logged-map :
    (start tail : ℕ) (bs : List ℕ) (d g g' : Disk)
    → All (λ b. g' b ≡ g b) bs
    → Logged start tail bs d g
    → Logged start tail bs d g'
Logged-map start tail [] d g g' same l = tt
Logged-map start tail (b ∷ bs) d g g' same l =
    (l.0 ∙ sym (same.0), Logged-map start (suc tail) bs d g g' same.1 l.1)

pub write_log_from-Copied :
    (start tail : ℕ) (bs : List ℕ) (s : Blocks)
    → All (IsHome start) bs
    → tail + length bs ≤ log_entries
    → Copied start tail bs s (write_log_from start tail bs s)
unfolding write_log_from
write_log_from-Copied start tail [] s home fits = record {
  in_cache = λ c h. refl;
  on_disk = λ c h. refl;
  logged_cache = tt;
  logged_disk = tt;
  on_the_way = λ Q q all. all;
}
write_log_from-Copied start tail (b ∷ bs) s home fits =
    let at : ℕ = start + tail + 1 in
    let s' : Blocks = bwrite (modify s at (bread s b)) at in
    let rest = write_log_from-Copied start (suc tail) bs s' home.1 (omega arith) in
    let same : All (λ x. s.cached x ≡ s'.cached x) bs = All-map bs (λ x h. ground arith) home.1 in
    record {
      in_cache = λ c h. ground (arith, rest.in_cache c);
      on_disk = λ c h. ground (arith, rest.on_disk c);
      logged_cache = (
        ground (arith, rest.in_cache at),
        Logged-map start (suc tail) bs _ s'.cached s.cached same rest.logged_cache,
      );
      logged_disk = (
        ground (arith, rest.on_disk at),
        Logged-map start (suc tail) bs _ s'.cached s.cached same rest.logged_disk,
      );
      on_the_way = λ Q q all.
          rest.on_the_way Q (λ d h. q d (λ c k. ground (arith, h c)))
            (q s'.disk (λ c k. ground arith), all);
    }
