-- ===== src/Thrd/Timer.antt =====
-- When the timer that `sys_thrdstop` of mp3/xv6/kernel/thrd.c sets goes off.
use spring_os_mp.Prelude.{ℕ, zero, suc, ◌<◌, ◌≤◌, true, false, some, ◌≡◌, refl, ◌∙◌, ap, arith, not}
use spring_os_mp.Prelude.Int.{pos, ltb_ℤ, ◌+ℤ◌}
use spring_os_mp.Thrd.Defs.{Proc, minus_one, thrdstop, timer_tick}

-- `n` timer interrupts.
abbrev pub ticks : ℕ → Proc → Proc
ticks zero p = p
ticks (suc n) p = timer_tick (ticks n p)

-- The process with `t` ticks counted of a delay of `d`.
abbrev counting : ℕ → ℕ → Proc → Proc
counting t d p = record p { thrdstop_ticks = pos t; thrdstop_delay = pos d }

pos-add : (t : ℕ) → pos t +ℤ pos 1 ≡ pos (suc t)
unfolding ◌+ℤ◌
pos-add t = ground arith

timer_tick-counting :
    (t d : ℕ) (p : Proc) → suc t < d → timer_tick (counting t d p) ≡ counting (suc t) d p
unfolding timer_tick
timer_tick-counting t d p h =
    let on : ltb_ℤ (pos 0) (pos d) ≡ true = ground arith in
    let wait : not (ltb_ℤ (pos (suc t)) (pos d)) ≡ false = ground arith in
    simp on (simp (pos-add t) (simp wait refl))

pub timer_tick-last :
    (t : ℕ) (p : Proc)
    → timer_tick (counting t (suc t) p)
      ≡ record p { thrdstop_ticks = pos (suc t); thrdstop_delay = minus_one; jump_flag = true }
unfolding timer_tick
timer_tick-last t p =
    let on : ltb_ℤ (pos 0) (pos (suc t)) ≡ true = ground arith in
    let fire : not (ltb_ℤ (pos (suc t)) (pos (suc t))) ≡ true = ground arith in
    simp on (simp (pos-add t) (simp fire refl))

ticks-counting : (k d : ℕ) (p : Proc) → k < d → ticks k (counting 0 d p) ≡ counting k d p
ticks-counting zero d p h = refl
ticks-counting (suc k) d p h =
    ap timer_tick (ticks-counting k d p (omega arith)) ∙ timer_tick-counting k d p h

-- After a call of `sys_thrdstop` with a delay of n + 1 that gives it an ID of its own and whose copies
-- succeed, up to n timer interrupts leave `jump_flag` as it was; the next one sets it and clears the
-- delay.
pub thrdstop-ticks :
    (n i handler handler_arg : ℕ) (p : Proc)
    → let q = (thrdstop (pos (suc n)) (some (pos i)) handler handler_arg true p).1 in
      ((k : ℕ) → k ≤ n → (ticks k q).jump_flag ≡ p.jump_flag)
      × ((ticks (suc n) q).jump_flag ≡ true)
      × ((ticks (suc n) q).thrdstop_delay ≡ minus_one)
unfolding thrdstop
thrdstop-ticks n i handler handler_arg p =
    let q : Proc = record p {
      thrdstop_context_id = pos i;
      thrdstop_handler_pointer = handler;
      thrdstop_handler_arg = handler_arg;
    } in
    let last : ticks (suc n) (counting 0 (suc n) q)
        ≡ record q { thrdstop_ticks = pos (suc n); thrdstop_delay = minus_one; jump_flag = true } =
      ap timer_tick (ticks-counting n (suc n) q (omega arith)) ∙ timer_tick-last n q in
    let named : ltb_ℤ (pos i) (pos 0) ≡ false = ground arith in
    simp named (
      (λ k h. ap (λ r. r.jump_flag) (ticks-counting k (suc n) q (omega arith))),
      ap (λ r. r.jump_flag) last,
      ap (λ r. r.thrdstop_delay) last,
    )
