-- ===== src/X86/Timer.antt =====
-- The timer, kernel/arch/x86/timer.cpp. The tick count is a uint32_t. The halt instruction in sleep
-- ends with an interrupt, here the timer's.
use weird_os.Base.{
  ℕ, zero, suc, ◌+◌, ◌/◌, ◌%◌, ◌^◌, ◌≤◌, ◌<◌, ◌≡◌, sym, ap, ◌∙◌, arith, ltb, if◌then◌else◌, Option,
  none, some, List, [], ◌∷◌, Bool-cases, inl, inr, add32, sub32,
}

unfoldable pub timer_handler : (timer_ticks : ℕ) → ℕ
timer_handler timer_ticks = add32 timer_ticks 1

-- The bytes written to the timer's ports.
unfoldable pub timer_set_phase : (hz : ℕ) → List (ℕ × ℕ)
timer_set_phase hz =
    let divisor = 1193180 / hz in
    (0x43, 0x36) ∷ (0x40, divisor % 2 ^ 8) ∷ (0x40, divisor / 2 ^ 8 % 2 ^ 8) ∷ []

-- `while (timer_ticks - timer_start < ms)`; the result is the tick count at the end.
unfoldable pub sleep_loop : ℕ → (timer_start timer_ticks ms : ℕ) → Option ℕ
sleep_loop zero timer_start timer_ticks ms = none
sleep_loop (suc fuel) timer_start timer_ticks ms =
    let rest = sleep_loop fuel timer_start (timer_handler timer_ticks) ms in
    if ltb (sub32 timer_ticks timer_start) ms then rest else some timer_ticks

unfoldable pub sleep : ℕ → (timer_ticks ms : ℕ) → Option ℕ
sleep fuel timer_ticks ms = sleep_loop fuel timer_ticks timer_ticks ms

elapsed : (start k : ℕ) → start < 2 ^ 32 → k < 2 ^ 32 → sub32 ((start + k) % 2 ^ 32) start ≡ k
unfolding sub32
elapsed start k h l = omega arith

next_tick : (start k : ℕ) → timer_handler ((start + k) % 2 ^ 32) ≡ (start + (k + 1)) % 2 ^ 32
unfolding timer_handler add32
next_tick start k = omega arith

sleep_loop-ticks :
    (fuel start ms k : ℕ)
    → start < 2 ^ 32
    → ms < 2 ^ 32
    → k ≤ ms
    → ms < fuel + k
    → sleep_loop fuel start ((start + k) % 2 ^ 32) ms ≡ some ((start + ms) % 2 ^ 32)
unfolding sleep_loop
sleep_loop-ticks zero start ms k word word' within enough = absurd (omega arith)
sleep_loop-ticks (suc fuel) start ms k word word' within enough =
    let e = elapsed start k word (omega arith) in
    elim (Bool-cases (ltb k ms)) [
      | inl more ↦
          rw (e, more, next_tick start k)
            (sleep_loop-ticks fuel start ms (k + 1) word word' (ground arith) (omega arith))
      | inr done ↦
          let at : k ≡ ms = ground arith in rw (e, done) (ap (λ j. some ((start + j) % 2 ^ 32)) at)
    ]

-- sleep returns after exactly as many ticks as were asked for, wherever the tick count wraps
-- around, given fuel for every tick.
pub sleep-ticks :
    (fuel timer_ticks ms : ℕ)
    → timer_ticks < 2 ^ 32
    → ms < 2 ^ 32
    → ms < fuel
    → sleep fuel timer_ticks ms ≡ some ((timer_ticks + ms) % 2 ^ 32)
unfolding sleep
sleep-ticks fuel timer_ticks ms word word' enough =
    let now : (timer_ticks + 0) % 2 ^ 32 ≡ timer_ticks = omega arith in
    ap (λ t. sleep_loop fuel timer_ticks t ms) (sym now)
    ∙ sleep_loop-ticks fuel timer_ticks ms 0 word word' (omega arith) (omega arith)
