-- ===== src/Runner/Delays.antt =====
-- How long the task runner waits (pkg/reef/client/task_runner.go).
use reef.Prelude.{
  ℕ, zero, suc, ◌+◌, ◌*◌, ◌^◌, ◌≤◌, ◌<◌, ◌≡◌, refl, inl, inr, Bool, true, false, arith, ltb, ◌==◌,
  if◌then◌else◌, Bool-cases,
}
use reef.Prelude.Int.{ℤ, pos, eqb_ℤ}
use reef.Runner.{delay_after}

eqb_ℤ_lem : (a b : ℤ) → eqb_ℤ a b ≡ true → a ≡ b
eqb_ℤ_lem a b h = ground arith

-- No wait after `rounds` attempts in a row, the first of them `from`
never_waits : ℕ → ℕ → Bool
never_waits from zero = true
never_waits from (suc rounds) =
    if eqb_ℤ (delay_after 1_000_000_000 from) (pos 0) then never_waits (from + 1) rounds else false

no_wait_at :
    (from rounds n : ℕ)
    → never_waits from rounds ≡ true
    → from ≤ n
    → n < from + rounds
    → delay_after 1_000_000_000 n ≡ pos 0
unfolding never_waits
no_wait_at from zero n h a b = absurd (omega arith)
no_wait_at from (suc rounds) n h a b =
    elim (Bool-cases (eqb_ℤ (delay_after 1_000_000_000 from) (pos 0))) [
      | inr e ↦ absurd (ground (arith, rw e at h))
      | inl e ↦ elim (Bool-cases (from == n)) [
        | inl s ↦ let same : from ≡ n = ground arith in rw (← same) (eqb_ℤ_lem _ _ e)
        | inr s ↦ no_wait_at (from + 1) rounds n (rw e at h) (ground arith) (omega arith)
      ]
    ]

last_waits : never_waits 55 9 ≡ true
unfolding never_waits delay_after
last_waits = refl

-- As long as the wait fits into a word, it doubles with every attempt, up to thirty seconds.
pub delay_doubles :
    (base n : ℕ)
    → n < 64
    → 2 ^ n * base < 2 ^ 63
    → delay_after base n
      ≡ pos (if ltb 30_000_000_000 (2 ^ n * base) then 30_000_000_000 else 2 ^ n * base)
unfolding delay_after
delay_doubles base n h k = ground arith

shift_zero : (n : ℕ) → ltb n 64 ≡ false → delay_after 1_000_000_000 n ≡ pos 0
unfolding delay_after
shift_zero n l = ground arith

-- With the default of a second, there is no wait after the 55th retry and all later ones: the
-- product leaves no bit in the word.
pub delay_vanishes : (n : ℕ) → 55 ≤ n → delay_after 1_000_000_000 n ≡ pos 0
delay_vanishes n h = elim (Bool-cases (ltb n 64)) [
  | inl l ↦ no_wait_at 55 9 n last_waits h (ground arith)
  | inr l ↦ shift_zero n l
]
