-- ===== src/Xpio/Clock/Tests.antt =====
-- Tests of `xpio_gettime` of luau/xpio_c.c, and the theorem at a concrete input.
use flake.Common.{ℕ, ◌+◌, ◌*◌, ◌/◌, ◌^◌, ◌<◌, ◌≤◌, ◌≡◌, refl, arith}
use flake.Xpio.Clock.{DoubleApi, Timeval, million, gettime}
use flake.Xpio.Clock.Monotone.{Rounds, gettime-Le}

-- Numbers of microseconds, for integers from 0 on.
abbrev fixed : DoubleApi
fixed = record {
  Double = ℕ;
  double = λ n. n * million;
  div = λ a b. a / (b / million);
  add = λ a b. a + b;
}

abbrev timeval : ℕ → ℕ → Timeval
timeval sec usec = record { sec = sec; usec = usec }

gettime-fixed : gettime fixed (timeval 1700000000 250000) ≡ 1700000000250000
unfolding gettime
gettime-fixed = refl

whole : (n : ℕ) → n * million / million ≡ n
whole n = omega arith

div_mono : (a b c : ℕ) → 0 < c → a ≤ b → a / (c * million / million) ≤ b / (c * million / million)
div_mono a b c pos_c h = grind (arith, whole c)

div_self : (n : ℕ) → 0 < n → n * million / (n * million / million) ≡ million
div_self n pos_n = grind (arith, whole n)

div_zero : (n : ℕ) → 0 < n → 0 / (n * million / million) ≡ 0
div_zero n pos_n = grind (arith, whole n)

abbrev fixed-Rounds : Rounds fixed (2 ^ 53)
fixed-Rounds = record {
  Le = λ a b. a ≤ b;
  trans = λ h k. omega arith;
  double-Le = λ h. omega arith;
  div-Le = λ c pos_c h. div_mono _ _ c pos_c h;
  add-Le = λ h k. omega arith;
  div_self = λ n pos_n h. div_self n pos_n;
  div_zero = λ n pos_n h. div_zero n pos_n;
  double_add = λ m n h. omega arith;
}

gettime-Le_example :
    gettime fixed (timeval 1700000000 999999) ≤ gettime fixed (timeval 1700000001 0)
gettime-Le_example =
    gettime-Le fixed (2 ^ 53) fixed-Rounds (timeval 1700000000 999999) (timeval 1700000001 0)
      (omega arith) (omega arith) (omega arith) (omega arith) (omega arith)
