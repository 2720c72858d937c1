-- ===== src/Xpio/Clock/Monotone.antt =====
-- luau/xpio_c.c: `xpio_gettime` follows the clock of the system.
use flake.Common.{ℕ, ◌+◌, ◌*◌, ◌<◌, ◌≤◌, ◌≡◌, ◌∙◌, ap, inl, inr, ltb, Bool-cases, subst, arith}
use flake.Xpio.Clock.{DoubleApi, Timeval, million, gettime}

-- What IEEE 754 says of doubles, with an order: the operators round to nearest, which keeps the
-- order, and what can be represented, as the seconds up to `bound` can, is exact.
pub record Rounds (D : DoubleApi) (bound : ℕ) : Type 1 where
  pub Le : D.Double → D.Double → Type 0
  pub trans : {a b c : D.Double} → Le a b → Le b c → Le a c
  pub double-Le : {m n : ℕ} → m ≤ n → Le (D.double m) (D.double n)
  pub div-Le :
      {a b : D.Double} (c : ℕ) → 0 < c → Le a b → Le (D.div a (D.double c)) (D.div b (D.double c))
  pub add-Le : {a a' b b' : D.Double} → Le a a' → Le b b' → Le (D.add a b) (D.add a' b')
  pub div_self : (n : ℕ) → 0 < n → n ≤ bound → D.div (D.double n) (D.double n) ≡ D.double 1
  pub div_zero : (n : ℕ) → 0 < n → n ≤ bound → D.div (D.double 0) (D.double n) ≡ D.double 0
  pub double_add : (m n : ℕ) → m + n ≤ bound → D.add (D.double m) (D.double n) ≡ D.double (m + n)

-- `gettimeofday` gives the microseconds of the second.
abbrev pub IsTimeval : Timeval → Type 0
IsTimeval tv = tv.usec < million

-- In microseconds.
abbrev pub micros : Timeval → ℕ
micros tv = tv.sec * million + tv.usec

module _ (D : DoubleApi) (bound : ℕ) (r : Rounds D bound) where
  open r use {Le}

  abbrev fraction : ℕ → D.Double
  fraction usec = D.div (D.double usec) (D.double million)

  -- The time is at least that of its second, and at most that of the next.
  gettime-second :
      (tv : Timeval) → million ≤ bound → tv.sec ≤ bound → Le (D.double tv.sec) (gettime D tv)
  unfolding gettime
  gettime-second tv le bounded =
      let none_yet : D.add (D.double tv.sec) (fraction 0) ≡ D.double tv.sec =
        ap (D.add (D.double tv.sec)) (r.div_zero million (omega arith) le)
        ∙ r.double_add tv.sec 0 (omega arith)
        ∙ ap D.double (omega arith) in
      subst (λ x. Le x (gettime D tv)) none_yet
        (r.add-Le (r.double-Le (omega arith))
          (r.div-Le million (omega arith) (r.double-Le (omega arith))))

  gettime-next :
      (tv : Timeval)
      → million ≤ bound
      → tv.sec < bound
      → IsTimeval tv
      → Le (gettime D tv) (D.double (tv.sec + 1))
  unfolding gettime
  gettime-next tv le bounded h =
      let whole : D.add (D.double tv.sec) (fraction million) ≡ D.double (tv.sec + 1) =
        ap (D.add (D.double tv.sec)) (r.div_self million (omega arith) le)
        ∙ r.double_add tv.sec 1 (omega arith) in
      subst (Le (gettime D tv)) whole (
        r.add-Le (r.double-Le (omega arith))
          (r.div-Le million (omega arith) (r.double-Le (omega arith))))

  -- While the clock of the system does not go back, neither do the numbers that `xpio_gettime` gives:
  -- where doubles round in order and the seconds are exact, the number for a later time is not less
  -- than that for an earlier one, also across the end of a second.
  pub gettime-Le :
      (tv tv' : Timeval)
      → million ≤ bound
      → tv'.sec ≤ bound
      → IsTimeval tv
      → IsTimeval tv'
      → micros tv ≤ micros tv'
      → Le (gettime D tv) (gettime D tv')
  unfolding gettime
  gettime-Le tv tv' le bounded h h' later = elim (Bool-cases (ltb tv.sec tv'.sec)) [
    | inl before ↦
        r.trans (gettime-next tv le (ground arith) h)
          (r.trans (r.double-Le (ground arith)) (gettime-second tv' le bounded))
    | inr within ↦
        let same : tv.sec ≡ tv'.sec = ground (arith, later, h, h') in
        r.add-Le (r.double-Le (omega arith))
          (r.div-Le million (omega arith) (r.double-Le (omega arith)))
  ]
