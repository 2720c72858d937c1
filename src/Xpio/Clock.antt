-- ===== src/Xpio/Clock.antt =====
-- luau/xpio_c.c: `xpio_gettime`. The type double and what the compiler makes of its operators are an
-- interface.
pub mod Monotone
mod Tests
use flake.Common.{ℕ}

-- The doubles from 0 to infinity: the conversion of an integer, `/` by a number that is not 0, and `+`.
pub record DoubleApi : Type 1 where
  pub Double : Type 0
  pub double : ℕ → Double
  pub div : Double → Double → Double
  pub add : Double → Double → Double

-- `struct timeval`, as `gettimeofday` fills it after 1970.
pub record Timeval : Type 0 where
  pub sec : ℕ
  pub usec : ℕ

-- 1.0e6
abbrev pub million : ℕ
million = 1000000

-- `xpio_gettime`: the number that it pushes
unfoldable pub gettime : (D : DoubleApi) → Timeval → D.Double
gettime D tv = D.add (D.double tv.sec) (D.div (D.double tv.usec) (D.double million))
