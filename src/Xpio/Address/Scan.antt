-- ===== src/Xpio/Address/Scan.antt =====
-- luau/xpio_c.c: `scanNum` reads back a printed number, modulo the width of `unsigned`.
use flake.Common.{
  ℕ, ◌+◌, ◌-◌, ◌*◌, ◌%◌, ◌≡◌, refl, true, false, List, [], ◌∷◌, ◌++◌, arith, All, append-nil,
}
use flake.Xpio.Address.{u32_mod, is_digit, scan_digits, scan_num, Digit, decimal, Format}

-- The string does not go on with a digit.
abbrev pub Stops : List ℕ → Type 0
Stops [] = Unit
Stops (ch ∷ psz) = is_digit ch ≡ false

is_digit_of : (ch : ℕ) → Digit ch → is_digit ch ≡ true
unfolding is_digit
is_digit_of ch h = ground arith

scan_digits-Stops : (n : ℕ) (psz : List ℕ) → Stops psz → scan_digits n psz ≡ (n, psz)
unfolding scan_digits
scan_digits-Stops n [] h = refl
scan_digits-Stops n (ch ∷ psz) h = rw h

scan_digits-append :
    (n : ℕ) (ds psz : List ℕ)
    → All Digit ds
    → Stops psz
    → scan_digits (n % u32_mod) (ds ++ psz) ≡ (decimal n ds % u32_mod, psz)
unfolding scan_digits
scan_digits-append n [] psz h k = scan_digits-Stops (n % u32_mod) psz k
scan_digits-append n (ch ∷ ds) psz h k =
    let e : (n % u32_mod * 10 + (ch - b'0')) % u32_mod ≡ (n * 10 + (ch - b'0')) % u32_mod =
      omega arith in
    rw (is_digit_of ch h.0) (rw e (scan_digits-append (n * 10 + (ch - b'0')) ds psz h.1 k))

pub scan_num-fmt :
    (f : Format) (n : ℕ) (psz : List ℕ) → Stops psz → scan_num (f.fmt n ++ psz) ≡ (n % u32_mod, psz)
unfolding scan_num
scan_num-fmt f n psz k = rw (scan_digits-append 0 (f.fmt n) psz (f.fmt_digits n) k, f.fmt_value n)

pub scan_num-fmt_nil : (f : Format) (n : ℕ) → scan_num (f.fmt n) ≡ (n % u32_mod, [])
scan_num-fmt_nil f n = rw append-nil at (scan_num-fmt f n [] tt)
