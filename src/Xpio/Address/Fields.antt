-- ===== src/Xpio/Address/Fields.antt =====
-- luau/xpio_c.c: what `addrFromString` makes of dotted numbers and a port.
use flake.Common.{
  ℕ, zero, suc, ◌+◌, ◌*◌, ◌%◌, ◌^◌, ◌<◌, ◌≡◌, refl, subst, false, Option, none, some, List, [], ◌∷◌,
  ◌++◌, arith, All, leb, ltb, ◌==◌, if◌then◌else◌, set, length,
}
use flake.Xpio.Address.{
  u32_mod, is_digit, scan_num, Digit, Format, skip_dot, scan_fields, af_inet, htonl, htons,
  host_addr, sock_addr, addr_from_string,
}
use flake.Xpio.Address.Scan.{Stops, scan_num-fmt, scan_num-fmt_nil}

module _ (f : Format) where
  -- `:<port>`, or nothing
  abbrev pub port_text : Option ℕ → List ℕ
  port_text none = []
  port_text (some p) = b':' ∷ f.fmt p

  abbrev pub more_text : List ℕ → Option ℕ → List ℕ
  more_text [] p = port_text p
  more_text (x ∷ xs) p = b'.' ∷ f.fmt x ++ more_text xs p

  -- The numbers `xs` with dots between them, and the port.
  abbrev pub addr_text : List ℕ → Option ℕ → List ℕ
  addr_text [] p = port_text p
  addr_text (x ∷ xs) p = f.fmt x ++ more_text xs p

abbrev pub port_value : Option ℕ → ℕ
port_value none = 0
port_value (some p) = p % u32_mod

-- `nums` after the numbers `xs` have been stored from index `i` on
abbrev pub fill : ℕ → List ℕ → List ℕ → List ℕ
fill i nums [] = nums
fill i nums (x ∷ xs) = fill (i + 1) (set nums i (x % u32_mod)) xs

more_text-Stops : (f : Format) (xs : List ℕ) (p : Option ℕ) → Stops (more_text f xs p)
unfolding is_digit
more_text-Stops f [] none = tt
more_text-Stops f [] (some p) = refl
more_text-Stops f (x ∷ xs) p = refl

skip_dot-more_text :
    (f : Format) (xs : List ℕ) (p : Option ℕ) → skip_dot (more_text f xs p) ≡ addr_text f xs p
unfolding skip_dot
skip_dot-more_text f [] none = refl
skip_dot-more_text f [] (some p) = refl
skip_dot-more_text f (x ∷ xs) p = refl

-- The first byte of a printed number is no colon.
head_ne_colon : (d : ℕ) (ds : List ℕ) → All Digit (d ∷ ds) → (d == b':') ≡ false
head_ne_colon d ds h = ground arith

scan_fields_step :
    (left i v d : ℕ) (nums ds rest : List ℕ)
    → scan_num (d ∷ ds) ≡ (v, rest)
    → (d == b':') ≡ false
    → scan_fields (suc left) i nums (d ∷ ds)
      ≡ scan_fields left (i + 1) (set nums i v) (skip_dot rest)
unfolding scan_fields
scan_fields_step left i v d nums ds rest e ne = rw (e, ne)

scan_fields_next :
    (f : Format) (left i x : ℕ) (nums psz : List ℕ)
    → Stops psz
    → scan_fields (suc left) i nums (f.fmt x ++ psz)
      ≡ scan_fields left (i + 1) (set nums i (x % u32_mod)) (skip_dot psz)
scan_fields_next f left i x nums psz k =
    let (d, ds, e) = f.fmt_starts x in
    let digits : All Digit (d ∷ ds) = subst (All Digit) e (f.fmt_digits x) in
    let scanned : scan_num (d ∷ ds ++ psz) ≡ (x % u32_mod, psz) =
      subst (λ t. scan_num (t ++ psz) ≡ (x % u32_mod, psz)) e (scan_num-fmt f x psz k) in
    rw e (
      scan_fields_step left i (x % u32_mod) d nums (ds ++ psz) psz scanned
        (head_ne_colon d ds digits))

scan_fields_full :
    (f : Format) (i x : ℕ) (nums psz : List ℕ) → scan_fields 0 i nums (f.fmt x ++ psz) ≡ none
unfolding scan_fields
scan_fields_full f i x nums psz =
    let (d, ds, e) = f.fmt_starts x in
    rw e (rw (head_ne_colon d ds (subst (All Digit) e (f.fmt_digits x))) refl)

scan_fields_port :
    (f : Format) (p : Option ℕ) (left i : ℕ) (nums : List ℕ)
    → scan_fields left i nums (port_text f p)
      ≡ some (record { fields = i; nums = nums; port = port_value p })
unfolding scan_fields
scan_fields_port f none zero i nums = refl
scan_fields_port f none (suc left) i nums = refl
scan_fields_port f (some p) zero i nums = rw (scan_num-fmt_nil f p)
scan_fields_port f (some p) (suc left) i nums = rw (scan_num-fmt_nil f p)

-- The loop stores the numbers in turn, or returns -1 when they are more than it has places for.
pub scan_fields-addr_text :
    (f : Format) (xs : List ℕ) (p : Option ℕ) (left i : ℕ) (nums : List ℕ)
    → scan_fields left i nums (addr_text f xs p) ≡ (
        if leb (length xs) left
        then some (record { fields = i + length xs; nums = fill i nums xs; port = port_value p })
        else none)
scan_fields-addr_text f [] p left i nums = ground (arith, scan_fields_port f p left i nums)
scan_fields-addr_text f (x ∷ xs) p zero i nums =
    ground (arith, scan_fields_full f i x nums (more_text f xs p))
scan_fields-addr_text f (x ∷ xs) p (suc left) i nums = ground (
  arith,
  scan_fields_next f left i x nums (more_text f xs p) (more_text-Stops f xs p),
  skip_dot-more_text f xs p,
  scan_fields-addr_text f xs p left (i + 1) (set nums i (x % u32_mod)),
)

-- The address that dotted numbers stand for, as `inet_addr` of the C library reads them: the last
-- number fills the bytes that are left. Each sum wraps at 32 bits.
abbrev pub inet_value : List ℕ → ℕ
inet_value [] = 0
inet_value (a ∷ []) = a
inet_value (a ∷ b ∷ []) = a * 2 ^ 24 + b
inet_value (a ∷ b ∷ c ∷ []) = a * 2 ^ 24 + b * 2 ^ 16 + c
inet_value (a ∷ b ∷ c ∷ d ∷ xs) = a * 2 ^ 24 + b * 2 ^ 16 + c * 2 ^ 8 + d

abbrev pub port_or_zero : Option ℕ → ℕ
port_or_zero none = 0
port_or_zero (some p) = p

abbrev pub zeros : List ℕ
zeros = 0 ∷ 0 ∷ 0 ∷ 0 ∷ []

htonl_wrap : (n : ℕ) → htonl (n % u32_mod) ≡ htonl n
unfolding htonl
htonl_wrap n = ground arith

htons_wrap : (p : Option ℕ) → htons (port_value p) ≡ htons (port_or_zero p)
unfolding htons
htons_wrap none = refl
htons_wrap (some p) = ground arith

-- What is passed to `htonl` is the address up to multiples of the width.
host_addr-fill :
    (xs : List ℕ)
    → length xs < 5
    → host_addr (0 + length xs) (fill 0 zeros xs) ≡ inet_value xs % u32_mod
unfolding host_addr
host_addr-fill [] h = refl
host_addr-fill (a ∷ []) h = omega arith
host_addr-fill (a ∷ b ∷ []) h = omega arith
host_addr-fill (a ∷ b ∷ c ∷ []) h = omega arith
host_addr-fill (a ∷ b ∷ c ∷ d ∷ []) h = omega arith
host_addr-fill (a ∷ b ∷ c ∷ d ∷ e ∷ xs) h = absurd (omega arith)

sock_addr-fill :
    (xs : List ℕ) (p : Option ℕ)
    → length xs < 5
    → sock_addr (record { fields = 0 + length xs; nums = fill 0 zeros xs; port = port_value p })
      ≡ record { family = af_inet; port = htons (port_or_zero p); addr = htonl (inet_value xs) }
unfolding sock_addr
sock_addr-fill xs p h = rw (htons_wrap p, host_addr-fill xs h, htonl_wrap) refl

-- `addrFromString` reads up to four decimal numbers with dots between them, whatever their size,
-- and an optional port as the address that `inet_addr` gives them, in network order, and returns -1
-- when there are more than four numbers. `fmt` is any printer of decimal numbers.
pub addr_from_string-addr_text :
    (f : Format) (xs : List ℕ) (p : Option ℕ)
    → addr_from_string (addr_text f xs p) ≡ (
        if ltb (length xs) 5
        then some (record {
          family = af_inet;
          port = htons (port_or_zero p);
          addr = htonl (inet_value xs);
        })
        else none)
unfolding addr_from_string
addr_from_string-addr_text f xs p =
    ground (arith, scan_fields-addr_text f xs p 4 0 zeros, sock_addr-fill xs p)
