-- ===== src/Xpfs/DoStat/Kinds.antt =====
-- luau/xpfs.c: the kind of a file, and the later one of two times, which `do_stat` computes.
use flake.Common.{
  ℕ, ◌-◌, ◌*◌, ◌/◌, ◌%◌, ◌≤◌, ◌==◌, ◌≡◌, refl, ◌∙◌, ap, sym, List, [], ◌∷◌, String, ltb,
  if◌then◌else◌, ℤ, pos, negsuc, Bool-cases, inl, inr, ◌⊎◌, arith,
}
use flake.Xpfs.DoStat.{kind, max_ℤ}

-- The formats of files in a mode, S_IFREG and so on, and the letters that stand for them.
abbrev pub letters_of_formats : List (ℕ × String)
letters_of_formats =
    (32768, "f")  -- 0100000
    ∷ (16384, "d")  -- 0040000
    ∷ (40960, "l")  -- 0120000
    ∷ (24576, "b")  -- 0060000
    ∷ (8192, "c")  -- 0020000
    ∷ (49152, "s")  -- 0140000
    ∷ (4096, "p")  -- 0010000
    ∷ []

abbrev pub look_up : (format : ℕ) → List (ℕ × String) → String
look_up format [] = "o"
look_up format ((f, letter) ∷ fs) =
    let rest = look_up format fs in if format == f then letter else rest

-- By the bits of S_IFMT, 0170000.
abbrev pub kind_letter : (mode : ℕ) → String
kind_letter mode = look_up (mode % 65536 - mode % 4096) letters_of_formats

pub kind-kind_letter : (mode : ℕ) → kind mode ≡ kind_letter mode
unfolding kind
kind-kind_letter mode =
    let format : mode % 65536 - mode % 4096 ≡ mode / 4096 % 16 * 4096 = omega arith in
    by_type (mode / 4096 % 16) ∙ ap (λ x. look_up x letters_of_formats) (sym format)
  where
    by_type :
        (x : ℕ)
        → (if x == 8
            then "f"
            else if x == 4
            then "d"
            else if x == 10
            then "l"
            else if x == 6
            then "b"
            else if x == 2
            then "c"
            else if x == 12
            then "s"
            else if x == 1
            then "p"
            else "o")
          ≡ look_up (x * 4096) letters_of_formats
    by_type x = ground arith

abbrev pub Le_ℤ : ℤ → ℤ → Type 0
Le_ℤ (pos a) (pos b) = a ≤ b
Le_ℤ (pos a) (negsuc b) = ⊥
Le_ℤ (negsuc a) (pos b) = Unit {0}
Le_ℤ (negsuc a) (negsuc b) = b ≤ a

-- One of the two that is not before the other.
abbrev pub IsLatest : (a b latest : ℤ) → Type 0
IsLatest a b latest = ((latest ≡ a) ⊎ (latest ≡ b)) × Le_ℤ a latest × Le_ℤ b latest

pub max_ℤ-IsLatest : (a b : ℤ) → IsLatest a b (max_ℤ a b)
max_ℤ-IsLatest (pos a) (pos b) = elim (Bool-cases (ltb b a)) [
  | inl more ↦ rw (max_ℤ, more) (inl refl, omega arith, ground arith)
  | inr less ↦ rw (max_ℤ, less) (inr refl, ground arith, omega arith)
]
max_ℤ-IsLatest (pos a) (negsuc b) = (inl refl, omega arith, tt)
max_ℤ-IsLatest (negsuc a) (pos b) = (inr refl, tt, omega arith)
max_ℤ-IsLatest (negsuc a) (negsuc b) = elim (Bool-cases (ltb a b)) [
  | inl more ↦ rw (max_ℤ, more) (inl refl, omega arith, ground arith)
  | inr less ↦ rw (max_ℤ, less) (inr refl, ground arith, omega arith)
]
