-- ===== src/Xpio/Environ/Table.antt =====
-- luau/xpio_c.c: what `xpio_getenv` leaves in its table.
use flake.Common.{
  ℕ, ◌≡◌, refl, ap, ◌∙◌, true, false, Option, none, some, List, [], ◌∷◌, arith, ==_iff,
  if◌then◌else◌, ◌↔◌, Bool-cases, Option-cases, inl, inr,
}
use flake.Xpio.Environ.{Strings, bytes_eq, raw_set, split_eq, getenv_loop, getenv}

-- t[name]
abbrev pub find : (name : List ℕ) → Strings → Option (List ℕ)
find name [] = none
find name ((n, v) ∷ t) = if bytes_eq n name then some v else find name t

pub bytes_eq_iff : (a b : List ℕ) → (bytes_eq a b ≡ true) ↔ (a ≡ b)
bytes_eq_iff [] [] = ground arith
bytes_eq_iff [] (b ∷ bs) = ground arith
bytes_eq_iff (a ∷ as') [] = ground arith
bytes_eq_iff (a ∷ as') (b ∷ bs) = ground (arith, bytes_eq_iff as' bs, ==_iff a b)

find-raw_set :
    (t : Strings) (name value asked : List ℕ)
    → find asked (raw_set name value t) ≡ (if bytes_eq name asked then some value else find asked t)
find-raw_set [] name value asked = refl
find-raw_set ((n, v) ∷ t) name value asked = elim (Bool-cases (bytes_eq n name)) [
  | inl same ↦ rw same (rw ((bytes_eq_iff n name).0 same) (ground arith))
  | inr apart ↦ elim (Bool-cases (bytes_eq n asked)) [
    | inl hit ↦
        let other : bytes_eq name asked ≡ false =
          ground (arith, bytes_eq_iff n asked, bytes_eq_iff name asked, bytes_eq_iff n name) in
        rw apart (rw (hit, other) refl)
    | inr miss ↦ rw apart (rw miss (find-raw_set t name value asked))
  ]
]

abbrev pub or_else : Option (List ℕ) → Option (List ℕ) → Option (List ℕ)
or_else (some a) b = some a
or_else none b = b

-- The value that a pair gives for a name.
abbrev pub value_in : (name : List ℕ) → Option (List ℕ × List ℕ) → Option (List ℕ)
value_in name none = none
value_in name (some (n, value)) = if bytes_eq n name then some value else none

-- The value of the last of the strings that has the name before its first equals sign.
abbrev pub last_value : (name : List ℕ) → (environ : List (List ℕ)) → Option (List ℕ)
last_value name [] = none
last_value name (str ∷ environ) = or_else (last_value name environ) (value_in name (split_eq str))

or_else_assoc : (a b c : Option (List ℕ)) → or_else a (or_else b c) ≡ or_else (or_else a b) c
or_else_assoc none b c = refl
or_else_assoc (some a) b c = refl

or_else-value_in :
    (name n value : List ℕ) (old : Option (List ℕ))
    → (if bytes_eq n name then some value else old) ≡ or_else (value_in name (some (n, value))) old
or_else-value_in name n value old = elim (Bool-cases (bytes_eq n name)) [
  | inl same ↦ rw same refl
  | inr apart ↦ rw apart refl
]

find-getenv_loop :
    (environ : List (List ℕ)) (t : Strings) (name : List ℕ)
    → find name (getenv_loop t environ) ≡ or_else (last_value name environ) (find name t)
unfolding getenv_loop
find-getenv_loop [] t name = refl
find-getenv_loop (str ∷ environ) t name = elim (Option-cases (split_eq str)) [
  | inl none_here ↦
      rw (none_here, find, last_value)
        (find-getenv_loop environ t name
          ∙ or_else_assoc (last_value name environ) none (find name t))
  | inr ((n, value), here) ↦
      rw (here, find, last_value)
        (find-getenv_loop environ (raw_set n value t) name
          ∙ ap (or_else (last_value name environ))
              (find-raw_set t n value name ∙ or_else-value_in name n value (find name t))
          ∙ or_else_assoc (last_value name environ) (value_in name (some (n, value))) (find name t))
]

or_else-none : (a : Option (List ℕ)) → or_else a none ≡ a
or_else-none none = refl
or_else-none (some a) = refl

-- The table has for each name the value of the last string with it.
pub find-getenv :
    (environ : List (List ℕ)) (name : List ℕ) → find name (getenv environ) ≡ last_value name environ
unfolding getenv
find-getenv environ name = find-getenv_loop environ [] name ∙ or_else-none (last_value name environ)
