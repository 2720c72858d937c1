-- ===== src/Xpfs/Calls/Listing.antt =====
-- luau/xpfs.c, on POSIX systems: the table that `xpfs_dir` returns.
use flake.Common.{
  ℕ, zero, suc, ◌+◌, ◌≡◌, refl, ap, ◌∙◌, true, false, Option, none, some, List, [], ◌∷◌, String,
  length, get_elem?, ltb, ◌==◌, if◌then◌else◌, arith, Bool-cases, inl, inr,
}
use flake.Lua.{LuaValue, ok, c_string}
use flake.Xpfs.Calls.{
  Stream, ends, breaks, entry, done, SystemApi, Names, table, read_names, check_string, list_dir,
  dir,
}

-- The names that `readdir` gave before its first NULL.
abbrev pub names : Stream → List (List ℕ)
names ends = []
names (breaks message) = []
names (entry name rest) = c_string name ∷ names rest

-- The value at a key of the table.
abbrev pub value_at : (key : ℕ) → Names → Option (List ℕ)
value_at key [] = none
value_at key ((k, name) ∷ t) = let rest = value_at key t in if k == key then some name else rest

value_at-below :
    (ndx key : ℕ) (stream : Stream)
    → ltb ndx key ≡ false
    → value_at key (read_names ndx stream) ≡ none
unfolding read_names
value_at-below ndx key ends h = refl
value_at-below ndx key (breaks message) h = refl
value_at-below ndx key (entry name rest) h = ground (arith, value_at-below (ndx + 1) key rest)

value_at-read_names :
    (ndx k : ℕ) (stream : Stream)
    → value_at (ndx + k + 1) (read_names ndx stream) ≡ get_elem? (names stream) k
unfolding read_names
value_at-read_names ndx k ends = refl
value_at-read_names ndx k (breaks message) = refl
value_at-read_names ndx zero (entry name rest) = ground arith
value_at-read_names ndx (suc k) (entry name rest) =
    ground (arith, value_at-read_names (ndx + 1) k rest)

module _ (tolstring : LuaValue → Option (List ℕ)) (bad_argument : ℕ → String) (S : SystemApi) where
  open S use {System}

  dir-list_dir :
      (args : List LuaValue) (dirname : List ℕ) (w : System)
      → check_string tolstring bad_argument args 0 ≡ ok dirname
      → (ltb 1 (length args) ≡ true
          → (mask : List ℕ) × (check_string tolstring bad_argument args 1 ≡ ok mask))
      → dir tolstring bad_argument S args w ≡ ok (list_dir tolstring bad_argument S dirname w)
  unfolding dir
  dir-list_dir args dirname w first second = elim (Bool-cases (ltb 1 (length args))) [
    | inl two ↦ let (p, there) = second two in rw (dir, first) (rw two (rw there refl))
    | inr one ↦ rw (dir, first) (rw one refl)
  ]

  -- `xpfs_dir` for a directory that can be opened returns a table, in which the names that `readdir`
  -- gave, in their order, stand at 1, 2 and so on, with nothing at 0 or after the last: the names
  -- end where `readdir` first gave NULL, be it the end or an error. The first argument is a string,
  -- and a second one is a string too.
  pub dir-names :
      (args : List LuaValue) (dirname : List ℕ) (stream : Stream) (w : System)
      → check_string tolstring bad_argument args 0 ≡ ok dirname
      → (ltb 1 (length args) ≡ true
          → (mask : List ℕ) × (check_string tolstring bad_argument args 1 ≡ ok mask))
      → S.opendir dirname w ≡ done stream
      → (t : Names) × (dir tolstring bad_argument S args w ≡ ok (table t))
        × (value_at 0 t ≡ none)
        × ((k : ℕ) → value_at (k + 1) t ≡ get_elem? (names stream) k)
  unfolding list_dir
  dir-names args dirname stream w first second opened = (
    read_names 0 stream,
    dir-list_dir args dirname w first second ∙ rw (list_dir, opened) refl,
    value_at-below 0 0 stream refl,
    λ k. ap (λ n. value_at n (read_names 0 stream)) (omega arith) ∙ value_at-read_names 0 k stream,
  )
