-- ===== src/Xpfs/Chmod.antt =====
-- luau/xpfs.c: what `xpfs_chmod` does to the bits of a mode.
use flake.Common.{
  ℕ, ◌+◌, ◌-◌, ◌*◌, ◌/◌, ◌%◌, ◌≡◌, refl, ap, ◌∙◌, Bool, true, false, ◌&&◌, ◌||◌, not, List, [], ◌∷◌,
  arith, ◌==◌, if◌then◌else◌, Bool-cases, inl, inr,
}
use flake.Xpfs.{
  has_bit, s_irusr, s_iwusr, s_ixusr, clear_user, change_bit, change, changes, chmod_mode,
}

-- What a mode says: the user's bits, and the others.
pub record View : Type 0 where
  pub r : Bool
  pub w : Bool
  pub x : Bool
  pub low : ℕ
  pub high : ℕ

abbrev pub view : ℕ → View
view m = record {
  r = has_bit m s_irusr;
  w = has_bit m s_iwusr;
  x = has_bit m s_ixusr;
  low = m % 64;
  high = m / 512;
}

View-eq : (a b : View) → a.r ≡ b.r → a.w ≡ b.w → a.x ≡ b.x → a.low ≡ b.low → a.high ≡ b.high → a ≡ b
View-eq a b r w x low high = cc

clear_r : (m : ℕ) → has_bit m s_irusr ≡ true → view (m - s_irusr) ≡ record (view m) { r = false }
clear_r m h =
    View-eq (view (m - s_irusr)) (record (view m) { r = false }) (ground arith) (ground arith)
      (ground arith) (ground arith) (ground arith)

set_r : (m : ℕ) → has_bit m s_irusr ≡ false → view (m + s_irusr) ≡ record (view m) { r = true }
set_r m h =
    View-eq (view (m + s_irusr)) (record (view m) { r = true }) (ground arith) (ground arith)
      (ground arith) (ground arith) (ground arith)

clear_w : (m : ℕ) → has_bit m s_iwusr ≡ true → view (m - s_iwusr) ≡ record (view m) { w = false }
clear_w m h =
    View-eq (view (m - s_iwusr)) (record (view m) { w = false }) (ground arith) (ground arith)
      (ground arith) (ground arith) (ground arith)

set_w : (m : ℕ) → has_bit m s_iwusr ≡ false → view (m + s_iwusr) ≡ record (view m) { w = true }
set_w m h =
    View-eq (view (m + s_iwusr)) (record (view m) { w = true }) (ground arith) (ground arith)
      (ground arith) (ground arith) (ground arith)

clear_x : (m : ℕ) → has_bit m s_ixusr ≡ true → view (m - s_ixusr) ≡ record (view m) { x = false }
clear_x m h =
    View-eq (view (m - s_ixusr)) (record (view m) { x = false }) (ground arith) (ground arith)
      (ground arith) (ground arith) (ground arith)

set_x : (m : ℕ) → has_bit m s_ixusr ≡ false → view (m + s_ixusr) ≡ record (view m) { x = true }
set_x m h =
    View-eq (view (m + s_ixusr)) (record (view m) { x = true }) (ground arith) (ground arith)
      (ground arith) (ground arith) (ground arith)

-- Clearing or setting one of the user's bits leaves the others.
view-change_r :
    (minus : Bool) (m : ℕ) → view (change_bit minus m s_irusr) ≡ record (view m) { r = not minus }
unfolding change_bit
view-change_r true m = elim (Bool-cases (has_bit m s_irusr)) [
  | inl e ↦ rw e (clear_r m e)
  | inr e ↦ rw e (ap (λ b. record (view m) { r = b }) e)
]
view-change_r false m = elim (Bool-cases (has_bit m s_irusr)) [
  | inl e ↦ rw e (ap (λ b. record (view m) { r = b }) e)
  | inr e ↦ rw e (set_r m e)
]

view-change_w :
    (minus : Bool) (m : ℕ) → view (change_bit minus m s_iwusr) ≡ record (view m) { w = not minus }
unfolding change_bit
view-change_w true m = elim (Bool-cases (has_bit m s_iwusr)) [
  | inl e ↦ rw e (clear_w m e)
  | inr e ↦ rw e (ap (λ b. record (view m) { w = b }) e)
]
view-change_w false m = elim (Bool-cases (has_bit m s_iwusr)) [
  | inl e ↦ rw e (ap (λ b. record (view m) { w = b }) e)
  | inr e ↦ rw e (set_w m e)
]

view-change_x :
    (minus : Bool) (m : ℕ) → view (change_bit minus m s_ixusr) ≡ record (view m) { x = not minus }
unfolding change_bit
view-change_x true m = elim (Bool-cases (has_bit m s_ixusr)) [
  | inl e ↦ rw e (clear_x m e)
  | inr e ↦ rw e (ap (λ b. record (view m) { x = b }) e)
]
view-change_x false m = elim (Bool-cases (has_bit m s_ixusr)) [
  | inl e ↦ rw e (ap (λ b. record (view m) { x = b }) e)
  | inr e ↦ rw e (set_x m e)
]

view-clear_user :
    (m : ℕ) → view (clear_user m) ≡ record (view m) { r = false; w = false; x = false }
unfolding clear_user
view-clear_user m =
    View-eq (view (m - m / 64 % 8 * 64)) (record (view m) { r = false; w = false; x = false })
      (ground arith) (ground arith) (ground arith) (ground arith) (ground arith)

-- The effect of a character on one bit, and of a text.
abbrev put : (minus named old : Bool) → Bool
put minus named old = if named then not minus else old

view-change :
    (minus : Bool) (m ch : ℕ)
    → view (change minus m ch) ≡ record (view m) {
      r = put minus (ch == b'r') (view m).r;
      w = put minus (ch == b'w') (view m).w;
      x = put minus (ch == b'x') (view m).x;
    }
unfolding change
view-change minus m ch =
    ground (arith, view-change_r minus m, view-change_w minus m, view-change_x minus m)

abbrev pub names : ℕ → List ℕ → Bool
names c [] = false
names c (ch ∷ szmode) = ch == c || names c szmode

view-changes :
    (minus : Bool) (m : ℕ) (szmode : List ℕ)
    → view (changes minus m szmode) ≡ record (view m) {
      r = put minus (names b'r' szmode) (view m).r;
      w = put minus (names b'w' szmode) (view m).w;
      x = put minus (names b'x' szmode) (view m).x;
    }
unfolding changes
view-changes minus m [] = refl
view-changes minus m (ch ∷ szmode) =
    view-changes minus (change minus m ch) szmode ∙ ground (arith, view-change minus m ch)

-- How a mode text is read: `+` adds the bits that it names, `-` takes them away, and any other text names
-- the user's bits that there are.
abbrev pub wanted : (c : ℕ) → (szmode : List ℕ) → (old : Bool) → Bool
wanted c [] old = false
wanted c (pm ∷ szmode) old =
    if pm == b'+'
    then names c szmode || old
    else if pm == b'-'
    then not (names c szmode) && old
    else names c (pm ∷ szmode)

-- In the mode that `xpfs_chmod` sets, the user's bits are those that the text asks for, and all other bits
-- are those of the old mode.
pub view-chmod_mode :
    (m : ℕ) (szmode : List ℕ)
    → view (chmod_mode m szmode) ≡ record (view m) {
      r = wanted b'r' szmode (view m).r;
      w = wanted b'w' szmode (view m).w;
      x = wanted b'x' szmode (view m).x;
    }
unfolding chmod_mode
view-chmod_mode m [] = view-clear_user m
view-chmod_mode m (pm ∷ szmode) = ground (
  arith,
  view-changes false m szmode,
  view-changes true m szmode,
  view-changes false (clear_user m) (pm ∷ szmode),
  view-clear_user m,
)
