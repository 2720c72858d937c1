-- ===== src/Xpio/GrowArray.antt =====
-- luau/xpio_c.c: `growArray`. An array is the list of its elements, `*plen` its length; sizes stay
-- below the range of `int`.
use flake.Common.{
  ℕ, ◌-◌, ◌*◌, ◌≤◌, ◌≡◌, refl, ap, Bool, true, List, [], ◌∷◌, ◌++◌, arith, ltb, if◌then◌else◌,
  length, replicate, take, length-append, length-replicate, take-append,
}

module _ {ℓ} {A : Type ℓ} where
  -- `malloc` says whether an allocation of so many bytes succeeds; `zero_elem` is an element of zero
  -- bytes, as `memset` leaves it.
  unfoldable pub grow_array :
      (malloc : ℕ → Bool) → List A → (size : ℕ) → (len_min : ℕ) → (zero_elem : A) → List A
  grow_array malloc ptr size len_min zero_elem =
      if ltb len_min (length ptr)
      then ptr
      else if malloc (len_min * 2 * size)
      then ptr ++ replicate (len_min * 2 - length ptr) zero_elem
      else ptr

  -- The old elements stay, in every case.
  pub take-grow_array :
      (malloc : ℕ → Bool) (ptr : List A) (size len_min : ℕ) (zero_elem : A)
      → take (length ptr) (grow_array malloc ptr size len_min zero_elem) ≡ ptr
  unfolding grow_array
  take-grow_array malloc ptr size len_min zero_elem =
      ground (arith, take_all ptr, take-append ptr (replicate (len_min * 2 - length ptr) zero_elem))
    where
      take_all : (xs : List A) → take (length xs) xs ≡ xs
      take_all [] = refl
      take_all (x ∷ xs) = ap (◌∷◌ x) (take_all xs)

  -- Where memory is had, the array has room for `len_min` elements; it never shrinks.
  pub length-grow_array :
      (malloc : ℕ → Bool) (ptr : List A) (size len_min : ℕ) (zero_elem : A)
      → malloc (len_min * 2 * size) ≡ true
      → (len_min ≤ length (grow_array malloc ptr size len_min zero_elem))
        × (length ptr ≤ length (grow_array malloc ptr size len_min zero_elem))
  unfolding grow_array
  length-grow_array malloc ptr size len_min zero_elem h = ground (
    arith,
    length-append ptr (replicate (len_min * 2 - length ptr) zero_elem),
    length-replicate (len_min * 2 - length ptr) zero_elem,
  )
