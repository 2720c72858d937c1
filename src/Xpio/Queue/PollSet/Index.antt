-- ===== src/Xpio/Queue/PollSet/Index.antt =====
-- luau/xpio_c.c: where a descriptor stands in the array for `poll`, and what is watched for it.
use flake.Common.{
  ℕ, zero, suc, ◌+◌, ◌≤◌, ◌<◌, ◌≡◌, refl, ap, ◌∙◌, sym, subst, Bool, true, false, Option, none,
  some, List, [], ◌∷◌, ◌++◌, arith, if◌then◌else◌, ℤ, eq_ℤ, eq_ℤ_iff, length, take,
}
use flake.Lua.{ok}
use flake.Xpio.GrowArray.{grow_array, take-grow_array, length-grow_array}
use flake.Xpio.Queue.PollSet.{PollFd, modify, also_out, ensure_fds, zero_fd, pollfd_size}

-- Of the first element with this descriptor: its index, and its flags POLLIN and POLLOUT.
abbrev pub index_of : ℤ → List PollFd → Option ℕ
index_of f [] = none
index_of f (p ∷ ps) =
    let rest = index_of f ps in
    if eq_ℤ p.fd f then some 0 else elim rest [ none ↦ none | some i ↦ some (suc i) ]

abbrev pub watch : ℤ → List PollFd → Option (Bool × Bool)
watch f [] = none
watch f (p ∷ ps) =
    let rest = watch f ps in if eq_ℤ p.fd f then some (p.want_in, p.want_out) else rest

abbrev pub watches_in : Option (Bool × Bool) → Bool
watches_in none = false
watches_in (some w) = w.0

pub watch-append :
    (f : ℤ) (ps : List PollFd) (p : PollFd)
    → watch f (ps ++ p ∷ []) ≡ elim (watch f ps) [
      | none ↦ if eq_ℤ p.fd f then some (p.want_in, p.want_out) else none
      | some w ↦ some w
    ]
watch-append f [] p = refl
watch-append f (q ∷ ps) p = ground (arith, watch-append f ps p)

pub index_of-append :
    (f : ℤ) (ps : List PollFd) (p : PollFd)
    → index_of f (ps ++ p ∷ []) ≡ elim (index_of f ps) [
      | none ↦ if eq_ℤ p.fd f then some (length ps) else none
      | some i ↦ some i
    ]
index_of-append f [] p = refl
index_of-append f (q ∷ ps) p = ground (arith, index_of-append f ps p)

pub index_of-modify :
    (f : ℤ) (ps : List PollFd) (i : ℕ) → index_of f (modify ps i also_out) ≡ index_of f ps
unfolding modify
index_of-modify f [] i = refl
index_of-modify f (p ∷ ps) zero = refl
index_of-modify f (p ∷ ps) (suc i) = ground (arith, index_of-modify f ps i)

pub watch-modify :
    (f g : ℤ) (ps : List PollFd) (i : ℕ)
    → index_of f ps ≡ some i
    → watch g (modify ps i also_out)
      ≡ (if eq_ℤ f g then some (watches_in (watch g ps), true) else watch g ps)
unfolding modify
watch-modify f g [] i e = cc
watch-modify f g (p ∷ ps) zero e = ground (arith, eq_ℤ_iff p.fd f, eq_ℤ_iff p.fd g, eq_ℤ_iff f g)
watch-modify f g (p ∷ ps) (suc i) e =
    ground (arith, watch-modify f g ps i, eq_ℤ_iff p.fd f, eq_ℤ_iff p.fd g, eq_ℤ_iff f g)

pub index_of-watch : (f : ℤ) (ps : List PollFd) → index_of f ps ≡ none → watch f ps ≡ none
index_of-watch f [] e = refl
index_of-watch f (p ∷ ps) e = ground (arith, index_of-watch f ps)

pub take-modify :
    (n : ℕ) (ps : List PollFd) (i : ℕ) (h : PollFd → PollFd)
    → take n (modify ps i h) ≡ modify (take n ps) i h
unfolding modify
take-modify zero ps i h = refl
take-modify (suc n) [] i h = refl
take-modify (suc n) (p ∷ ps) zero h = refl
take-modify (suc n) (p ∷ ps) (suc i) h = ap (◌∷◌ p) (take-modify n ps i h)

pub take-modify_next :
    (n : ℕ) (ps : List PollFd) (h : PollFd → PollFd)
    → n < length ps
    → (p : PollFd) × (take (suc n) (modify ps n h) ≡ take n ps ++ h p ∷ [])
unfolding modify
take-modify_next n [] h lt = elim lt [ ]
take-modify_next zero (p ∷ ps) h lt = (p, refl)
take-modify_next (suc n) (p ∷ ps) h lt =
    let (q, e) = take-modify_next n ps h (omega arith) in (q, ap (◌∷◌ p) e)

pub length-modify :
    (ps : List PollFd) (i : ℕ) (h : PollFd → PollFd) → length (modify ps i h) ≡ length ps
unfolding modify
length-modify [] i h = refl
length-modify (p ∷ ps) zero h = refl
length-modify (p ∷ ps) (suc i) h = ap suc (length-modify ps i h)

take-take : (m n : ℕ) (ps : List PollFd) → n ≤ m → take n (take m ps) ≡ take n ps
take-take m zero ps h = refl
take-take zero (suc n) ps h = absurd (omega arith)
take-take (suc m) (suc n) [] h = refl
take-take (suc m) (suc n) (p ∷ ps) h = ap (◌∷◌ p) (take-take m n ps (omega arith))

pub length-take : (n : ℕ) (ps : List PollFd) → n ≤ length ps → length (take n ps) ≡ n
length-take zero ps h = refl
length-take (suc n) [] h = absurd (omega arith)
length-take (suc n) (p ∷ ps) h = ap suc (length-take n ps (omega arith))

-- `XPQueue_ensureFDs` leaves the elements in use and makes room for one at `ndx`.
pub ensure_fds_ok :
    (malloc : ℕ → Bool) (pfds grown : List PollFd) (ndx : ℕ)
    → ndx ≤ length pfds
    → ensure_fds malloc pfds ndx ≡ ok grown
    → (take ndx grown ≡ take ndx pfds) × (ndx < length grown)
unfolding ensure_fds
ensure_fds_ok malloc pfds grown ndx le e =
    let kept = take-grow_array malloc pfds pollfd_size (ndx + 1) zero_fd in
    let made : grow_array malloc pfds pollfd_size (ndx + 1) zero_fd ≡ grown = ground arith in
    let room : ndx < length grown = ground arith in
    (
      sym (take-take (length pfds) ndx grown le)
          ∙ ap (take ndx) (subst (λ (g : List PollFd). take (length pfds) g ≡ pfds) made kept),
      room,
    )

pub ensure_fds-total :
    (malloc : ℕ → Bool) (pfds : List PollFd) (ndx : ℕ)
    → ((n : ℕ) → malloc n ≡ true)
    → (grown : List PollFd) × (ensure_fds malloc pfds ndx ≡ ok grown)
unfolding ensure_fds
ensure_fds-total malloc pfds ndx memory =
    let room = length-grow_array malloc pfds pollfd_size (ndx + 1) zero_fd (memory _) in
    (grow_array malloc pfds pollfd_size (ndx + 1) zero_fd, ground (arith, room.0))

-- No two elements have one descriptor.
abbrev pub NoDupFd : List PollFd → Type 0
NoDupFd [] = Unit {0}
NoDupFd (p ∷ ps) = (index_of p.fd ps ≡ none) × NoDupFd ps

pub NoDupFd-append :
    (ps : List PollFd) (p : PollFd) → index_of p.fd ps ≡ none → NoDupFd ps → NoDupFd (ps ++ p ∷ [])
NoDupFd-append [] p new h = (refl, tt)
NoDupFd-append (q ∷ ps) p new h = (
  ground (arith, index_of-append q.fd ps p, eq_ℤ_iff q.fd p.fd, eq_ℤ_iff p.fd q.fd),
  NoDupFd-append ps p (ground arith) h.1,
)

pub NoDupFd-modify : (ps : List PollFd) (i : ℕ) → NoDupFd ps → NoDupFd (modify ps i also_out)
unfolding modify
NoDupFd-modify [] i h = tt
NoDupFd-modify (p ∷ ps) zero h = h
NoDupFd-modify (p ∷ ps) (suc i) h = (index_of-modify p.fd ps i ∙ h.0, NoDupFd-modify ps i h.1)
