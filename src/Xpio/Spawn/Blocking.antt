-- ===== src/Xpio/Spawn/Blocking.antt =====
-- luau/xpio_c.c: the files that a child of `xpio__spawn` gets are in blocking mode.
use flake.Common.{
  ℕ, ◌≡◌, refl, ap, ◌∙◌, sym, Bool, true, false, ◌&&◌, ◌||◌, not, some, List, [], ◌∷◌, arith, ℤ,
  eq_ℤ, eq_ℤ_iff, is_negative, Bool-cases, inl, inr, if◌then◌else◌,
}
use flake.Xpio.Spawn.{Flags, FileApi, Action, set_non_blocking, act, perform}
use flake.Xpio.Spawn.NonBlocking.{
  file-set_non_blocking, set_non_blocking-done, set_non_blocking-holds,
}
use flake.Xpio.Spawn.Actions.{CanGrant, untouched, grant, perform-grant}

-- The descriptor is the target of an action with a source.
abbrev pub is_granted : ℤ → List Action → Bool
is_granted g [] = false
is_granted g (a ∷ as') = (eq_ℤ a.to g && not (is_negative a.from)) || is_granted g as'

module _ (F : FileApi) where
  open F use {Kernel, file, flags}

  -- The descriptors when `setNonBlocking` is called for an action with a source.
  abbrev pub moved : Kernel → Action → Kernel
  moved k a = if eq_ℤ a.from a.to then k else (F.dup2 k a.from a.to).0

  -- No call of `setNonBlocking` returns -1.
  abbrev pub CanSet : Kernel → List Action → Type 0
  CanSet k [] = Unit {0}
  CanSet k (a ∷ as') =
      (is_negative a.from ≡ false → (set_non_blocking F (moved k a) a.to false).1 ≡ false)
      × CanSet (act F k a) as'

  flags-moved : (k : Kernel) (a : Action) (i : ℕ) → flags (moved k a) i ≡ flags k i
  flags-moved k a i = elim (Bool-cases (eq_ℤ a.from a.to)) [
    | inl same ↦ rw (moved, same) refl
    | inr apart ↦ rw (moved, apart) (F.flags-dup2 k a.from a.to i)
  ]

  act-moved :
      (k : Kernel) (a : Action)
      → is_negative a.from ≡ false
      → act F k a ≡ (set_non_blocking F (moved k a) a.to false).0
  unfolding act
  act-moved k a dups = rw (act, dups) refl

  act-blocking :
      (k : Kernel) (a : Action) (i : ℕ)
      → (flags k i).nonblock ≡ false
      → (flags (act F k a) i).nonblock ≡ false
  unfolding act
  act-blocking k a i h = elim (Bool-cases (is_negative a.from)) [
    | inl closes ↦ rw (closes, act) (ap (λ (x : Flags). x.nonblock) (F.flags-close k a.to i) ∙ h)
    | inr dups ↦ rw (act-moved k a dups) (
        set_non_blocking-holds F (moved k a) a.to false i
          (ap (λ (x : Flags). x.nonblock) (flags-moved k a i) ∙ h))
  ]

  perform_blocking :
      (k : Kernel) (as' : List Action) (i : ℕ)
      → (flags k i).nonblock ≡ false
      → (flags (perform F k as') i).nonblock ≡ false
  unfolding perform
  perform_blocking k [] i h = h
  perform_blocking k (a ∷ as') i h = perform_blocking (act F k a) as' i (act-blocking k a i h)

  act-blocking_target :
      (k : Kernel) (a : Action) (i : ℕ)
      → is_negative a.from ≡ false
      → (set_non_blocking F (moved k a) a.to false).1 ≡ false
      → file (act F k a) a.to ≡ some i
      → (flags (act F k a) i).nonblock ≡ false
  act-blocking_target k a i dups set there =
      let (j, e, off) = set_non_blocking-done F (moved k a) a.to false set in
      let there' : file (set_non_blocking F (moved k a) a.to false).0 a.to ≡ some i =
        rw (act-moved k a dups) at there in
      let same : j ≡ i =
        ground
          (arith, sym e ∙ sym (file-set_non_blocking F (moved k a) a.to a.to false) ∙ there') in
      rw (act-moved k a dups) (rw same at off)

  -- After the loop over the actions in the child of `xpio__spawn`, the file of each descriptor that is the
  -- target of an action with a source is in blocking mode, where no call of `dup2` fails, no call of
  -- `setNonBlocking` returns -1, which the code does not look at, and what an action has written no
  -- later action writes or reads.
  pub perform-blocking :
      (k : Kernel) (as' : List Action) (g : ℤ) (i : ℕ)
      → CanGrant F k as'
      → CanSet k as'
      → is_granted g as' ≡ true
      → file (perform F k as') g ≡ some i
      → (flags (perform F k as') i).nonblock ≡ false
  unfolding perform
  perform-blocking k [] g i h sets granted got = cc
  perform-blocking k (a ∷ as') g i (o, u, h) (set, sets) granted got =
      elim (Bool-cases (eq_ℤ a.to g && not (is_negative a.from))) [
        | inr later ↦ perform-blocking (act F k a) as' g i h sets (ground arith) got
        | inl here ↦
            let same : a.to ≡ g = (eq_ℤ_iff a.to g).0 (ground arith) in
            let at_end : file (perform F (act F k a) as') a.to ≡ some i =
              ap (file (perform F (act F k a) as')) same ∙ got in
            perform_blocking (act F k a) as' i (
              act-blocking_target k a i (ground arith) (set (ground arith))
                (sym (perform-untouched (act F k a) as' a.to h u) ∙ at_end))
      ]
    where
      perform-untouched :
          (k : Kernel) (bs : List Action) (x : ℤ)
          → CanGrant F k bs
          → untouched x bs ≡ true
          → file (perform F k bs) x ≡ file k x
      perform-untouched k bs x h u = perform-grant F k bs x h ∙ grant-untouched k bs x u
        where
          grant-untouched :
              (k : Kernel) (bs : List Action) (x : ℤ)
              → untouched x bs ≡ true
              → grant F k bs x ≡ file k x
          grant-untouched k [] x u = refl
          grant-untouched k (b ∷ bs) x u = ground (arith, grant-untouched k bs x)
