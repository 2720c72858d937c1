-- ===== src/Xpio/Spawn/Actions.antt =====
-- luau/xpio_c.c: the descriptors that a child of `xpio__spawn` gets.
use flake.Common.{
  ℕ, ◌≡◌, refl, ◌∙◌, Bool, true, false, ◌&&◌, not, Option, none, List, [], ◌∷◌, arith,
  if◌then◌else◌, ℤ, eq_ℤ, eq_ℤ_iff, is_negative, Bool-cases, inl, inr,
}
use flake.Xpio.Spawn.{FileApi, Action, act, perform}
use flake.Xpio.Spawn.NonBlocking.{file-set_non_blocking}

-- No action has the descriptor as its target or its source.
abbrev pub untouched : ℤ → List Action → Bool
untouched f [] = true
untouched f (a ∷ as') = not (eq_ℤ a.to f) && (not (eq_ℤ a.from f) && untouched f as')

-- `dup2` is called.
abbrev pub calls_dup2 : Action → Bool
calls_dup2 a = not (is_negative a.from) && not (eq_ℤ a.from a.to)

module _ (F : FileApi) where
  open F use {Kernel, file, flags}

  -- The table that the actions describe, all at once: a target refers to what its source refers to in
  -- the table `k`, or to nothing.
  abbrev pub grant : Kernel → List Action → ℤ → Option ℕ
  grant k [] g = file k g
  grant k (a ∷ as') g =
      let rest = grant k as' g in
      if eq_ℤ a.to g then if is_negative a.from then none else file k a.from else rest

  -- No call of `dup2` fails, and what an action has written no later action writes or reads.
  abbrev pub CanGrant : Kernel → List Action → Type 0
  CanGrant k [] = Unit {0}
  CanGrant k (a ∷ as') =
      (calls_dup2 a ≡ true → (F.dup2 k a.from a.to).1 ≡ false)
      × (untouched a.to as' ≡ true)
      × CanGrant (act F k a) as'

  file-act :
      (k : Kernel) (a : Action) (g : ℤ)
      → (calls_dup2 a ≡ true → (F.dup2 k a.from a.to).1 ≡ false)
      → file (act F k a) g
        ≡ (if eq_ℤ a.to g then if is_negative a.from then none else file k a.from else file k g)
  unfolding act
  file-act k a g dups_ok = elim (Bool-cases (is_negative a.from)) [
    | inl closes ↦ rw (closes, act) (F.file-close k a.to g)
    | inr dups ↦ elim (Bool-cases (eq_ℤ a.from a.to)) [
      | inl same ↦
          rw (dups, act)
            (rw same (
              file-set_non_blocking F k a.to g false
              ∙ ground (arith, (eq_ℤ_iff a.from a.to).0, (eq_ℤ_iff a.to g).0)))
      | inr apart ↦
          rw (dups, act)
            (rw apart (
              file-set_non_blocking F (F.dup2 k a.from a.to).0 a.to g false
              ∙ F.file-dup2 k a.from a.to g (dups_ok (ground arith))))
    ]
  ]

  pub grant-act :
      (k : Kernel) (a : Action) (as' : List Action) (g : ℤ)
      → (calls_dup2 a ≡ true → (F.dup2 k a.from a.to).1 ≡ false)
      → untouched a.to as' ≡ true
      → grant (act F k a) as' g ≡ (
          if eq_ℤ a.to g then if is_negative a.from then none else file k a.from else grant k as' g)
  grant-act k a [] g o u = file-act k a g o
  grant-act k a (b ∷ as') g o u = ground (
    arith,
    grant-act k a as' g o,
    file-act k a b.from o,
    eq_ℤ_iff b.to g,
    eq_ℤ_iff a.to g,
    eq_ℤ_iff b.to a.to,
    eq_ℤ_iff a.to b.from,
    eq_ℤ_iff b.from a.to,
  )

  -- The loop over the actions in the child of `xpio__spawn`, which calls `dup2` and `close` in turn,
  -- leaves the table that the actions describe all at once, where no call of `dup2` fails, and what
  -- an action has written no later action writes or reads.
  pub perform-grant :
      (k : Kernel) (as' : List Action) (g : ℤ)
      → CanGrant k as'
      → file (perform F k as') g ≡ grant k as' g
  unfolding perform
  perform-grant k [] g h = refl
  perform-grant k (a ∷ as') g (o, u, h) =
      perform-grant (act F k a) as' g h ∙ grant-act k a as' g o u
