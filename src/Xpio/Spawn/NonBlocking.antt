-- ===== src/Xpio/Spawn/NonBlocking.antt =====
-- luau/xpio_c.c: `setNonBlocking` and `getNonBlocking`, also where a call of `fcntl` fails.
use flake.Common.{
  ℕ, ◌≡◌, refl, ap, ◌∙◌, sym, Bool, true, false, ◌&&◌, ◌||◌, not, none, some, arith, ◌==◌, ==_iff,
  ℤ, Bool-cases, Option-cases, inl, inr, ◌⊎◌,
}
use flake.Xpio.Spawn.{Flags, FileApi, fcntl_mod_fl, set_non_blocking, get_non_blocking}

module _ (F : FileApi) where
  open F use {Kernel, file, flags}

  -- The flags that F_SETFL is given.
  abbrev wanted : Kernel → ℕ → Bool → Flags
  wanted k i on = record (flags k i) { nonblock = ((flags k i).nonblock && not (not on)) || on }

  set_non_blocking-closed :
      (k : Kernel) (fd : ℤ) (on : Bool) → file k fd ≡ none → set_non_blocking F k fd on ≡ (k, true)
  unfolding set_non_blocking fcntl_mod_fl
  set_non_blocking-closed k fd on e =
      let bad : F.getfl k fd ≡ none = F.getfl-file k fd ∙ rw e refl in
      rw (bad, set_non_blocking, fcntl_mod_fl) refl

  set_non_blocking-open :
      (k : Kernel) (fd : ℤ) (on : Bool) (i : ℕ)
      → file k fd ≡ some i
      → set_non_blocking F k fd on ≡ F.setfl k fd (wanted k i on)
  unfolding set_non_blocking fcntl_mod_fl
  set_non_blocking-open k fd on i e =
      let got : F.getfl k fd ≡ some (flags k i) = F.getfl-file k fd ∙ rw e refl in
      rw (got, set_non_blocking, fcntl_mod_fl) refl

  pub file-set_non_blocking :
      (k : Kernel) (fd g : ℤ) (on : Bool) → file (set_non_blocking F k fd on).0 g ≡ file k g
  file-set_non_blocking k fd g on = elim (Option-cases (file k fd)) [
    | inl e ↦ rw (set_non_blocking-closed k fd on e) refl
    | inr (i, e) ↦ rw (set_non_blocking-open k fd on i e) (F.file-setfl k fd g (wanted k i on))
  ]

  -- Where -1 is not returned, the descriptor is open and its file has the mode.
  pub set_non_blocking-done :
      (k : Kernel) (fd : ℤ) (on : Bool)
      → (set_non_blocking F k fd on).1 ≡ false
      → (i : ℕ) × (file k fd ≡ some i) × ((flags (set_non_blocking F k fd on).0 i).nonblock ≡ on)
  set_non_blocking-done k fd on h = elim (Option-cases (file k fd)) [
    | inl e ↦ absurd (ground (arith, rw (set_non_blocking-closed k fd on e) at h))
    | inr (i, e) ↦ (
      i,
      e,
      rw (set_non_blocking-open k fd on i e) (
          F.flags-setfl_self k fd (wanted k i on) i e (rw (set_non_blocking-open k fd on i e) at h)
          ∙ ground arith),
    )
  ]

  pub set_non_blocking-fails :
      (k : Kernel) (fd : ℤ) (on : Bool) (j : ℕ)
      → (set_non_blocking F k fd on).1 ≡ true
      → flags (set_non_blocking F k fd on).0 j ≡ flags k j
  set_non_blocking-fails k fd on j h = elim (Option-cases (file k fd)) [
    | inl e ↦ rw (set_non_blocking-closed k fd on e) refl
    | inr (i, e) ↦
        rw (set_non_blocking-open k fd on i e)
          (F.flags-setfl_fails k fd (wanted k i on) j (rw (set_non_blocking-open k fd on i e) at h))
  ]

  -- A file that has the mode keeps it.
  pub set_non_blocking-holds :
      (k : Kernel) (fd : ℤ) (on : Bool) (j : ℕ)
      → (flags k j).nonblock ≡ on
      → (flags (set_non_blocking F k fd on).0 j).nonblock ≡ on
  set_non_blocking-holds k fd on j h = elim (Bool-cases (set_non_blocking F k fd on).1) [
    | inl failed ↦ ap (λ (x : Flags). x.nonblock) (set_non_blocking-fails k fd on j failed) ∙ h
    | inr done ↦
        let (i, e, set) = set_non_blocking-done k fd on done in
        elim (Bool-cases (i == j)) [
          | inl same ↦
              ap (λ x. (flags (set_non_blocking F k fd on).0 x).nonblock)
                (sym ((==_iff i j).0 same))
              ∙ set
          | inr apart ↦ rw (set_non_blocking-open k fd on i e) (
              ap (λ (x : Flags). x.nonblock)
                (F.flags-setfl_ne k fd (wanted k i on) i j e
                  (λ q. ground (arith, (==_iff i j).1 q)))
              ∙ h)
        ]
  ]

  pub get_non_blocking-file :
      (k : Kernel) (g : ℤ) (i : ℕ)
      → file k g ≡ some i
      → get_non_blocking F k g ≡ ((flags k i).nonblock, false)
  unfolding get_non_blocking
  get_non_blocking-file k g i e =
      let got : F.getfl k g ≡ some (flags k i) = F.getfl-file k g ∙ rw e refl in
      rw (got, get_non_blocking) refl

  -- `setNonBlocking` for an open descriptor returns -1 and leaves the mode of the file, as
  -- `getNonBlocking` tells it for any descriptor of the file, or it does not return -1, and
  -- `getNonBlocking` for any of them then gives what has been set.
  pub get_non_blocking-set_non_blocking :
      (k : Kernel) (fd g : ℤ) (i : ℕ) (on : Bool)
      → file k fd ≡ some i
      → file k g ≡ some i
      → (((set_non_blocking F k fd on).1 ≡ true)
          × (get_non_blocking F (set_non_blocking F k fd on).0 g ≡ get_non_blocking F k g))
        ⊎ (((set_non_blocking F k fd on).1 ≡ false)
            × (get_non_blocking F (set_non_blocking F k fd on).0 g ≡ (on, false)))
  get_non_blocking-set_non_blocking k fd g i on fd_open g_open =
      let k' : Kernel = (set_non_blocking F k fd on).0 in
      let after = get_non_blocking-file k' g i (file-set_non_blocking k fd g on ∙ g_open) in
      elim (Bool-cases (set_non_blocking F k fd on).1) [
        | inl failed ↦ inl (
          failed,
          after
              ∙ ap (λ (x : Flags). (x.nonblock, false)) (set_non_blocking-fails k fd on i failed)
              ∙ sym (get_non_blocking-file k g i g_open),
        )
        | inr done ↦
            let (j, e, set) = set_non_blocking-done k fd on done in
            let same : j ≡ i = ground (arith, sym e ∙ fd_open) in
            inr (done, after ∙ ap (λ b. (b, false)) (rw same at set))
      ]

  -- Either -1 is returned, or the descriptor is then in non-blocking mode.
  pub set_non_blocking-get :
      (k : Kernel) (fd : ℤ) (on : Bool)
      → (set_non_blocking F k fd on).1 ≡ false
      → get_non_blocking F (set_non_blocking F k fd on).0 fd ≡ (on, false)
  set_non_blocking-get k fd on done =
      let (i, e, set) = set_non_blocking-done k fd on done in
      get_non_blocking-file (set_non_blocking F k fd on).0 fd i
        (file-set_non_blocking k fd fd on ∙ e)
      ∙ ap (λ b. (b, false)) set
