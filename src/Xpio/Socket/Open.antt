-- ===== src/Xpio/Socket/Open.antt =====
-- luau/xpio_c.c: sockets that are handed out are in non-blocking mode.
use flake.Common.{
  ℕ, ◌≡◌, refl, ap, ◌∙◌, Bool, true, false, none, some, List, [], ◌∷◌, String, arith, ℤ, minus_one,
  Bool-cases, Option-cases, inl, inr, ◌⊎◌,
}
use flake.Lua.{LuaValue, nil, string, userdata}
use flake.Xpio.Spawn.{FileApi, set_non_blocking, get_non_blocking}
use flake.Xpio.Spawn.NonBlocking.{
  file-set_non_blocking, set_non_blocking-get, set_non_blocking-holds, get_non_blocking-file,
}
use flake.Xpio.Socket.{Errno, Call, done, fails, push_error, try_accept, open_pair}

module _ (F : FileApi) where
  open F use {Kernel, file, flags}

  -- Either -1 is returned, or the descriptor is then in non-blocking mode.
  pub set_non_blocking-on :
      (k : Kernel) (fd : ℤ)
      → ((set_non_blocking F k fd true).1 ≡ true)
        ⊎ (((set_non_blocking F k fd true).1 ≡ false)
            × (get_non_blocking F (set_non_blocking F k fd true).0 fd ≡ (true, false)))
  set_non_blocking-on k fd = elim (Bool-cases (set_non_blocking F k fd true).1) [
    | inl failed ↦ inl failed
    | inr done_now ↦ inr (done_now, set_non_blocking-get F k fd true done_now)
  ]

  blocking_not :
      (k : Kernel) (g : ℤ)
      → get_non_blocking F k g ≡ (true, false)
      → (i : ℕ) × (file k g ≡ some i) × ((flags k i).nonblock ≡ true)
  unfolding get_non_blocking
  blocking_not k g h = elim (Option-cases (file k g)) [
    | inl closed ↦
        let bad : F.getfl k g ≡ none = F.getfl-file k g ∙ rw closed refl in
        absurd (ground (arith, ap (λ (x : Bool × Bool). x.0) (rw (bad, get_non_blocking) at h)))
    | inr (i, e) ↦
        let got : F.getfl k g ≡ some (flags k i) = F.getfl-file k g ∙ rw e refl in
        (i, e, ap (λ (x : Bool × Bool). x.0) (rw (got, get_non_blocking) at h))
  ]

  set_non_blocking-keeps :
      (k : Kernel) (fd g : ℤ)
      → get_non_blocking F k g ≡ (true, false)
      → get_non_blocking F (set_non_blocking F k fd true).0 g ≡ (true, false)
  set_non_blocking-keeps k fd g h =
      let (i, g_open, on) = blocking_not k g h in
      get_non_blocking-file F (set_non_blocking F k fd true).0 g i
        (file-set_non_blocking F k fd g true ∙ g_open)
      ∙ ap (λ b. (b, false)) (set_non_blocking-holds F k fd true i on)

module _ (strerror : Errno → String) (F : FileApi) where
  open F use {Kernel}

  -- `xpsocket_try_accept` either leaves no descriptor in the new socket, or the new socket is the
  -- result and its descriptor is in non-blocking mode.
  pub try_accept-non_blocking :
      (fresh : ℕ) (fl_errno : Errno) (k : Kernel) (accept : Call ℤ)
      → ((try_accept strerror F fresh fl_errno k accept).s ≡ minus_one)
        ⊎ (((try_accept strerror F fresh fl_errno k accept).values ≡ userdata fresh ∷ [])
            × (get_non_blocking F
                  (try_accept strerror F fresh fl_errno k accept).kernel
                  (try_accept strerror F fresh fl_errno k accept).s
                ≡ (true, false)))
  unfolding try_accept
  try_accept-non_blocking fresh fl_errno k (fails errno) = inl refl
  try_accept-non_blocking fresh fl_errno k (done fd) = elim (set_non_blocking-on F k fd) [
    | inl failed ↦ inl (rw (failed, try_accept) refl)
    | inr (set, on) ↦ inr (rw (set, try_accept) refl, rw (set, try_accept) on)
  ]

  -- Where `xpio_pair` returns its two sockets, the descriptors of both are in non-blocking mode.
  pub open_pair-non_blocking :
      (fresh_a fresh_b : ℕ) (fl_errno : Errno) (k : Kernel) (pair : Call (ℤ × ℤ))
      → (open_pair strerror F fresh_a fresh_b fl_errno k pair).values
        ≡ userdata fresh_a ∷ userdata fresh_b ∷ []
      → (get_non_blocking F
            (open_pair strerror F fresh_a fresh_b fl_errno k pair).kernel
            (open_pair strerror F fresh_a fresh_b fl_errno k pair).a
          ≡ (true, false))
        × (get_non_blocking F
              (open_pair strerror F fresh_a fresh_b fl_errno k pair).kernel
              (open_pair strerror F fresh_a fresh_b fl_errno k pair).b
            ≡ (true, false))
  unfolding open_pair push_error
  open_pair-non_blocking fresh_a fresh_b fl_errno k (fails errno) h = cc
  open_pair-non_blocking fresh_a fresh_b fl_errno k (done (a, b)) h =
      elim (set_non_blocking-on F k a) [
        | inl failed ↦ absurd (refused (rw (failed, open_pair, push_error) at h))
        | inr (set_a, on_a) ↦ elim (set_non_blocking-on F (set_non_blocking F k a true).0 b) [
          | inl failed ↦ absurd (refused (rw failed at (rw (set_a, open_pair, push_error) at h)))
          | inr (set_b, on_b) ↦ (
            rw (set_a, open_pair)
                (set_non_blocking-keeps F (set_non_blocking F k a true).0 b a on_a),
            rw (set_a, open_pair) on_b,
          )
        ]
      ]
    where
      refused :
          ◌≡◌ {A = List LuaValue}
            (nil ∷ string (strerror fl_errno) ∷ [])
            (userdata fresh_a ∷ userdata fresh_b ∷ [])
          → ⊥
      refused e = cc
