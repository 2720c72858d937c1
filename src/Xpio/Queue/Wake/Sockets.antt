-- ===== src/Xpio/Queue/Wake/Sockets.antt =====
-- luau/xpio_c.c: `XPQueue_wakeSockets` wakes the tasks whose descriptors are ready.
use flake.Common.{
  ℕ, ◌≡◌, refl, ap, ap₂, ◌∙◌, Bool, true, false, ◌&&◌, Option, none, some, List, [], ◌∷◌, ◌++◌,
  append_assoc, append-nil, Option-cases, arith, if◌then◌else◌, ℤ, eq_ℤ, eq_ℤ_iff, Bool-cases, inl,
  inr,
}
use flake.Lua.{Result, ok, ◌>>=◌}
use flake.Lua.Table.{Key, TableApi}
use flake.Xpio.Queue.{Mode, reader, writer, State}
use flake.Xpio.Queue.Registry.{mode_eq, registered}
use flake.Xpio.Queue.PollSet.{PollFd}
use flake.Xpio.Queue.PollSet.Watch.{is_some}
use flake.Xpio.Queue.PollSet.Index.{index_of, NoDupFd}
use flake.Xpio.Queue.Wake.{wakes, wake_one, wake_if, wake_sockets}
use flake.Xpio.Queue.Wake.Wakings.{
  Waking, woken, wakes_entry, woken-append, woke, woke_all, woke_all-append, registered-woke_all,
}

module _ (T : TableApi) (q : ℕ) where
  -- Of one mode: the task that waits for the descriptor, if it is to be woken.
  abbrev pub waking_of : Mode → ℤ → Option ℕ → List Waking
  waking_of mode f none = []
  waking_of mode f (some t) = record { mode = mode; key = Key.fd f; task = t } ∷ []

  abbrev pub waking_if : State T → Mode → PollFd → List Waking
  waking_if s mode p =
      if wakes mode p then waking_of mode p.fd (registered T s q mode (Key.fd p.fd)) else []

  -- In the order of the array: of each descriptor the reader, then the writer.
  abbrev pub wakings : State T → List PollFd → List Waking
  wakings s [] = []
  wakings s (p ∷ ps) = waking_if s reader p ++ (waking_if s writer p ++ wakings s ps)

  -- A task waits for each descriptor that is watched and ready.
  abbrev pub is_held : State T → Mode → PollFd → Bool
  is_held s mode p = if wakes mode p then is_some (registered T s q mode (Key.fd p.fd)) else true

  abbrev pub AllHeld : State T → List PollFd → Type 0
  AllHeld s [] = Unit {0}
  AllHeld s (p ∷ ps) = (is_held s reader p ≡ true) × (is_held s writer p ≡ true) × AllHeld s ps

  wake_one-held :
      (s : State T) (mode : Mode) (f : ℤ) (ready : List ℕ) (t : ℕ)
      → registered T s q mode (Key.fd f) ≡ some t
      → wake_one T q mode f s ready
        ≡ ok (woke T q s (record { mode = mode; key = Key.fd f; task = t }), ready ++ t ∷ [])
  unfolding wake_one
  wake_one-held s mode f ready t at = rw (at, wake_one) refl

  wake_if-wakings :
      (s : State T) (mode : Mode) (p : PollFd) (ready : List ℕ)
      → is_held s mode p ≡ true
      → wake_if T q mode p s ready
        ≡ ok (woke_all T q s (waking_if s mode p), ready ++ woken (waking_if s mode p))
  unfolding wake_if
  wake_if-wakings s mode p ready held = elim (Bool-cases (wakes mode p)) [
    | inl e ↦ elim (Option-cases (registered T s q mode (Key.fd p.fd))) [
      | inr (t, at) ↦ rw (e, wake_if) (rw at (wake_one-held s mode p.fd ready t at))
      | inl gone ↦ absurd (ground arith)
    ]
    | inr e ↦ rw (e, wake_if) (rw append-nil refl)
  ]

  -- Waking for one descriptor and mode leaves the entries for the others.
  other_entry :
      (s : State T) (m n : Mode) (p : PollFd) (f : ℤ)
      → (mode_eq m n && eq_ℤ p.fd f) ≡ false
      → registered T (woke_all T q s (waking_if s m p)) q n (Key.fd f)
        ≡ registered T s q n (Key.fd f)
  other_entry s m n p f apart =
      registered-woke_all T q s (waking_if s m p) q n (Key.fd f)
      ∙ ground (arith, misses (wakes m p) (registered T s q m (Key.fd p.fd)))
    where
      misses :
          (w : Bool) (o : Option ℕ)
          → wakes_entry n (Key.fd f) (if w then waking_of m p.fd o else []) ≡ false
      misses false o = refl
      misses true none = refl
      misses true (some t) = ground arith

  -- The tables say the same of the descriptors of the array.
  abbrev Agree : State T → State T → List PollFd → Type 0
  Agree s u [] = Unit {0}
  Agree s u (p ∷ ps) =
      (registered T u q reader (Key.fd p.fd) ≡ registered T s q reader (Key.fd p.fd))
      × (registered T u q writer (Key.fd p.fd) ≡ registered T s q writer (Key.fd p.fd))
      × Agree s u ps

  Agree-wakings : (s u : State T) (ps : List PollFd) → Agree s u ps → wakings u ps ≡ wakings s ps
  Agree-wakings s u [] a = refl
  Agree-wakings s u (p ∷ ps) (r, w, a) = rw (r, w, Agree-wakings s u ps a) refl

  Agree-AllHeld : (s u : State T) (ps : List PollFd) → Agree s u ps → AllHeld s ps → AllHeld u ps
  Agree-AllHeld s u [] a h = tt
  Agree-AllHeld s u (p ∷ ps) (r, w, a) (hr, hw, h) = (rw r hr, rw w hw, Agree-AllHeld s u ps a h)

  woke_all-Agree :
      (s : State T) (p : PollFd) (m : Mode) (ps : List PollFd)
      → index_of p.fd ps ≡ none
      → Agree s (woke_all T q s (waking_if s m p)) ps
  woke_all-Agree s p m [] new = tt
  woke_all-Agree s p m (o ∷ ps) new = (
    other_entry s m reader p o.fd (ground (arith, eq_ℤ_iff o.fd p.fd, eq_ℤ_iff p.fd o.fd)),
    other_entry s m writer p o.fd (ground (arith, eq_ℤ_iff o.fd p.fd, eq_ℤ_iff p.fd o.fd)),
    woke_all-Agree s p m ps (ground arith),
  )

  Agree-trans : (s u v : State T) (ps : List PollFd) → Agree s u ps → Agree u v ps → Agree s v ps
  Agree-trans s u v [] a b = tt
  Agree-trans s u v (p ∷ ps) (r, w, a) (r', w', b) = (r' ∙ r, w' ∙ w, Agree-trans s u v ps a b)

  -- Three groups of tasks, woken in turn.
  gather :
      (s : State T) (ready : List ℕ) (a b c : List Waking)
      → ◌≡◌ {A = Result (State T × List ℕ)}
          (ok (
            woke_all T q (woke_all T q (woke_all T q s a) b) c,
            ((ready ++ woken a) ++ woken b) ++ woken c,
          ))
          (ok (woke_all T q s (a ++ (b ++ c)), ready ++ woken (a ++ (b ++ c))))
  gather s ready a b c =
      rw
        (
          woke_all-append T q s a (b ++ c),
          woke_all-append T q (woke_all T q s a) b c,
          woken-append a (b ++ c),
          woken-append b c,
          append_assoc,
        )
        (rw append_assoc refl)

  -- `XPQueue_wakeSockets` runs without an error, and wakes the tasks of the array in its order.
  pub wake_sockets-wakings :
      (ps : List PollFd) (s : State T) (ready : List ℕ)
      → NoDupFd ps
      → AllHeld s ps
      → wake_sockets T q ps s ready
        ≡ ok (woke_all T q s (wakings s ps), ready ++ woken (wakings s ps))
  unfolding wake_sockets
  wake_sockets-wakings [] s ready nd h = rw append-nil refl
  wake_sockets-wakings (p ∷ ps) s ready (new, nd) (hr, hw, h) =
      let wr : List Waking = waking_if s reader p in
      let s1 : State T = woke_all T q s wr in
      let still : registered T s1 q writer (Key.fd p.fd) ≡ registered T s q writer (Key.fd p.fd) =
        other_entry s reader writer p p.fd refl in
      let ww : List Waking = waking_if s1 writer p in
      let same_w : ww ≡ waking_if s writer p =
        ap (λ o. if wakes writer p then waking_of writer p.fd o else []) still in
      let s2 : State T = woke_all T q s1 ww in
      let agree : Agree s s2 ps =
        Agree-trans s s1 s2 ps (woke_all-Agree s p reader ps new)
          (woke_all-Agree s1 p writer ps new) in
      ap
        (λ (r : Result (State T × List ℕ)).
          r >>= λ x. wake_if T q writer p x.0 x.1 >>= λ y. wake_sockets T q ps y.0 y.1)
        (wake_if-wakings s reader p ready hr)
      ∙ ap (λ (r : Result (State T × List ℕ)). r >>= λ y. wake_sockets T q ps y.0 y.1)
          (wake_if-wakings s1 writer p (ready ++ woken wr) (rw still hw))
      ∙ wake_sockets-wakings ps s2 ((ready ++ woken wr) ++ woken ww) nd
          (Agree-AllHeld s s2 ps agree h)
      ∙ (gather s ready wr ww (wakings s2 ps))
      ∙ ap₂
          (λ (b c : List Waking).
            ok (woke_all T q s (wr ++ (b ++ c)), ready ++ woken (wr ++ (b ++ c))))
          same_w (Agree-wakings s s2 ps agree)
