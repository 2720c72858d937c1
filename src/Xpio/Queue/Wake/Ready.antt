-- ===== src/Xpio/Queue/Wake/Ready.antt =====
-- luau/xpio_c.c: `XPQueue_wakeSockets` wakes exactly the tasks whose descriptors are ready.
use flake.Common.{
  ℕ, ◌≡◌, refl, ap, ◌∙◌, Bool, true, false, ◌&&◌, ◌||◌, Option, none, some, List, [], ◌∷◌, ◌++◌,
  arith, ◌==◌, if◌then◌else◌, ℤ, eq_ℤ, eq_ℤ_iff, Bool-cases, inl, inr,
}
use flake.Lua.{ok}
use flake.Lua.Table.{Key, TableApi}
use flake.Xpio.Proc.Chain.{mem}
use flake.Xpio.Queue.{Mode, reader, writer, child_waiter, Task, State}
use flake.Xpio.Queue.Registry.{mode_eq, registered, IsValid}
use flake.Xpio.Queue.PollSet.{PollFd}
use flake.Xpio.Queue.PollSet.Index.{index_of, NoDupFd}
use flake.Xpio.Queue.PollSet.Watch.{is_some}
use flake.Xpio.Queue.Wake.{wakes, wake_sockets}
use flake.Xpio.Queue.Wake.Events.{any_of, ends_wait, asked_for, is_ready, wakes_lem}
use flake.Xpio.Queue.Wake.Wakings.{
  Waking, woken, wakes_entry, woken-append, woke_all, registered-woke_all, tasks-woke_all, AllWait,
  woke_all-IsValid,
}
use flake.Xpio.Queue.Wake.Sockets.{
  waking_of, waking_if, wakings, is_held, AllHeld, wake_sockets-wakings,
}

pub wakes_entry-append :
    (mode : Mode) (key : Key) (vs ws : List Waking)
    → wakes_entry mode key (vs ++ ws) ≡ (wakes_entry mode key vs || wakes_entry mode key ws)
wakes_entry-append mode key [] ws = refl
wakes_entry-append mode key (v ∷ vs) ws = ground (arith, wakes_entry-append mode key vs ws)

pub mem-append : (t : ℕ) (xs ys : List ℕ) → mem t (xs ++ ys) ≡ (mem t xs || mem t ys)
mem-append t [] ys = refl
mem-append t (x ∷ xs) ys = ground (arith, mem-append t xs ys)

-- No entry is in both lists.
abbrev Apart : List Waking → List Waking → Type 0
Apart [] ws = Unit {0}
Apart (v ∷ vs) ws = (wakes_entry v.mode v.key ws ≡ false) × Apart vs ws

is_ready_other :
    (mode : Mode) (f : ℤ) (ps : List PollFd) → index_of f ps ≡ none → is_ready mode f ps ≡ false
is_ready_other mode f [] new = refl
is_ready_other mode f (p ∷ ps) new = ground (arith, is_ready_other mode f ps)

module _ (T : TableApi) (q : ℕ) where
  waking_if-entry :
      (s : State T) (m n : Mode) (p : PollFd) (f : ℤ)
      → is_held T q s m p ≡ true
      → wakes_entry n (Key.fd f) (waking_if T q s m p) ≡ (mode_eq m n && (eq_ℤ p.fd f && wakes m p))
  waking_if-entry s m n p f held = entry (wakes m p) (registered T s q m (Key.fd p.fd)) held
    where
      entry :
          (w : Bool) (o : Option ℕ)
          → (if w then is_some o else true) ≡ true
          → wakes_entry n (Key.fd f) (if w then waking_of T q m p.fd o else [])
            ≡ (mode_eq m n && (eq_ℤ p.fd f && w))
      entry false o h = ground arith
      entry true none h = cc
      entry true (some t) h = ground arith

  -- An entry is cleared exactly if its descriptor is ready.
  pub wakes_entry-is_ready :
      (s : State T) (mode : Mode) (f : ℤ) (ps : List PollFd)
      → AllHeld T q s ps
      → wakes_entry mode (Key.fd f) (wakings T q s ps) ≡ is_ready mode f ps
  wakes_entry-is_ready s mode f [] h = refl
  wakes_entry-is_ready s mode f (p ∷ ps) (hr, hw, h) =
      wakes_entry-append mode (Key.fd f) (waking_if T q s reader p)
        (waking_if T q s writer p ++ wakings T q s ps)
      ∙ ap (λ b. wakes_entry mode (Key.fd f) (waking_if T q s reader p) || b)
          (wakes_entry-append mode (Key.fd f) (waking_if T q s writer p) (wakings T q s ps))
      ∙ rw
          (
            waking_if-entry s reader mode p f hr,
            waking_if-entry s writer mode p f hw,
            wakes_entry-is_ready s mode f ps h,
          )
          (modes mode)
    where
      modes :
          (m : Mode)
          → ((mode_eq reader m && (eq_ℤ p.fd f && wakes reader p))
              || ((mode_eq writer m && (eq_ℤ p.fd f && wakes writer p)) || is_ready m f ps))
            ≡ ((eq_ℤ p.fd f && (asked_for m p && any_of p.revents (ends_wait m)))
                || is_ready m f ps)
      modes reader = ap (λ w. (eq_ℤ p.fd f && w) || is_ready reader f ps) (wakes_lem reader p)
      modes writer = ap (λ w. (eq_ℤ p.fd f && w) || is_ready writer f ps) (wakes_lem writer p)
      modes child_waiter = ground arith

  mem-waking_if :
      (s : State T) (mode : Mode) (p : PollFd) (f : ℤ) (t : ℕ)
      → registered T s q mode (Key.fd f) ≡ some t
      → (eq_ℤ p.fd f && wakes mode p) ≡ true
      → mem t (woken (waking_if T q s mode p)) ≡ true
  mem-waking_if s mode p f t at h =
      let same : p.fd ≡ f = ground (arith, eq_ℤ_iff p.fd f) in
      let ready : wakes mode p ≡ true = ground arith in
      ap
        (λ b.
          mem t (
            woken
              (if b then waking_of T q mode p.fd (registered T s q mode (Key.fd p.fd)) else [])))
        ready
      ∙ ap (λ g. mem t (woken (waking_of T q mode p.fd (registered T s q mode (Key.fd g))))) same
      ∙ ap (λ o. mem t (woken (waking_of T q mode p.fd o))) at
      ∙ ground arith

  -- Where a task waits for a descriptor that is ready, it is among those that are woken.
  woken_complete :
      (s : State T) (mode : Mode) (f : ℤ) (t : ℕ) (ps : List PollFd)
      → registered T s q mode (Key.fd f) ≡ some t
      → is_ready mode f ps ≡ true
      → mem t (woken (wakings T q s ps)) ≡ true
  woken_complete s mode f t [] at h = cc
  woken_complete s mode f t (p ∷ ps) at h =
      rw
        (
          woken-append (waking_if T q s reader p) (waking_if T q s writer p ++ wakings T q s ps),
          woken-append (waking_if T q s writer p) (wakings T q s ps),
          mem-append t (woken (waking_if T q s reader p))
              (woken (waking_if T q s writer p) ++ woken (wakings T q s ps)),
          mem-append t (woken (waking_if T q s writer p)) (woken (wakings T q s ps)),
        )
        (elim (Bool-cases (eq_ℤ p.fd f && wakes mode p)) [
          | inl here ↦ found mode at here
          | inr apart ↦
              ground (arith, woken_complete s mode f t ps at (ground (arith, wakes_lem mode p)))
        ])
    where
      found :
          (m : Mode)
          → registered T s q m (Key.fd f) ≡ some t
          → (eq_ℤ p.fd f && wakes m p) ≡ true
          → (mem t (woken (waking_if T q s reader p))
              || (mem t (woken (waking_if T q s writer p)) || mem t (woken (wakings T q s ps))))
            ≡ true
      found reader a h' = ground (arith, mem-waking_if s reader p f t a h')
      found writer a h' = ground (arith, mem-waking_if s writer p f t a h')
      found child_waiter a h' = ground arith

  AllWait-append :
      (s : State T) (vs ws : List Waking)
      → AllWait T q s vs
      → AllWait T q s ws
      → Apart vs ws
      → AllWait T q s (vs ++ ws)
  AllWait-append s [] ws a b c = b
  AllWait-append s (v ∷ vs) ws (at, new, a) b (d, c) =
      (at, wakes_entry-append v.mode v.key vs ws ∙ rw (new, d) refl, AllWait-append s vs ws a b c)

  AllWait-waking_if : (s : State T) (m : Mode) (p : PollFd) → AllWait T q s (waking_if T q s m p)
  AllWait-waking_if s m p = waits (wakes m p) (registered T s q m (Key.fd p.fd)) refl
    where
      waits :
          (w : Bool) (o : Option ℕ)
          → registered T s q m (Key.fd p.fd) ≡ o
          → AllWait T q s (if w then waking_of T q m p.fd o else [])
      waits false o e = tt
      waits true none e = tt
      waits true (some t) e = (e, refl, tt)

  Apart-waking_if :
      (s : State T) (m : Mode) (p : PollFd) (ws : List Waking)
      → wakes_entry m (Key.fd p.fd) ws ≡ false
      → Apart (waking_if T q s m p) ws
  Apart-waking_if s m p ws h = apart (wakes m p) (registered T s q m (Key.fd p.fd))
    where
      apart : (w : Bool) (o : Option ℕ) → Apart (if w then waking_of T q m p.fd o else []) ws
      apart false o = tt
      apart true none = tt
      apart true (some t) = (h, tt)

  -- Where no descriptor is twice in the array, the woken entries are different ones.
  pub wakings-AllWait :
      (s : State T) (ps : List PollFd)
      → NoDupFd ps
      → AllHeld T q s ps
      → AllWait T q s (wakings T q s ps)
  wakings-AllWait s [] nd h = tt
  wakings-AllWait s (p ∷ ps) (new, nd) (hr, hw, h) =
      let rest : (m : Mode) → wakes_entry m (Key.fd p.fd) (wakings T q s ps) ≡ false =
        λ m. wakes_entry-is_ready s m p.fd ps h ∙ is_ready_other m p.fd ps new in
      AllWait-append s (waking_if T q s reader p) (waking_if T q s writer p ++ wakings T q s ps)
        (AllWait-waking_if s reader p)
        (AllWait-append s (waking_if T q s writer p) (wakings T q s ps)
          (AllWait-waking_if s writer p) (wakings-AllWait s ps nd h)
          (Apart-waking_if s writer p (wakings T q s ps) (rest writer)))
        (Apart-waking_if s reader p (waking_if T q s writer p ++ wakings T q s ps) (
          wakes_entry-append reader (Key.fd p.fd) (waking_if T q s writer p) (wakings T q s ps)
          ∙ rw (rest reader, waking_if-entry s writer reader p p.fd hw) refl))

  -- `XPQueue_wakeSockets` on an array in which no descriptor is twice and a task waits for each one
  -- that is ready: it succeeds, tables and tasks still agree, an entry of a table is cleared exactly
  -- if it is of this queue and its descriptor is ready in its mode, and `_dequeue` is cleared of
  -- exactly the tasks that are appended to the array of ready tasks. A descriptor is ready for a
  -- reader that asked on POLLIN, for a writer that asked on POLLOUT, and for both on POLLERR, POLLHUP
  -- and POLLNVAL.
  pub wake_sockets-is_ready :
      (s : State T) (ps : List PollFd) (ready : List ℕ)
      → IsValid T s
      → NoDupFd ps
      → AllHeld T q s ps
      → (t : State T) × (ws : List ℕ) × (wake_sockets T q ps s ready ≡ ok (t, ready ++ ws))
        × IsValid T t
        × ((r : ℕ) (mode : Mode) (f : ℤ)
            → registered T t r mode (Key.fd f)
              ≡ (if (r == q) && is_ready mode f ps then none else registered T s r mode (Key.fd f)))
        × ((i : ℕ)
            → t.tasks i ≡ (if mem i ws then record (s.tasks i) { dequeue = none } else s.tasks i))
  wake_sockets-is_ready s ps ready valid nd h =
      let ws : List Waking = wakings T q s ps in
      (
        woke_all T q s ws,
        woken ws,
        wake_sockets-wakings T q ps s ready nd h,
        woke_all-IsValid T q s ws valid (wakings-AllWait s ps nd h),
        λ r mode f.
            registered-woke_all T q s ws r mode (Key.fd f)
            ∙ ap (λ b. if (r == q) && b then none else registered T s r mode (Key.fd f))
                (wakes_entry-is_ready s mode f ps h),
        tasks-woke_all T q s ws,
      )

  -- A task that waits for a descriptor that is ready is put into the array of ready tasks, and its
  -- `_dequeue` is cleared. A descriptor is ready for a reader that asked on POLLIN, for a writer
  -- that asked on POLLOUT, and for both on POLLERR, POLLHUP and POLLNVAL; no descriptor is twice in
  -- the array, and a task waits for each one that is ready.
  pub wake_sockets-woken :
      (s : State T) (ps : List PollFd) (ready : List ℕ) (mode : Mode) (f : ℤ) (task : ℕ)
      → NoDupFd ps
      → AllHeld T q s ps
      → registered T s q mode (Key.fd f) ≡ some task
      → is_ready mode f ps ≡ true
      → (t : State T) × (ws : List ℕ) × (wake_sockets T q ps s ready ≡ ok (t, ready ++ ws))
        × (mem task ws ≡ true)
        × ((t.tasks task).dequeue ≡ none)
  wake_sockets-woken s ps ready mode f task nd h at go =
      let ws : List Waking = wakings T q s ps in
      let there : mem task (woken ws) ≡ true = woken_complete s mode f task ps at go in
      (
        woke_all T q s ws,
        woken ws,
        wake_sockets-wakings T q ps s ready nd h,
        there,
        ap (λ (x : Task). x.dequeue) (tasks-woke_all T q s ws task) ∙ rw there refl,
      )
