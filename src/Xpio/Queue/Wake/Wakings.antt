-- ===== src/Xpio/Queue/Wake/Wakings.antt =====
-- luau/xpio_c.c: the effect of waking some of the waiting tasks of a queue, one after the other.
use flake.Common.{
  ℕ, ◌≡◌, refl, ap, ◌∙◌, sym, subst, Bool, true, false, ◌&&◌, ◌||◌, none, some, List, [], ◌∷◌, ◌++◌,
  arith, ◌==◌, Bool-cases, inl, inr, ==_iff, if◌then◌else◌,
}
use flake.Lua.Table.{Key, key_eq, key_eq_iff, TableApi}
use flake.Xpio.Proc.Chain.{mem}
use flake.Xpio.Queue.{Mode, Task, State, put_entry, put_task}
use flake.Xpio.Queue.Registry.{
  mode_eq, mode_eq-eq, mode_eq_of, registered, registered-put_entry, IsValid, dequeued,
  dequeued-IsValid,
}
use flake.Xpio.Queue.Wake.{clear_dequeue}

-- A task that is woken, with the mode and the key under which it waits.
pub record Waking : Type 0 where
  pub mode : Mode
  pub key : Key
  pub task : ℕ

abbrev pub woken : List Waking → List ℕ
woken [] = []
woken (w ∷ ws) = w.task ∷ woken ws

abbrev pub matches : Mode → Key → Waking → Bool
matches mode key w = mode_eq w.mode mode && key_eq w.key key

abbrev pub wakes_entry : Mode → Key → List Waking → Bool
wakes_entry mode key [] = false
wakes_entry mode key (w ∷ ws) = matches mode key w || wakes_entry mode key ws

pub woken-append : (vs ws : List Waking) → woken (vs ++ ws) ≡ woken vs ++ woken ws
woken-append [] ws = refl
woken-append (v ∷ vs) ws = ap (◌∷◌ v.task) (woken-append vs ws)

module _ (T : TableApi) (q : ℕ) where
  abbrev pub woke : State T → Waking → State T
  woke s w = put_entry T (clear_dequeue T q s w.task) q w.mode w.key none

  abbrev pub woke_all : State T → List Waking → State T
  woke_all s [] = s
  woke_all s (w ∷ ws) = woke_all (woke s w) ws

  pub woke_all-append :
      (s : State T) (vs ws : List Waking) → woke_all s (vs ++ ws) ≡ woke_all (woke_all s vs) ws
  woke_all-append s [] ws = refl
  woke_all-append s (v ∷ vs) ws = woke_all-append (woke s v) vs ws

  registered-woke :
      (s : State T) (w : Waking) (r : ℕ) (mode : Mode) (key : Key)
      → registered T (woke s w) r mode key
        ≡ (if (r == q) && matches mode key w then none else registered T s r mode key)
  unfolding clear_dequeue put_task
  registered-woke s w r mode key =
      registered-put_entry T (clear_dequeue T q s w.task) q r w.mode mode w.key key none

  tasks-woke :
      (s : State T) (w : Waking) (t : ℕ)
      → (woke s w).tasks t
        ≡ (if t == w.task then record (s.tasks t) { dequeue = none } else s.tasks t)
  unfolding clear_dequeue put_entry put_task
  tasks-woke s w t = ground (arith, ==_iff t w.task)

  -- The entries of the woken tasks go, and no other entry of any queue does.
  pub registered-woke_all :
      (s : State T) (ws : List Waking) (r : ℕ) (mode : Mode) (key : Key)
      → registered T (woke_all s ws) r mode key
        ≡ (if (r == q) && wakes_entry mode key ws then none else registered T s r mode key)
  registered-woke_all s [] r mode key = ground arith
  registered-woke_all s (w ∷ ws) r mode key =
      registered-woke_all (woke s w) ws r mode key ∙ ground (arith, registered-woke s w r mode key)

  -- The woken tasks are no longer scheduled; the fields of the others stay.
  pub tasks-woke_all :
      (s : State T) (ws : List Waking) (t : ℕ)
      → (woke_all s ws).tasks t
        ≡ (if mem t (woken ws) then record (s.tasks t) { dequeue = none } else s.tasks t)
  tasks-woke_all s [] t = refl
  tasks-woke_all s (w ∷ ws) t = tasks-woke_all (woke s w) ws t ∙ ground (arith, tasks-woke s w t)

  -- Each waits in the state, and no two under one mode and key.
  abbrev pub AllWait : State T → List Waking → Type 0
  AllWait s [] = Unit {0}
  AllWait s (w ∷ ws) =
      (registered T s q w.mode w.key ≡ some w.task)
      × (wakes_entry w.mode w.key ws ≡ false)
      × AllWait s ws

  woke-IsValid :
      (s : State T) (w : Waking)
      → IsValid T s
      → registered T s q w.mode w.key ≡ some w.task
      → IsValid T (woke s w)
  unfolding clear_dequeue put_entry put_task
  woke-IsValid s w valid held =
      let at = valid q w.mode w.key w.task held in
      let same : dequeued T s q w.task w.key w.mode ≡ woke s w = sym (
        ap
          (λ (f : Task).
            put_task T (put_entry T s q w.mode w.key none) w.task (record f { dequeue = none }))
          at) in
      subst (IsValid T) same (dequeued-IsValid T s q w.task w.key w.mode valid at)

  AllWait-woke :
      (s : State T) (w : Waking) (ws : List Waking)
      → wakes_entry w.mode w.key ws ≡ false
      → AllWait s ws
      → AllWait (woke s w) ws
  AllWait-woke s w [] h a = tt
  AllWait-woke s w (v ∷ ws) h (held, apart, rest) = (
    registered-woke s w q v.mode v.key
        ∙ ground (
          arith,
          mode_eq-eq w.mode v.mode,
          mode_eq_of v.mode w.mode,
          (key_eq_iff w.key v.key).0,
          (key_eq_iff v.key w.key).1,
        ),
    apart,
    AllWait-woke s w ws (ground arith) rest,
  )

  pub woke_all-IsValid :
      (s : State T) (ws : List Waking) → IsValid T s → AllWait s ws → IsValid T (woke_all s ws)
  woke_all-IsValid s [] valid a = valid
  woke_all-IsValid s (w ∷ ws) valid (held, apart, rest) =
      woke_all-IsValid (woke s w) ws (woke-IsValid s w valid held) (AllWait-woke s w ws apart rest)

  -- A task whose entry goes is among those that are woken.
  mem-woken :
      (s : State T) (mode : Mode) (key : Key) (t : ℕ) (ws : List Waking)
      → AllWait s ws
      → registered T s q mode key ≡ some t
      → wakes_entry mode key ws ≡ true
      → mem t (woken ws) ≡ true
  mem-woken s mode key t [] a at h = cc
  mem-woken s mode key t (w ∷ ws) (held, apart, rest) at h =
      elim (Bool-cases (matches mode key w)) [
        | inl same ↦
            let m : w.mode ≡ mode = mode_eq-eq w.mode mode (ground arith) in
            let k : w.key ≡ key = (key_eq_iff w.key key).0 (ground arith) in
            let here : registered T s q w.mode w.key ≡ registered T s q mode key = rw (m, k) refl in
            ground (arith, ==_iff t w.task)
        | inr other ↦ ground (arith, mem-woken s mode key t ws rest at)
      ]

  pub registered-unlisted :
      (s : State T) (mode : Mode) (key : Key) (t : ℕ) (ws : List Waking)
      → AllWait s ws
      → registered T s q mode key ≡ some t
      → mem t (woken ws) ≡ false
      → registered T (woke_all s ws) q mode key ≡ some t
  registered-unlisted s mode key t ws a at h =
      registered-woke_all s ws q mode key ∙ ground (arith, mem-woken s mode key t ws a at)
