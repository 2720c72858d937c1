-- ===== src/Xpio/Queue/Wait/Children.antt =====
-- luau/xpio_c.c: `XPQueue_wakeChildWaiters` wakes the tasks whose child has been reaped.
use flake.Common.{
  ℕ, ◌+◌, ◌≡◌, refl, ap, ap₂, ◌∙◌, sym, Bool, true, false, ◌&&◌, none, some, List, [], ◌∷◌, ◌++◌,
  append_assoc, append-nil, arith, ◌==◌, ==_iff, if◌then◌else◌, Option-cases, Bool-cases, inl, inr,
}
use flake.Lua.{Result, ok}
use flake.Lua.Table.{Key, key_eq_iff, Entries, find, DistinctKeys, TableApi}
use flake.Xpio.Proc.{Procs, proc_is_exited}
use flake.Xpio.Queue.{Mode, reader, writer, child_waiter, State}
use flake.Xpio.Queue.Registry.{mode_eq, registered}
use flake.Xpio.Queue.PollSet.Watch.{is_some}
use flake.Xpio.Queue.Wake.{wake_children}
use flake.Xpio.Queue.Wake.Wakings.{
  Waking, woken, wakes_entry, woke, woke_all, registered-woke_all, AllWait,
}

-- Of the object that a key is.
abbrev pub is_exited_key : Procs → Key → Bool
is_exited_key ps (Key.fd f) = false
is_exited_key ps (Key.proc p) = elim (proc_is_exited ps p) [ none ↦ false | some b ↦ b ]

-- Every key is a process object.
abbrev pub ProcKeys : Procs → Entries → Type 0
ProcKeys ps [] = Unit {0}
ProcKeys ps ((Key.fd f, t) ∷ es) = ⊥
ProcKeys ps ((Key.proc p, t) ∷ es) = ((b : Bool) × (proc_is_exited ps p ≡ some b)) × ProcKeys ps es

abbrev pub child_wakings : Procs → Entries → List Waking
child_wakings ps [] = []
child_wakings ps ((k, t) ∷ es) =
    let rest = child_wakings ps es in
    if is_exited_key ps k then record { mode = child_waiter; key = k; task = t } ∷ rest else rest

-- How many still run.
abbrev pub num_running : Procs → Entries → ℕ
num_running ps [] = 0
num_running ps ((k, t) ∷ es) = (if is_exited_key ps k then 0 else 1) + num_running ps es

child_wakings_skip :
    (ps : Procs) (mode : Mode) (k : Key) (es : Entries)
    → find k es ≡ none
    → wakes_entry mode k (child_wakings ps es) ≡ false
child_wakings_skip ps mode k [] h = refl
child_wakings_skip ps mode k ((j, t) ∷ es) h = ground (arith, child_wakings_skip ps mode k es)

-- An entry is cleared exactly if it is of a process object that has exited.
pub wakes_entry-child_wakings :
    (ps : Procs) (mode : Mode) (k : Key) (es : Entries)
    → DistinctKeys es
    → wakes_entry mode k (child_wakings ps es)
      ≡ (mode_eq child_waiter mode && (is_some (find k es) && is_exited_key ps k))
wakes_entry-child_wakings ps mode k [] d = ground arith
wakes_entry-child_wakings ps mode k ((j, t) ∷ es) (new, d) = ground (
  arith,
  wakes_entry-child_wakings ps mode k es d,
  (key_eq_iff j k).0,
  child_wakings_skip ps mode j es new,
)

module _ (T : TableApi) (q : ℕ) where
  -- What is left after an entry whose object has exited or not.
  abbrev whole :
      State T → List ℕ → ℕ → Waking → Entries → Procs → Bool → Result (State T × List ℕ × ℕ)
  whole s ready num w es ps b = ok (
    woke_all T q s (if b then w ∷ child_wakings ps es else child_wakings ps es),
    ready ++ woken (if b then w ∷ child_wakings ps es else child_wakings ps es),
    num + ((if b then 0 else 1) + num_running ps es),
  )

  -- The loop runs without an error.
  pub wake_children-child_wakings :
      (ps : Procs) (es : Entries) (s : State T) (ready : List ℕ) (num : ℕ)
      → ProcKeys ps es
      → wake_children T q ps es s ready num
        ≡ ok (
          woke_all T q s (child_wakings ps es),
          ready ++ woken (child_wakings ps es),
          num + num_running ps es,
        )
  unfolding wake_children
  wake_children-child_wakings ps [] s ready num h =
      rw append-nil (ap (λ n. ok (s, ready, n)) (omega arith))
  wake_children-child_wakings ps ((Key.fd f, t) ∷ es) s ready num h = absurd h
  wake_children-child_wakings ps ((Key.proc p, t) ∷ es) s ready num ((true, e), h) =
      let w : Waking = record { mode = child_waiter; key = Key.proc p; task = t } in
      let first : wake_children T q ps ((Key.proc p, t) ∷ es) s ready num
          ≡ wake_children T q ps es (woke T q s w) (ready ++ t ∷ []) num =
        rw (e, wake_children) refl in
      let ex : is_exited_key ps (Key.proc p) ≡ true = rw (e, is_exited_key) refl in
      first
      ∙ wake_children-child_wakings ps es (woke T q s w) (ready ++ t ∷ []) num h
      ∙ ap₂ (λ (l : List ℕ) (n : ℕ). ok (woke_all T q (woke T q s w) (child_wakings ps es), l, n))
          (append_assoc ready (t ∷ []) (woken (child_wakings ps es))) (omega arith)
      ∙ ap (whole s ready num w es ps) (sym ex)
  wake_children-child_wakings ps ((Key.proc p, t) ∷ es) s ready num ((false, e), h) =
      let w : Waking = record { mode = child_waiter; key = Key.proc p; task = t } in
      let first : wake_children T q ps ((Key.proc p, t) ∷ es) s ready num
          ≡ wake_children T q ps es s ready (num + 1) =
        rw (e, wake_children) refl in
      let ex : is_exited_key ps (Key.proc p) ≡ false = rw (e, is_exited_key) refl in
      first
      ∙ wake_children-child_wakings ps es s ready (num + 1) h
      ∙ ap (λ n. ok (woke_all T q s (child_wakings ps es), ready ++ woken (child_wakings ps es), n))
          (omega arith)
      ∙ ap (whole s ready num w es ps) (sym ex)

  child_wakings-AllWait :
      (ps : Procs) (s : State T) (es : Entries)
      → DistinctKeys es
      → ((k : Key) → is_some (find k es) ≡ true → registered T s q child_waiter k ≡ find k es)
      → AllWait T q s (child_wakings ps es)
  child_wakings-AllWait ps s [] d h = tt
  child_wakings-AllWait ps s ((k, t) ∷ es) (new, d) h =
      let rest : AllWait T q s (child_wakings ps es) =
        child_wakings-AllWait ps s es d (λ j e. h j (ground arith) ∙ ground arith) in
      with_first (is_exited_key ps k) rest
    where
      with_first :
          (b : Bool)
          → AllWait T q s (child_wakings ps es)
          → AllWait T q s (
              if b
              then record { mode = child_waiter; key = k; task = t } ∷ child_wakings ps es
              else child_wakings ps es)
      with_first false rest = rest
      with_first true rest = (
        h k (ground (arith, (key_eq_iff k k).1)) ∙ ground (arith, (key_eq_iff k k).1),
        child_wakings_skip ps child_waiter k es new,
        rest,
      )

  -- Of the table as it stands.
  pub table-AllWait :
      (ps : Procs) (s : State T)
      → AllWait T q s (child_wakings ps (T.entries (s.queues q).children))
  table-AllWait ps s =
      child_wakings-AllWait ps s (T.entries (s.queues q).children)
        (T.entries_distinct (s.queues q).children)
        (λ k h. sym (T.find-entries (s.queues q).children k))

  -- After the loop over the table, its entries for objects that have exited are gone.
  pub registered-child_wakings :
      (ps : Procs) (s : State T) (r : ℕ) (mode : Mode) (k : Key)
      → registered T (woke_all T q s (child_wakings ps (T.entries (s.queues q).children))) r mode k
        ≡ (if (r == q) && (mode_eq child_waiter mode && is_exited_key ps k)
            then none
            else registered T s r mode k)
  registered-child_wakings ps s r mode k =
      registered-woke_all T q s (child_wakings ps (T.entries (s.queues q).children)) r mode k
      ∙ ap (λ b. if (r == q) && b then none else registered T s r mode k)
          (wakes_entry-child_wakings ps mode k (T.entries (s.queues q).children)
            (T.entries_distinct (s.queues q).children))
      ∙ absent mode (T.find-entries (s.queues q).children k)
    where
      absent :
          (m : Mode)
          → find k (T.entries (s.queues q).children) ≡ T.get (s.queues q).children k
          → (if (r == q)
                && (mode_eq child_waiter m
                    && (is_some (find k (T.entries (s.queues q).children)) && is_exited_key ps k))
              then none
              else registered T s r m k)
            ≡ (if (r == q) && (mode_eq child_waiter m && is_exited_key ps k)
                then none
                else registered T s r m k)
      absent reader e = ground arith
      absent writer e = ground arith
      absent child_waiter e = elim (Bool-cases (r == q)) [
        | inr apart ↦ ground arith
        | inl here ↦ elim (Option-cases (T.get (s.queues q).children k)) [
          | inr (t, some_task) ↦ ground arith
          | inl none_left ↦
              let gone : registered T s r child_waiter k ≡ none =
                ap (λ i. registered T s i child_waiter k) ((==_iff r q).0 here) ∙ none_left in
              ground arith
        ]
      ]

-- The object of the key exists.
abbrev pub HasProc : Procs → Key → Type 0
HasProc ps (Key.fd f) = ⊥
HasProc ps (Key.proc p) = (b : Bool) × (proc_is_exited ps p ≡ some b)

pub ProcKeys-find :
    (ps : Procs) (es : Entries)
    → ((k : Key) → is_some (find k es) ≡ true → HasProc ps k)
    → ProcKeys ps es
ProcKeys-find ps [] h = tt
ProcKeys-find ps ((Key.fd f, t) ∷ es) h =
    h (Key.fd f) (ground (arith, (key_eq_iff (Key.fd f) (Key.fd f)).1))
ProcKeys-find ps ((Key.proc p, t) ∷ es) h = (
  h (Key.proc p) (ground (arith, (key_eq_iff (Key.proc p) (Key.proc p)).1)),
  ProcKeys-find ps es (λ k e. h k (ground arith)),
)
