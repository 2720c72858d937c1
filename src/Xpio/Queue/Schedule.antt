-- ===== src/Xpio/Queue/Schedule.antt =====
-- luau/xpio_c.c: what scheduling a task and taking it back do to the queue.
use flake.Common.{
  ℕ, ◌≡◌, refl, ◌∙◌, ap, sym, subst, true, ◌&&◌, none, some, [], ◌∷◌, arith, ◌==◌, if◌then◌else◌,
  Bool-cases, inl, inr, ◌≢◌, ◌↔◌,
}
use flake.Lua.{ok}
use flake.Lua.Table.{Key, key_eq, key_eq_iff, TableApi, Entries, find}
use flake.Xpio.Queue.{
  Mode, reader, writer, child_waiter, State, table, put_entry, put_task, enqueue, dequeue_task,
  is_empty, no_entries, tqueue,
}
use flake.Xpio.Queue.Registry.{
  mode_eq, mode_eq_of, registered, registered-put_entry, IsValid, enqueued, dequeued, enqueue_cases,
  enqueued-IsValid, dequeued-IsValid, dequeue_task-dequeued, registered_same,
}

module _ (T : TableApi) where
  pub enqueue_ok :
      (s t : State T) (task : ℕ) (key : Key) (mode : Mode)
      → enqueue T s task key mode ≡ ok t
      → (q : ℕ) × ((s.tasks task).queue ≡ some q)
        × ((s.tasks task).dequeue ≡ none)
        × (enqueued T s q task key mode ≡ t)
  enqueue_ok s t task key mode done = elim (enqueue_cases T s task key mode) [
    | inl (q, home, idle, e) ↦ (q, home, idle, ground arith)
    | inr (m, e) ↦ absurd (cc)
  ]

  -- A successful `xpqueue_enqueue` keeps the agreement of the tables of every queue with the fields
  -- of the tasks: a task in a table is scheduled, in that mode, with that key, on that queue.
  pub enqueue-IsValid :
      (s t : State T) (task : ℕ) (key : Key) (mode : Mode)
      → IsValid T s
      → enqueue T s task key mode ≡ ok t
      → IsValid T t
  enqueue-IsValid s t task key mode valid done =
      let (q, home, idle, same) = enqueue_ok s t task key mode done in
      subst (IsValid T) same (enqueued-IsValid T s q task key mode valid idle)

  -- A call of a task's `_dequeue` succeeds and keeps the agreement of tables and tasks.
  pub dequeue_task-IsValid :
      (s : State T) (q task : ℕ) (key : Key) (mode : Mode)
      → IsValid T s
      → s.tasks task ≡ record { queue = some q; dequeue = some mode; dequeuedata = some key }
      → (t : State T) × (dequeue_task T s task mode ≡ ok t) × IsValid T t
  dequeue_task-IsValid s q task key mode valid at = (
    dequeued T s q task key mode,
    dequeue_task-dequeued T s q task key mode mode at,
    dequeued-IsValid T s q task key mode valid at,
  )

  enqueued_task :
      (s : State T) (q task : ℕ) (key : Key) (mode : Mode)
      → (enqueued T s q task key mode).tasks task
        ≡ record { queue = some q; dequeue = some mode; dequeuedata = some key }
  unfolding put_task
  enqueued_task s q task key mode = ground arith

  dequeued_idle :
      (s : State T) (q task : ℕ) (key : Key) (mode : Mode)
      → ((dequeued T s q task key mode).tasks task).dequeue ≡ none
  unfolding put_task
  dequeued_idle s q task key mode = ground arith

  pub registered-dequeued :
      (s : State T) (q task r : ℕ) (key j : Key) (mode n : Mode)
      → registered T (dequeued T s q task key mode) r n j
        ≡ (if (r == q) && (mode_eq mode n && key_eq key j) then none else registered T s r n j)
  unfolding put_task
  registered-dequeued s q task r key j mode n = registered-put_entry T s q r mode n key j none

  pub registered-enqueued :
      (s : State T) (q task r : ℕ) (key j : Key) (mode n : Mode)
      → registered T (enqueued T s q task key mode) r n j
        ≡ (if (r == q) && (mode_eq mode n && key_eq key j) then some task else registered T s r n j)
  unfolding put_task
  registered-enqueued s q task r key j mode n =
      registered-put_entry T s q r mode n key j (some task)

  -- Where no other task waits for the key, scheduling a task and calling its `_dequeue` leaves every
  -- table of every queue as it was, and the task not scheduled.
  pub dequeue_task-enqueue :
      (s t : State T) (q task r : ℕ) (key j : Key) (mode n : Mode)
      → (s.tasks task).queue ≡ some q
      → registered T s q mode key ≡ none
      → enqueue T s task key mode ≡ ok t
      → (u : State T) × (dequeue_task T t task mode ≡ ok u)
        × (registered T u r n j ≡ registered T s r n j)
        × ((u.tasks task).dequeue ≡ none)
  dequeue_task-enqueue s t q task r key j mode n home free done =
      let (p, home', idle, same) = enqueue_ok s t task key mode done in
      let q_p : p ≡ q = ground arith in
      let at : t.tasks task
          ≡ record { queue = some p; dequeue = some mode; dequeuedata = some key } =
        subst
          (λ (v : State T).
            v.tasks task ≡ record { queue = some p; dequeue = some mode; dequeuedata = some key })
          same (enqueued_task s p task key mode) in
      (
        dequeued T t p task key mode,
        dequeue_task-dequeued T t p task key mode mode at,
        registered-dequeued t p task r key j mode n ∙ back p q_p same,
        dequeued_idle t p task key mode,
      )
    where
      back :
          (p : ℕ)
          → p ≡ q
          → enqueued T s p task key mode ≡ t
          → (if (r == p) && (mode_eq mode n && key_eq key j) then none else registered T t r n j)
            ≡ registered T s r n j
      back p q_p same =
          let moved : registered T (enqueued T s p task key mode) r n j ≡ registered T t r n j =
            ap (λ (v : State T). registered T v r n j) same in
          elim (Bool-cases ((r == p) && (mode_eq mode n && key_eq key j))) [
            | inl c ↦ rw c (
                sym (
                  registered_same T s p r mode n key j c
                  ∙ ap (λ x. registered T s x mode key) q_p
                  ∙ free))
            | inr c ↦ rw c (sym moved ∙ registered-enqueued s p task r key j mode n ∙ rw c refl)
          ]

  -- Scheduling a task for a key for which another task waits on the same queue displaces that
  -- task: no table holds it any longer, though its `_dequeue` still says that it is scheduled.
  pub enqueue-displaces :
      (s t : State T) (q task old r : ℕ) (key j : Key) (mode n : Mode)
      → IsValid T s
      → (s.tasks task).queue ≡ some q
      → registered T s q mode key ≡ some old
      → enqueue T s task key mode ≡ ok t
      → (registered T t r n j ≢ some old) × ((t.tasks old).dequeue ≡ some mode)
  unfolding put_task put_entry
  enqueue-displaces s t q task old r key j mode n valid home held done =
      let (p, home', idle, same) = enqueue_ok s t task key mode done in
      let q_p : p ≡ q = ground arith in
      subst
        (λ (v : State T). (registered T v r n j ≢ some old) × ((v.tasks old).dequeue ≡ some mode))
        same (displaced p q_p idle)
    where
      fields : s.tasks old ≡ record { queue = some q; dequeue = some mode; dequeuedata = some key }
      fields = valid q mode key old held

      displaced :
          (p : ℕ)
          → p ≡ q
          → (s.tasks task).dequeue ≡ none
          → (registered T (enqueued T s p task key mode) r n j ≢ some old)
            × (((enqueued T s p task key mode).tasks old).dequeue ≡ some mode)
      displaced p q_p idle = (
        λ h. elim (Bool-cases ((r == p) && (mode_eq mode n && key_eq key j))) [
          | inl c ↦ ground (arith, fields, registered-enqueued s p task r key j mode n)
          | inr c ↦ ground (
            arith,
            fields,
            registered-enqueued s p task r key j mode n,
            valid r n j old,
            mode_eq_of mode n,
            (key_eq_iff key j).1,
          )
        ],
        ground (arith, fields),
      )

  no_entries-find : (es : Entries) → no_entries T es ≡ true → (k : Key) → find k es ≡ none
  no_entries-find [] h k = refl
  no_entries-find (e ∷ es) h k = cc

  find-no_entries : (es : Entries) → ((k : Key) → find k es ≡ none) → no_entries T es ≡ true
  find-no_entries [] h = refl
  find-no_entries ((k, t) ∷ es) h = absurd (ground (arith, h k, (key_eq_iff k k).1))

  no_entries_iff :
      (s : State T) (q : ℕ) (mode : Mode)
      → (no_entries T (T.entries (table T (s.queues q) mode)) ≡ true)
        ↔ ((key : Key) → registered T s q mode key ≡ none)
  no_entries_iff s q mode = (
    λ h key. sym (T.find-entries (table T (s.queues q) mode) key) ∙ no_entries-find _ h key,
    λ h. find-no_entries _ (λ key. T.find-entries (table T (s.queues q) mode) key ∙ h key),
  )

  -- `xpqueue_isEmpty` says true exactly when no task waits on the queue, in any mode.
  pub is_empty_iff :
      (s : State T) (q : ℕ)
      → (is_empty T s q ≡ true) ↔ ((mode : Mode) (key : Key) → registered T s q mode key ≡ none)
  unfolding is_empty
  is_empty_iff s q = (
    λ h mode. elim mode as (λ m. (key : Key) → registered T s q m key ≡ none) [
      | reader ↦ (no_entries_iff s q reader).0 (ground arith)
      | writer ↦ (no_entries_iff s q writer).0 (ground arith)
      | child_waiter ↦ (no_entries_iff s q child_waiter).0 (ground arith)
    ],
    λ h.
        rw
          (
            (no_entries_iff s q reader).1 (h reader),
            (no_entries_iff s q writer).1 (h writer),
            (no_entries_iff s q child_waiter).1 (h child_waiter),
            is_empty,
          )
          refl,
  )

  pub registered-tqueue :
      (s : State T) (fresh q : ℕ) (mode : Mode) (key : Key)
      → registered T (tqueue T fresh s) q mode key
        ≡ (if q == fresh then none else registered T s q mode key)
  unfolding tqueue
  registered-tqueue s fresh q reader key = ground (arith, T.get-empty key)
  registered-tqueue s fresh q writer key = ground (arith, T.get-empty key)
  registered-tqueue s fresh q child_waiter key = ground (arith, T.get-empty key)

  -- `xpio_tqueue` makes an empty queue, and keeps the agreement of tables and tasks.
  pub tqueue-is_empty :
      (s : State T) (fresh : ℕ)
      → IsValid T s
      → IsValid T (tqueue T fresh s) × (is_empty T (tqueue T fresh s) fresh ≡ true)
  unfolding tqueue
  tqueue-is_empty s fresh valid = (
    λ q mode key task e.
        ground (arith, registered-tqueue s fresh q mode key, valid q mode key task),
    (is_empty_iff (tqueue T fresh s) fresh).1
        λ mode key. ground (arith, registered-tqueue s fresh fresh mode key),
  )
