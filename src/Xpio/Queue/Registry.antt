-- ===== src/Xpio/Queue/Registry.antt =====
-- luau/xpio_c.c: the tables of a queue and the fields of the tasks agree.
use flake.Common.{
  ℕ, ◌≡◌, refl, ◌∙◌, ap, ap₂, sym, subst, Bool, true, false, ◌&&◌, Option, none, some, arith, ◌==◌,
  ==_iff, if◌then◌else◌, Bool-cases, Option-cases, inl, inr, ◌⊎◌, String,
}
use flake.Lua.{ok, raised, ◌>>=◌}
use flake.Lua.Table.{Key, key_eq, key_eq_iff, TableApi}
use flake.Xpio.Queue.{
  Mode, reader, writer, child_waiter, Task, Tables, State, table, with_table, put_entry, put_task,
  queue_from_task, enqueue, dequeue_task,
}

abbrev pub mode_eq : Mode → Mode → Bool
mode_eq reader reader = true
mode_eq writer writer = true
mode_eq child_waiter child_waiter = true
mode_eq _ _ = false

pub mode_eq-eq : (m n : Mode) → mode_eq m n ≡ true → m ≡ n
mode_eq-eq reader reader h = refl
mode_eq-eq writer writer h = refl
mode_eq-eq child_waiter child_waiter h = refl
mode_eq-eq reader writer h = cc
mode_eq-eq reader child_waiter h = cc
mode_eq-eq writer reader h = cc
mode_eq-eq writer child_waiter h = cc
mode_eq-eq child_waiter reader h = cc
mode_eq-eq child_waiter writer h = cc

pub mode_eq_of : (m n : Mode) → m ≡ n → mode_eq m n ≡ true
mode_eq_of reader n e = rw (← e)
mode_eq_of writer n e = rw (← e)
mode_eq_of child_waiter n e = rw (← e)

module _ (T : TableApi) where
  open T use {Table, get, put}

  table-with_table :
      (ts : Tables T) (m n : Mode) (t : Table)
      → table T (with_table T ts m t) n ≡ (if mode_eq m n then t else table T ts n)
  table-with_table ts reader reader t = refl
  table-with_table ts reader writer t = refl
  table-with_table ts reader child_waiter t = refl
  table-with_table ts writer reader t = refl
  table-with_table ts writer writer t = refl
  table-with_table ts writer child_waiter t = refl
  table-with_table ts child_waiter reader t = refl
  table-with_table ts child_waiter writer t = refl
  table-with_table ts child_waiter child_waiter t = refl

  pub get-put :
      (t : Table) (k j : Key) (v : Option ℕ)
      → get (put t k v) j ≡ (if key_eq k j then v else get t j)
  get-put t k j v = elim (Bool-cases (key_eq k j)) [
    | inl e ↦
        rw e (subst (λ i. get (put t k v) i ≡ v) ((key_eq_iff k j).0 e) (T.get-put_self t k v))
    | inr e ↦ rw e (T.get-put_ne t k j v e)
  ]

  -- t[key], for the table of a queue and a mode.
  abbrev pub registered : State T → ℕ → Mode → Key → Option ℕ
  registered s q mode key = get (table T (s.queues q) mode) key

  -- The table after a write to the same queue.
  put_entry_same :
      (s : State T) (q r : ℕ) (m n : Mode) (k j : Key) (v : Option ℕ)
      → (r == q) ≡ true
      → registered (put_entry T s q m k v) r n j
        ≡ get (if mode_eq m n then put (table T (s.queues q) m) k v else table T (s.queues q) n) j
  unfolding put_entry
  put_entry_same s q r m n k j v e =
      let t : Table = put (table T (s.queues q) m) k v in
      ap (λ b. get (table T (if b then with_table T (s.queues q) m t else s.queues r) n) j) e
      ∙ ap (λ u. get u j) (table-with_table (s.queues q) m n t)

  -- A write reaches one entry of one table.
  pub registered-put_entry :
      (s : State T) (q r : ℕ) (m n : Mode) (k j : Key) (v : Option ℕ)
      → registered (put_entry T s q m k v) r n j
        ≡ (if (r == q) && (mode_eq m n && key_eq k j) then v else registered s r n j)
  unfolding put_entry
  registered-put_entry s q r m n k j v = elim (Bool-cases (r == q)) [
    | inl e ↦
        let same : r ≡ q = (==_iff r q).0 e in
        elim (Bool-cases (mode_eq m n)) [
          | inl f ↦
              let mine : table T (s.queues q) m ≡ table T (s.queues r) n =
                ap₂ (λ o p. table T (s.queues p) o) (mode_eq-eq m n f) (sym same) in
              rw (e, f)
                (put_entry_same s q r m n k j v e
                  ∙ ap
                      (λ b.
                        get (if b then put (table T (s.queues q) m) k v else table T (s.queues q) n)
                          j)
                      f
                  ∙ get-put (table T (s.queues q) m) k j v
                  ∙ ap (λ t. if key_eq k j then v else get t j) mine)
          | inr f ↦
              rw (e, f)
                (put_entry_same s q r m n k j v e
                  ∙ ap
                      (λ b.
                        get (if b then put (table T (s.queues q) m) k v else table T (s.queues q) n)
                          j)
                      f
                  ∙ ap (λ p. get (table T (s.queues p) n) j) (sym same))
        ]
    | inr e ↦ ground arith
  ]

  -- Where a table holds a task, the fields of the task say so.
  abbrev pub IsValid : State T → Type 0
  IsValid s =
      (q : ℕ) (mode : Mode) (key : Key) (task : ℕ)
      → registered s q mode key ≡ some task
      → s.tasks task ≡ record { queue = some q; dequeue = some mode; dequeuedata = some key }

  -- The state that a successful `xpqueue_enqueue` leaves.
  abbrev pub enqueued : State T → ℕ → ℕ → Key → Mode → State T
  enqueued s q task key mode =
      put_task T (put_entry T s q mode key (some task)) task
        (record { queue = some q; dequeue = some mode; dequeuedata = some key })

  abbrev pub dequeued : State T → ℕ → ℕ → Key → Mode → State T
  dequeued s q task key mode =
      put_task T (put_entry T s q mode key none) task
        (record { queue = some q; dequeue = none; dequeuedata = some key })

  -- `xpqueue_enqueue` succeeds exactly for a task that has a queue and is not scheduled.
  pub enqueue_cases :
      (s : State T) (task : ℕ) (key : Key) (mode : Mode)
      → ((q : ℕ) × ((s.tasks task).queue ≡ some q)
          × ((s.tasks task).dequeue ≡ none)
          × (enqueue T s task key mode ≡ ok (enqueued s q task key mode)))
        ⊎ ((e : String) × (enqueue T s task key mode ≡ raised e))
  unfolding enqueue queue_from_task
  enqueue_cases s task key mode = elim (Option-cases (s.tasks task).dequeue) [
    | inr (m, busy) ↦ inr ("xpio: task scheduled twice", rw (busy, enqueue))
    | inl idle ↦ elim (Option-cases (s.tasks task).queue) [
      | inl homeless ↦
          inr ("XPQueue object expected", rw (idle, homeless, enqueue, queue_from_task))
      | inr (q, home) ↦ inl (q, home, idle, rw (idle, home, enqueue, queue_from_task))
    ]
  ]

  pub enqueued-IsValid :
      (s : State T) (q task : ℕ) (key : Key) (mode : Mode)
      → IsValid s
      → (s.tasks task).dequeue ≡ none
      → IsValid (enqueued s q task key mode)
  unfolding put_task put_entry
  enqueued-IsValid s q task key mode valid idle r n j t e =
      elim (Bool-cases ((r == q) && (mode_eq mode n && key_eq key j))) [
        | inl c ↦ ground (
          arith,
          registered-put_entry s q r mode n key j (some task),
          mode_eq-eq mode n,
          (key_eq_iff key j).0,
        )
        | inr c ↦ ground (arith, registered-put_entry s q r mode n key j (some task), valid r n j t)
      ]

  pub dequeued-IsValid :
      (s : State T) (q task : ℕ) (key : Key) (mode : Mode)
      → IsValid s
      → s.tasks task ≡ record { queue = some q; dequeue = some mode; dequeuedata = some key }
      → IsValid (dequeued s q task key mode)
  unfolding put_task put_entry
  dequeued-IsValid s q task key mode valid at r n j t e =
      elim (Bool-cases ((r == q) && (mode_eq mode n && key_eq key j))) [
        | inl c ↦ absurd (ground (arith, registered-put_entry s q r mode n key j none))
        | inr c ↦ ground (
          arith,
          registered-put_entry s q r mode n key j none,
          valid r n j t,
          mode_eq_of mode n,
          (key_eq_iff key j).1,
        )
      ]

  pub dequeue_task-dequeued :
      (s : State T) (q task : ℕ) (key : Key) (mode m : Mode)
      → s.tasks task ≡ record { queue = some q; dequeue = some mode; dequeuedata = some key }
      → dequeue_task T s task m ≡ ok (dequeued s q task key m)
  unfolding dequeue_task queue_from_task
  dequeue_task-dequeued s q task key mode m at =
      ap
        (λ (f : Task).
          (elim f.queue [ none ↦ raised "XPQueue object expected" | some p ↦ ok p ]) >>= λ p.
          elim f.dequeuedata [
            | none ↦ raised "table index is nil"
            | some k ↦ ok (put_task T (put_entry T s p m k none) task (record f { dequeue = none }))
          ])
        at

  pub registered_same :
      (s : State T) (q r : ℕ) (m n : Mode) (k j : Key)
      → ((r == q) && (mode_eq m n && key_eq k j)) ≡ true
      → registered s r n j ≡ registered s q m k
  registered_same s q r m n k j c =
      let a : r ≡ q = ground arith in
      let b : m ≡ n = ground (arith, mode_eq-eq m n) in
      let e : k ≡ j = ground (arith, (key_eq_iff k j).0) in rw (a, ← b, ← e) refl
