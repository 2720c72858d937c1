-- ===== src/Xpio/Tasks/Changes.antt =====
-- luau/xpio_c.c: each function of the task queues does what the abstract view says.
use flake.Common.{
  ℕ, ◌≡◌, ap, ◌∙◌, true, false, ◌&&◌, none, some, arith, ◌==◌, ==_iff, if◌then◌else◌, Bool-cases,
  inl, inr,
}
use flake.Lua.Table.{Key, key_eq, key_eq_iff, TableApi}
use flake.Xpio.Queue.{Mode, Task, State, put_task, put_entry, tqueue}
use flake.Xpio.Queue.Registry.{
  mode_eq, mode_eq-eq, enqueued, dequeued, enqueued-IsValid, dequeued-IsValid,
}
use flake.Xpio.Queue.Schedule.{
  registered-enqueued, registered-dequeued, registered-tqueue, tqueue-is_empty,
}
use flake.Xpio.Tasks.{Abstract, with_wait, with_scheduled, fits, Implements}

module _ (T : TableApi) where
  pub tqueue-Implements :
      (s : State T) (a : Abstract) (fresh : ℕ)
      → Implements T s a
      → Implements T
          (tqueue T fresh s)
          (record a { waits = λ r n j. if r == fresh then none else a.waits r n j })
  unfolding tqueue
  tqueue-Implements s a fresh h = record {
    valid = (tqueue-is_empty T s fresh h.valid).0;
    waits =
        λ q mode key. ground (arith, registered-tqueue T s fresh q mode key, h.waits q mode key);
    kinds =
        λ q mode key e. h.kinds q mode key (ground (arith, registered-tqueue T s fresh q mode key));
    scheduled = h.scheduled;
  }

  pub enqueued-Implements :
      (s : State T) (a : Abstract) (q task : ℕ) (mode : Mode) (key : Key)
      → fits mode key ≡ true
      → (s.tasks task).dequeue ≡ none
      → Implements T s a
      → Implements T (enqueued T s q task key mode) (record {
        waits = with_wait a.waits q mode key (some task);
        scheduled = with_scheduled a.scheduled task true;
      })
  unfolding put_task put_entry
  enqueued-Implements s a q task mode key fit idle h = record {
    valid = enqueued-IsValid T s q task key mode h.valid idle;
    waits = λ r n j.
        registered-enqueued T s q task r key j mode n
        ∙ ap (λ v. if (r == q) && (mode_eq mode n && key_eq key j) then some task else v)
            (h.waits r n j);
    kinds = λ r n j e. elim (Bool-cases ((r == q) && (mode_eq mode n && key_eq key j))) [
      | inl c ↦ ground (arith, mode_eq-eq mode n, (key_eq_iff key j).0)
      | inr c ↦ h.kinds r n j (ground (arith, registered-enqueued T s q task r key j mode n))
    ];
    scheduled = λ t. ground (arith, h.scheduled t);
  }

  pub dequeued-Implements :
      (s : State T) (a : Abstract) (q task : ℕ) (mode : Mode) (key : Key)
      → s.tasks task ≡ record { queue = some q; dequeue = some mode; dequeuedata = some key }
      → Implements T s a
      → Implements T (dequeued T s q task key mode) (record {
        waits = with_wait a.waits q mode key none;
        scheduled = with_scheduled a.scheduled task false;
      })
  unfolding put_task put_entry
  dequeued-Implements s a q task mode key at h = record {
    valid = dequeued-IsValid T s q task key mode h.valid at;
    waits = λ r n j.
        registered-dequeued T s q task r key j mode n
        ∙ ap (λ v. if (r == q) && (mode_eq mode n && key_eq key j) then none else v)
            (h.waits r n j);
    kinds =
        λ r n j e. h.kinds r n j (ground (arith, registered-dequeued T s q task r key j mode n));
    scheduled = λ t. ground (arith, h.scheduled t);
  }

  pub put_task-Implements :
      (s : State T) (a : Abstract) (task : ℕ) (f : Task)
      → (s.tasks task).dequeue ≡ none
      → f.dequeue ≡ none
      → Implements T s a
      → Implements T (put_task T s task f) a
  unfolding put_task
  put_task-Implements s a task f idle still h = record {
    valid = λ q mode key t e. ground (arith, h.valid q mode key t e);
    waits = h.waits;
    kinds = h.kinds;
    scheduled = λ t. ground (arith, h.scheduled t, (==_iff t task).0);
  }
