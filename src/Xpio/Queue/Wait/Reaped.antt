-- ===== src/Xpio/Queue/Wait/Reaped.antt =====
-- luau/xpio_c.c: `xpproc_reap` within `xpqueue_wait`.
use flake.Common.{
  ℕ, ◌<◌, ◌≡◌, refl, ap, ◌∙◌, sym, subst, true, false, some, List, [], ◌∷◌, ◌++◌, arith, ◌==◌,
  if◌then◌else◌, pos, eq_ℤ, eq_ℤ_iff, length, Bool-cases, Option-cases, inl, inr,
}
use flake.Lua.{Result, ok, ◌>>=◌}
use flake.Lua.Table.{Key, TableApi, Entries}
use flake.Xpio.Proc.{
  XpProc, Procs, WaitResult, child, running, interrupted, failed, drain_pipe, reap, proc_is_exited,
}
use flake.Xpio.Proc.Chain.{Chain, Distinct, mem}
use flake.Xpio.Proc.Reap.{outcome, settled, Pids, reap-drain_pipe}
use flake.Xpio.Queue.{child_waiter, State}
use flake.Xpio.Queue.Registry.{registered}
use flake.Xpio.Queue.PollSet.{PollFd}
use flake.Xpio.Queue.PollSet.Watch.{is_some}
use flake.Xpio.Queue.Wake.{wake_children}
use flake.Xpio.Queue.Wake.Wakings.{woken, woke_all}
use flake.Xpio.Queue.Wait.{World, Waited, wake_reaped}
use flake.Xpio.Queue.Wait.Children.{
  is_exited_key, child_wakings, HasProc, ProcKeys-find, wake_children-child_wakings, num_running,
}
use flake.Xpio.Queue.Wait.Stages.{Wakes, then_children}

-- The process objects are in order: the list ends, no two running children have one PID, `waitpid`
-- reports positive PIDs, and the fuel is enough.
pub record InOrder (fuel : ℕ) (w : World) (ps : Procs) : Type 0 where
  pub objs : List ℕ
  pub chain : Chain ps.cells ps.head objs
  pub distinct : Distinct ps.cells objs
  pub pids : Pids w.waits
  pub enough : length objs < fuel

pub outcome_exited :
    (ws : List WaitResult) (c : XpProc) → Pids ws → c.pid ≡ pos 0 → outcome ws c ≡ c
outcome_exited [] c h e = refl
outcome_exited (child pid status ∷ ws) c (positive, h) e =
    let other : eq_ℤ c.pid (pos pid) ≡ false = ground arith in rw other (outcome_exited ws c h e)
outcome_exited (interrupted ∷ ws) c h e = outcome_exited ws c h e
outcome_exited (running ∷ ws) c h e = refl
outcome_exited (failed ∷ ws) c h e = refl

-- Objects stay, and what has exited stays so.
pub record Later (ps ps' : Procs) : Type 0 where
  pub grows : (k : Key) → is_exited_key ps k ≡ true → is_exited_key ps' k ≡ true
  pub keeps : (k : Key) → HasProc ps k → HasProc ps' k

Later-refl : (ps : Procs) → Later ps ps
Later-refl ps = record { grows = λ k h. h; keeps = λ k h. h }

Later-settled :
    (objs : List ℕ) (ws : List WaitResult) (ps : Procs)
    → Pids ws
    → Later ps (record ps { cells = settled objs ws ps.cells })
unfolding settled proc_is_exited
Later-settled objs ws ps h = record {
  grows = λ k.
      elim k
        as (λ k.
          is_exited_key ps k ≡ true
          → is_exited_key (record ps { cells = settled objs ws ps.cells }) k ≡ true) [
            | Key.fd f ↦ λ e. e
            | Key.proc p ↦ λ e. elim (Option-cases (ps.cells p)) [
              | inl gone ↦ absurd (ground arith)
              | inr (c, there) ↦
                  let zero_pid : c.pid ≡ pos 0 = ground (arith, (eq_ℤ_iff c.pid (pos 0)).0) in
                  ground (arith, outcome_exited ws c h zero_pid)
            ]
          ];
  keeps = λ k.
      elim k as (λ k. HasProc ps k → HasProc (record ps { cells = settled objs ws ps.cells }) k) [
        | Key.fd f ↦ λ e. e
        | Key.proc p ↦ λ e. elim (Option-cases (ps.cells p)) [
          | inl gone ↦ absurd (ground (arith, e.1))
          | inr (c, there) ↦ (
            eq_ℤ ((if mem p objs then outcome ws c else c).pid) (pos 0),
            rw (there, settled, proc_is_exited) refl,
          )
        ]
      ];
}

reap-Later :
    (fuel : ℕ) (w : World) (ps : Procs)
    → InOrder fuel w ps
    → (ps' : Procs) × (n : ℕ) × (reap fuel w.reads w.waits ps ≡ some (ps', n))
      × Later ps ps'
      × (n ≡ 0 → ps' ≡ ps)
reap-Later fuel w ps v =
    let (n, done, counted) =
      reap-drain_pipe fuel w.reads w.waits ps v.objs v.chain v.distinct v.pids v.enough in
    elim (Bool-cases (drain_pipe w.reads false)) [
      | inl got ↦ (
        record ps { cells = settled v.objs w.waits ps.cells },
        n,
        done ∙ rw got refl,
        Later-settled v.objs w.waits ps v.pids,
        λ z. elim counted [
          | inl same ↦ ap (λ cs. record ps { cells = cs }) same
          | inr some_change ↦ absurd (omega arith)
        ],
      )
      | inr dry ↦ (ps, 0, done ∙ rw dry refl, Later-refl ps, λ z. refl)
    ]

module _ (T : TableApi) (q : ℕ) where
  -- A task that waits for a child waits for a process object.
  abbrev pub ProcsKnown : State T → Procs → Type 0
  ProcsKnown s ps = (k : Key) → is_some (registered T s q child_waiter k) ≡ true → HasProc ps k

  pub wake_children-known :
      (s : State T) (ps : Procs) (ready : List ℕ)
      → ProcsKnown s ps
      → wake_children T q ps (T.entries (s.queues q).children) s ready 0
        ≡ ok (
          woke_all T q s (child_wakings ps (T.entries (s.queues q).children)),
          ready ++ woken (child_wakings ps (T.entries (s.queues q).children)),
          num_running ps (T.entries (s.queues q).children),
        )
  wake_children-known s ps ready known =
      let es : Entries = T.entries (s.queues q).children in
      wake_children-child_wakings T q ps es s ready 0 (
        ProcKeys-find ps es (λ k e.
          known k (subst (λ o. is_some o ≡ true) (T.find-entries (s.queues q).children k) e)))
      ∙ ap (λ n. ok (woke_all T q s (child_wakings ps es), ready ++ woken (child_wakings ps es), n))
          (omega arith)

  -- `xpproc_reap` and the second `XPQueue_wakeChildWaiters` return.
  pub then_reaped :
      (fuel : ℕ) (w : World) (pfds : List PollFd) (ps : Procs) (s t : State T) (fds : List PollFd)
      (ready : List ℕ)
      → InOrder fuel w ps
      → ProcsKnown t ps
      → Wakes T q s ps fds t ready
      → (r : Waited T) × (ready' : List ℕ) × (wake_reaped T fuel w q pfds ps t ready ≡ ok r)
        × (r.ready ≡ some ready')
        × (r.pfds ≡ pfds)
        × Wakes T q s r.procs fds r.state ready'
  unfolding wake_reaped
  then_reaped fuel w pfds ps s t fds ready v known wk =
      let (ps', n, done, later, same) = reap-Later fuel w ps v in
      let ws = child_wakings ps' (T.entries (t.queues q).children) in
      elim (Bool-cases (n == 0)) [
        | inl none_updated ↦ (
          record { state = t; procs = ps'; pfds = pfds; ready = some ready },
          ready,
          rw (done, wake_reaped) (rw none_updated refl),
          refl,
          refl,
          subst (λ (x : Procs). Wakes T q s x fds t ready) (sym (same (ground arith))) wk,
        )
        | inr some_updated ↦ (
          record {
            state = woke_all T q t ws;
            procs = ps';
            pfds = pfds;
            ready = some (ready ++ woken ws);
          },
          ready ++ woken ws,
          rw (done, wake_reaped)
              (rw some_updated (
                ap
                  (λ (x : Result (State T × List ℕ × ℕ)). x >>= λ y.
                    ok (record { state = y.0; procs = ps'; pfds = pfds; ready = some y.1 }))
                  (wake_children-known t ps' ready (λ k e. later.keeps k (known k e))))),
          refl,
          refl,
          then_children T q s t ps ps' fds ready wk later.grows,
        )
      ]
