-- ===== src/Xpio/Queue/Wait/Signalled.antt =====
-- luau/xpio_c.c: while a task waits for a child that runs, `xpqueue_wait` has `poll` watch the signal pipe.
use flake.Common.{
  ℕ, zero, suc, ◌+◌, ◌-◌, ◌<◌, ◌≤◌, ◌≡◌, refl, ap, ◌∙◌, Bool, true, false, ◌&&◌, ◌||◌, some, List,
  [], ◌∷◌, arith, ◌==◌, ℤ, pos, minus_one, eq_ℤ, eq_ℤ_iff, take, get_elem?, length, Bool-cases,
  subst, inl, inr,
}
use flake.Lua.{ok}
use flake.Lua.Table.{Key, key_eq, key_eq_iff, TableApi, Entries, find}
use flake.Xpio.Proc.{Procs}
use flake.Xpio.Queue.{reader, child_waiter, State}
use flake.Xpio.Queue.Registry.{registered, IsValid}
use flake.Xpio.Queue.PollSet.{PollFd, Build, poll_set, modify, start_watch}
use flake.Xpio.Queue.PollSet.Index.{ensure_fds_ok, ensure_fds-total}
use flake.Xpio.Queue.PollSet.Watch.{FdKeys}
use flake.Xpio.Queue.PollSet.Collect.{poll_set-watch, poll_set_total}
use flake.Xpio.Queue.Wake.{wake_children}
use flake.Xpio.Queue.Wake.Wakings.{woken, woke_all}
use flake.Xpio.Queue.Wait.{
  Timeout, timeout_of, World, PollResult, wait, poll_and_wake, add_sig_pipe, shorten,
}
use flake.Xpio.Queue.Wait.Children.{child_wakings, num_running, is_exited_key}
use flake.Xpio.Queue.Wait.Reaped.{wake_children-known, InOrder, ProcsKnown}

-- Whether `poll` is asked for input on a descriptor.
abbrev pub watches_in : ℤ → List PollFd → Bool
watches_in f [] = false
watches_in f (p ∷ fds) = (eq_ℤ p.fd f && p.want_in) || watches_in f fds

get_elem?-modify :
    (ps : List PollFd) (i : ℕ) (h : PollFd → PollFd)
    → i < length ps
    → (p : PollFd) × (get_elem? (modify ps i h) i ≡ some (h p))
unfolding modify
get_elem?-modify [] i h lt = absurd (omega arith)
get_elem?-modify (p ∷ ps) zero h lt = (p, refl)
get_elem?-modify (p ∷ ps) (suc i) h lt = get_elem?-modify ps i h (omega arith)

pub watches_in-get_elem? :
    (ps : List PollFd) (i n : ℕ) (p : PollFd)
    → get_elem? ps i ≡ some p
    → p.want_in ≡ true
    → i < n
    → watches_in p.fd (take n ps) ≡ true
watches_in-get_elem? [] i n p at wanted lt = ground arith
watches_in-get_elem? (q ∷ ps) i zero p at wanted lt = absurd (omega arith)
watches_in-get_elem? (q ∷ ps) zero (suc n) p at wanted lt = ground (arith, (eq_ℤ_iff p.fd p.fd).1)
watches_in-get_elem? (q ∷ ps) (suc i) (suc n) p at wanted lt =
    ground (arith, watches_in-get_elem? ps i n p at wanted (omega arith))

-- A running child is counted.
pub num_running-find :
    (ps : Procs) (k : Key) (t : ℕ) (es : Entries)
    → find k es ≡ some t
    → is_exited_key ps k ≡ false
    → 0 < num_running ps es
num_running-find ps k t [] at runs = ground arith
num_running-find ps k t ((j, u) ∷ es) at runs = elim (Bool-cases (key_eq j k)) [
  | inl c ↦
      let same : is_exited_key ps j ≡ false = ap (is_exited_key ps) ((key_eq_iff j k).0 c) ∙ runs in
      rw same (omega arith)
  | inr c ↦
      let rest : 0 < num_running ps es = num_running-find ps k t es (rw c at at) runs in omega arith
]

-- The element for the signal pipe is the last one.
pub add_sig_pipe_last :
    (w : World) (num : ℕ) (b : Build)
    → ((n : ℕ) → w.malloc n ≡ true)
    → b.used ≤ length b.pfds
    → 0 < num
    → (c : Build) × (p : PollFd) × (add_sig_pipe w num b ≡ ok c)
      × (0 < c.used)
      × (get_elem? c.pfds (c.used - 1) ≡ some p)
      × (p.fd ≡ w.sig_pipe)
      × (p.want_in ≡ true)
unfolding add_sig_pipe
add_sig_pipe_last w zero b memory le some_run = absurd (omega arith)
add_sig_pipe_last w (suc num) b memory le some_run =
    let (grown, got) = ensure_fds-total w.malloc b.pfds b.used memory in
    let (kept, room) = ensure_fds_ok w.malloc b.pfds grown b.used le got in
    let running : (suc num == 0) ≡ false = ground arith in
    let last : b.used ≡ b.used + 1 - 1 = omega arith in
    let pfds : List PollFd = modify grown b.used (start_watch reader w.sig_pipe) in
    let (p, at) = get_elem?-modify grown b.used (start_watch reader w.sig_pipe) room in
    (
      record b { pfds = pfds; used = b.used + 1 },
      start_watch reader w.sig_pipe p,
      rw (running, add_sig_pipe) (rw got refl),
      omega arith,
      subst (λ n. get_elem? pfds n ≡ some (start_watch reader w.sig_pipe p)) last at,
      refl,
      refl,
    )

module _ (T : TableApi) (q : ℕ) where
  -- What `xpqueue_wait` does before `poll`.
  wait-poll_and_wake :
      (fuel : ℕ) (w : World) (arg : Timeout) (timeout : ℤ) (pfds : List PollFd) (ps : Procs)
      (s : State T) (b c : Build)
      → timeout_of arg ≡ ok timeout
      → poll_set T w.malloc pfds (s.queues q) ≡ ok b
      → ProcsKnown T q s ps
      → add_sig_pipe w (num_running ps (T.entries (s.queues q).children)) b ≡ ok c
      → 0 < c.used
      → let es = T.entries (s.queues q).children in
        wait T fuel w q arg pfds ps s
        ≡ poll_and_wake T fuel w q
            (shorten (woken (child_wakings ps es)) timeout)
            (num_running ps es)
            c.used
            c.pfds
            ps
            (woke_all T q s (child_wakings ps es))
            (woken (child_wakings ps es))
  unfolding wait shorten
  wait-poll_and_wake fuel w arg timeout pfds ps s b c timed built known piped used =
      let es : Entries = T.entries (s.queues q).children in
      let ready1 : List ℕ = woken (child_wakings ps es) in
      let first : wake_children T q ps es s [] 0
          ≡ ok (woke_all T q s (child_wakings ps es), ready1, num_running ps es) =
        wake_children-known T q s ps [] known in
      let polls : (eq_ℤ (shorten ready1 timeout) minus_one && (c.used == 0)) ≡ false =
        ground arith in
      rw (timed, wait) (rw built (rw first (rw piped (rw polls refl))))

  -- The tables and the rest of what `xpqueue_wait` relies on, but for `poll`.
  pub record Prepared (fuel : ℕ) (w : World) (ps : Procs) (s : State T) : Type 0 where
    pub valid : IsValid T s
    pub readers : FdKeys (T.entries (s.queues q).readers)
    pub writers : FdKeys (T.entries (s.queues q).writers)
    pub children : ProcsKnown T q s ps
    pub memory : (n : ℕ) → w.malloc n ≡ true
    pub objects : InOrder fuel w ps

  -- The array that `poll` gets, and its time-out.
  pub record Asked (fuel : ℕ) (w : World) (arg : Timeout) (pfds : List PollFd) (ps : Procs)
      (s : State T) (timeout : ℤ) : Type 0 where
    pub build : Build
    pub pipe : PollFd
    pub used : 0 < build.used
    pub last : get_elem? build.pfds (build.used - 1) ≡ some pipe
    pub fd : pipe.fd ≡ w.sig_pipe
    pub wanted : pipe.want_in ≡ true
    -- the rest of the call, for every world that differs in the answers of `poll` only
    pub rest :
        (poll : List PollFd → ℤ → List PollResult)
        → let es = T.entries (s.queues q).children in
          wait T fuel (record w { poll = poll }) q arg pfds ps s
          ≡ poll_and_wake T fuel
              (record w { poll = poll })
              q
              (shorten (woken (child_wakings ps es)) timeout)
              (num_running ps es)
              build.used
              build.pfds
              ps
              (woke_all T q s (child_wakings ps es))
              (woken (child_wakings ps es))

  -- While a task waits for a child that runs, `poll` is asked about the signal pipe.
  pub wait-Asked :
      (fuel : ℕ) (w : World) (arg : Timeout) (timeout : ℤ) (pfds : List PollFd) (ps : Procs)
      (s : State T) (p task : ℕ)
      → Prepared fuel w ps s
      → timeout_of arg ≡ ok timeout
      → registered T s q child_waiter (Key.proc p) ≡ some task
      → is_exited_key ps (Key.proc p) ≡ false
      → Asked fuel w arg pfds ps s timeout
  unfolding add_sig_pipe
  wait-Asked fuel w arg timeout pfds ps s p task v timed at runs =
      let es : Entries = T.entries (s.queues q).children in
      let (b, built) = poll_set_total T w.malloc pfds (s.queues q) v.memory in
      let (fits, nd, _) =
        poll_set-watch T w.malloc pfds (s.queues q) b (pos 0) v.readers v.writers built in
      let counted : 0 < num_running ps es =
        num_running-find ps (Key.proc p) task es
          (T.find-entries (s.queues q).children (Key.proc p) ∙ at) runs in
      let (c, pipe, piped, used, last, is_pipe, wanted) =
        add_sig_pipe_last w (num_running ps es) b v.memory fits counted in
      record {
        build = c;
        pipe = pipe;
        used = used;
        last = last;
        fd = is_pipe;
        wanted = wanted;
        rest = λ poll.
            wait-poll_and_wake fuel (record w { poll = poll }) arg timeout pfds ps s b c timed built
              v.children piped used;
      }
