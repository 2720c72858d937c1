-- ===== src/Xpio/Queue/Wait/Polled.antt =====
-- luau/xpio_c.c: what `xpqueue_wait` can count on, and what `poll` is asked and answers.
use flake.Common.{
  ℕ, ◌≤◌, ◌≡◌, refl, ap, ◌∙◌, sym, true, false, none, List, [], ◌∷◌, ◌++◌, arith, ℤ, length, take,
}
use flake.Lua.Table.{Key, key_eq_iff, TableApi, Entries, find}
use flake.Xpio.Proc.{Procs}
use flake.Xpio.Queue.{reader, writer, child_waiter, State, is_empty, no_entries}
use flake.Xpio.Queue.Registry.{IsValid}
use flake.Xpio.Queue.PollSet.{PollFd, Revents, Build}
use flake.Xpio.Queue.PollSet.Index.{watch, NoDupFd, length-take}
use flake.Xpio.Queue.PollSet.Watch.{in_use, FdKeys, is_some}
use flake.Xpio.Queue.Wake.Wakings.{woken}
use flake.Xpio.Queue.Wake.Sockets.{AllHeld}
use flake.Xpio.Queue.Wait.{World, set_revents, is_nil}
use flake.Xpio.Queue.Wait.Children.{child_wakings, num_running}
use flake.Xpio.Queue.Wait.Held.{
  Answers, OnlyPipe, wanted_in, watch-AllHeld, watch-set_revents, NoDupFd-set_revents,
  take-set_revents,
}
use flake.Xpio.Queue.Wait.Stages.{Wakes}
use flake.Xpio.Queue.Wait.Reaped.{InOrder, ProcsKnown}

num_running-no_entries :
    (T : TableApi) (ps : Procs) (es : Entries)
    → is_nil (woken (child_wakings ps es)) ≡ true
    → num_running ps es ≡ 0
    → no_entries T es ≡ true
num_running-no_entries T ps [] h n = refl
num_running-no_entries T ps ((k, t) ∷ es) h n =
    absurd (ground (arith, num_running-no_entries T ps es))

-- The flags that `poll` writes for an array and a time-out, by index.
abbrev pub Replies : Type 0
Replies = List PollFd → ℤ → ℕ → Revents

module _ (T : TableApi) (q : ℕ) where
  -- An array about which `poll` is asked: an element for each descriptor for which tasks wait on the
  -- queue, with what they wait for, and then at most one for the signal pipe.
  pub record Asks (w : World) (s : State T) (fds : List PollFd) : Type 0 where
    pub sockets : List PollFd
    pub pipe : List PollFd
    pub split : fds ≡ sockets ++ pipe
    pub distinct : NoDupFd sockets
    pub watched : (f : ℤ) → watch f sockets ≡ wanted_in T q s f
    pub only : OnlyPipe w pipe

  -- A queue on which `xpqueue_wait` can wait: tables and tasks agree, readers and writers wait for
  -- descriptors and the others for process objects, memory is had, the process objects are in
  -- order, and `poll`, where it is asked about the descriptors for which tasks wait, writes the
  -- flags `rs` for that array and time-out, after any number of interruptions.
  pub record CanWait (fuel : ℕ) (w : World) (ps : Procs) (s : State T) (rs : Replies) : Type 0 where
    pub valid : IsValid T s
    pub readers : FdKeys (T.entries (s.queues q).readers)
    pub writers : FdKeys (T.entries (s.queues q).writers)
    pub children : ProcsKnown T q s ps
    pub memory : (n : ℕ) → w.malloc n ≡ true
    pub objects : InOrder fuel w ps
    pub answers :
        (fds : List PollFd) (timeout : ℤ)
        → Asks w s fds
        → Answers (rs fds timeout) (w.poll fds timeout)

  -- The descriptors as `poll` leaves them: each once, with what tasks wait for.
  pub record IsPolled (s : State T) (fds : List PollFd) : Type 0 where
    pub distinct : NoDupFd fds
    pub watched : (f : ℤ) → watch f fds ≡ wanted_in T q s f

  no_waiter :
      (es : Entries)
      → FdKeys es
      → ((f : ℤ) → is_some (find (Key.fd f) es) ≡ false)
      → no_entries T es ≡ true
  no_waiter [] h none_of = refl
  no_waiter ((Key.proc p, t) ∷ es) h none_of = absurd h
  no_waiter ((Key.fd f, t) ∷ es) h none_of =
      absurd (ground (arith, none_of f, (key_eq_iff (Key.fd f) (Key.fd f)).1))

  -- Where no descriptor is watched and no child is waited for, the queue is empty.
  pub nothing_used :
      (ps : Procs) (s : State T) (b : Build)
      → FdKeys (T.entries (s.queues q).readers)
      → FdKeys (T.entries (s.queues q).writers)
      → ((f : ℤ) → watch f (in_use b) ≡ wanted_in T q s f)
      → b.used ≡ 0
      → is_nil (woken (child_wakings ps (T.entries (s.queues q).children))) ≡ true
      → num_running ps (T.entries (s.queues q).children) ≡ 0
      → is_empty T s q ≡ true
  unfolding is_empty
  nothing_used ps s b fr fw watched none_used nil_ready none_running =
      let unwatched : (f : ℤ) → wanted_in T q s f ≡ none =
        λ f. sym (watched f) ∙ ap (λ n. watch f (take n b.pfds)) none_used in
      let rs =
        no_waiter (T.entries (s.queues q).readers) fr
          (λ f. ground (arith, unwatched f, T.find-entries (s.queues q).readers (Key.fd f))) in
      let ws =
        no_waiter (T.entries (s.queues q).writers) fw
          (λ f. ground (arith, unwatched f, T.find-entries (s.queues q).writers (Key.fd f))) in
      let cs =
        num_running-no_entries T ps (T.entries (s.queues q).children) nil_ready none_running in
      rw (rs, ws, cs, is_empty) refl

  pub Wakes-ProcsKnown :
      (s t : State T) (ps : Procs) (fds : List PollFd) (ready : List ℕ)
      → Wakes T q s ps fds t ready
      → ProcsKnown T q s ps
      → ProcsKnown T q t ps
  Wakes-ProcsKnown s t ps fds ready v known (Key.fd f) e =
      known (Key.fd f) (ground (arith, v.descriptors q child_waiter f))
  Wakes-ProcsKnown s t ps fds ready v known (Key.proc p) e =
      known (Key.proc p) (ground (arith, v.children q child_waiter p))

  -- The elements for the sockets, after `poll`.
  pub take-set_revents-in_use :
      (b c : Build) (rs : ℕ → Revents)
      → b.used ≤ length b.pfds
      → b.used ≤ c.used
      → take b.used c.pfds ≡ in_use b
      → take b.used (set_revents rs 0 c.used c.pfds)
        ≡ set_revents rs 0 (length (in_use b)) (in_use b)
  take-set_revents-in_use b c rs fits more kept =
      take-set_revents rs 0 b.used c.used c.pfds more
      ∙ ap (set_revents rs 0 b.used) kept
      ∙ ap (λ n. set_revents rs 0 n (in_use b)) (sym (length-take b.used b.pfds fits))

  pub Asks-IsPolled :
      (w : World) (s : State T) (fds : List PollFd) (rs : ℕ → Revents)
      → (a : Asks w s fds) → IsPolled s (set_revents rs 0 (length a.sockets) a.sockets)
  Asks-IsPolled w s fds rs a = record {
    distinct = NoDupFd-set_revents rs 0 (length a.sockets) a.sockets a.distinct;
    watched = λ f. watch-set_revents f rs 0 (length a.sockets) a.sockets ∙ a.watched f;
  }

  pub IsPolled-AllHeld :
      (s t : State T) (ps : Procs) (fds : List PollFd) (ready : List ℕ)
      → IsPolled s fds
      → Wakes T q s ps [] t ready
      → AllHeld T q t fds
  IsPolled-AllHeld s t ps fds ready v wk =
      watch-AllHeld T q t fds v.distinct
        (λ g w e. ground (arith, v.watched g, wk.descriptors q reader g, wk.descriptors q writer g))
