-- ===== src/Xpio/Queue/Wake/Events.antt =====
-- luau/xpio_c.c: when a task that waits for a descriptor can go on, by what `poll` says.
use flake.Common.{◌≡◌, refl, Bool, false, ◌&&◌, ◌||◌, List, [], ◌∷◌, arith, ℤ, eq_ℤ}
use flake.Xpio.Queue.{Mode, reader, writer, child_waiter}
use flake.Xpio.Queue.PollSet.{PollFd, Revents}
use flake.Xpio.Queue.Wake.{wakes}

-- What `poll` can say of a descriptor.
pub data Event : Type 0 where
  input : Event
  output : Event
  error : Event
  hang_up : Event
  not_open : Event

abbrev pub says : Revents → Event → Bool
says r input = r.in_ready
says r output = r.out_ready
says r error = r.error
says r hang_up = r.hangup
says r not_open = r.invalid

abbrev pub any_of : Revents → List Event → Bool
any_of r [] = false
any_of r (e ∷ es) = says r e || any_of r es

-- The events after which a task that reads, or one that writes, is not kept waiting: what it waits for,
-- and whatever lets its next call fail at once.
abbrev pub ends_wait : Mode → List Event
ends_wait reader = input ∷ error ∷ hang_up ∷ not_open ∷ []
ends_wait writer = output ∷ error ∷ hang_up ∷ not_open ∷ []
ends_wait child_waiter = []

abbrev pub asked_for : Mode → PollFd → Bool
asked_for reader p = p.want_in
asked_for writer p = p.want_out
asked_for child_waiter p = false

-- `poll` was asked about the descriptor for this mode, and says that a task which waits for it can go
-- on.
abbrev pub is_ready : Mode → ℤ → List PollFd → Bool
is_ready mode f [] = false
is_ready mode f (p ∷ ps) =
    (eq_ℤ p.fd f && (asked_for mode p && any_of p.revents (ends_wait mode))) || is_ready mode f ps

-- The tests of `XPQueue_wakeSockets`.
pub wakes_lem :
    (mode : Mode) (p : PollFd)
    → wakes mode p ≡ (asked_for mode p && any_of p.revents (ends_wait mode))
wakes_lem reader p = ground arith
wakes_lem writer p = ground arith
wakes_lem child_waiter p = refl
