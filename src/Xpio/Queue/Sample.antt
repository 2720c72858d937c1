-- ===== src/Xpio/Queue/Sample.antt =====
-- States of luau/xpio_c.c's queues for the tests.
use flake.Common.{◌≡◌, refl, none, some, [], pos}
use flake.Lua.{ok}
use flake.Lua.Table.{Key}
use flake.Lua.Assoc.{assoc}
use flake.Xpio.Queue.{
  reader, writer, child_waiter, State, enqueue, queue_from_task, put_entry, put_task,
}
use flake.Xpio.Queue.Registry.{registered, IsValid, enqueued}
use flake.Xpio.Queue.Schedule.{enqueue-IsValid}

-- Tasks of the queue 9, and nobody waits.
abbrev pub calm : State assoc
calm = record {
  tasks = λ t. record { queue = some 9; dequeue = none; dequeuedata = none };
  queues = λ q. record { readers = []; writers = []; children = [] };
}

pub calm-IsValid : IsValid assoc calm
calm-IsValid q reader key task e = cc
calm-IsValid q writer key task e = cc
calm-IsValid q child_waiter key task e = cc

-- The task 1 waits to read from the descriptor 5.
abbrev pub reading : State assoc
reading = enqueued assoc calm 9 1 (Key.fd (pos 5)) reader

pub enqueue-reading : enqueue assoc calm 1 (Key.fd (pos 5)) reader ≡ ok reading
unfolding enqueue queue_from_task
enqueue-reading = refl

pub reading-IsValid : IsValid assoc reading
reading-IsValid =
    enqueue-IsValid assoc calm reading 1 (Key.fd (pos 5)) reader calm-IsValid enqueue-reading

pub reading_task :
    reading.tasks 1
    ≡ record { queue = some 9; dequeue = some reader; dequeuedata = some (Key.fd (pos 5)) }
unfolding put_task
reading_task = refl

pub reading_other : (reading.tasks 2).queue ≡ some 9
unfolding put_task put_entry
reading_other = refl

pub reading_table : registered assoc reading 9 reader (Key.fd (pos 5)) ≡ some 1
unfolding put_task put_entry
reading_table = refl

-- And the task 2 waits for it to be written to.
abbrev pub both : State assoc
both = enqueued assoc reading 9 2 (Key.fd (pos 5)) writer

pub enqueue-both : enqueue assoc reading 2 (Key.fd (pos 5)) writer ≡ ok both
unfolding enqueue queue_from_task put_task put_entry
enqueue-both = refl

pub both-IsValid : IsValid assoc both
both-IsValid =
    enqueue-IsValid assoc reading both 2 (Key.fd (pos 5)) writer reading-IsValid enqueue-both

pub both_tables :
    (registered assoc both 9 reader (Key.fd (pos 5)) ≡ some 1)
    × (registered assoc both 9 writer (Key.fd (pos 5)) ≡ some 2)
unfolding put_task put_entry
both_tables = (refl, refl)
