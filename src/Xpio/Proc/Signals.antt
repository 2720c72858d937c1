-- ===== src/Xpio/Proc/Signals.antt =====
-- luau/xpio_c.c: `handleSIGCHLD`, the signal pipe, `xpproc_init` and `xpproc_reap`, interleaved with
-- the children. One process forks and reaps; the handler may run between any two of its calls.
use flake.Common.{
  ℕ, ◌+◌, ◌-◌, ◌<◌, ◌≡◌, refl, Bool, true, false, ◌||◌, ◌⊎◌, inl, arith, ltb, ◌==◌, if◌then◌else◌,
  List, ◌∷◌, ℤ, pos,
}
use flake.Xpio.Proc.{buf_size, drain_pipe}

-- Where the process stands.
pub data Pc : Type 0 where
  outside : Pc  -- in none of the functions below, or in `poll`
  forked : Pc  -- after `fork` in `xpio__spawn`, before `xpproc_init` in `xpproc_new`
  draining : (received : Bool) → Pc  -- before `read` in `xpproc_reap`
  waiting : Pc  -- before `waitpid` in `xpproc_reap`

pub record Sys : Type 0 where
  pub alive : ℕ  -- children that run
  pub zombies : ℕ  -- children that have ended and have not been waited for
  pub installed : Bool  -- the SIGCHLD handler
  pub pending : Bool  -- SIGCHLD
  pub handling : Bool  -- the handler is running and has yet to write
  pub pipe : ℕ  -- bytes in the signal pipe
  pub pc : Pc

-- The control flow of the `do … while (n == sizeof buf)` loop and of `if (!bReceived) return 0`,
-- after a `read` of `n` bytes.
unfoldable pub after_read : (received : Bool) → (n : ℕ) → Pc
after_read received n =
    if n == buf_size
    then draining (received || ltb 0 n)
    else if received || ltb 0 n
    then waiting
    else outside

-- `read` returns what is there, up to the size of the buffer.
abbrev pub read_size : ℕ → ℕ
read_size pipe = if ltb pipe buf_size then pipe else buf_size

-- Before the handler is installed SIGCHLD is ignored, and an exit leaves no trace but the zombie.
pub data Step (s : Sys) : Sys → Type 0 where
  fork : s.pc ≡ outside → Step s (record s { alive = s.alive + 1; pc = forked })
  init : s.pc ≡ forked → Step s (record s { installed = true; pc = outside })
  ends :
      0 < s.alive
      → Step s (record s {
        alive = s.alive - 1;
        zombies = s.zombies + 1;
        pending = s.pending || s.installed;
      })
  deliver :
      s.pending ≡ true → s.handling ≡ false → Step s (record s { pending = false; handling = true })
  write : s.handling ≡ true → Step s (record s { handling = false; pipe = s.pipe + 1 })
  reap : s.pc ≡ outside → 0 < s.pipe → Step s (record s { pc = draining false })
  read :
      {received : Bool}
      → s.pc ≡ draining received
      → Step s (record s {
        pipe = s.pipe - read_size s.pipe;
        pc = after_read received (read_size s.pipe);
      })
  waitpid : s.pc ≡ waiting → 0 < s.zombies → Step s (record s { zombies = s.zombies - 1 })
  no_child : s.pc ≡ waiting → s.zombies ≡ 0 → Step s (record s { pc = outside })

pub data Steps (s : Sys) : Sys → Type 0 where
  here : Steps s s
  next : {t u : Sys} → Steps s t → Step t u → Steps s u

-- A zombie has left something that will wake the reaper, or the reaper is on its way to `waitpid`.
abbrev pub Noticed : Sys → Type 0
Noticed s =
    (s.zombies ≡ 0)
    ⊎ (s.pending ≡ true)
    ⊎ (s.handling ≡ true)
    ⊎ (0 < s.pipe)
    ⊎ (s.pc ≡ draining true)
    ⊎ (s.pc ≡ waiting)

pub record Inv (s : Sys) : Type 0 where
  pub handler : s.installed ≡ true
  pub noticed : Noticed s

Step-Inv : {s t : Sys} → Step s t → Inv s → Inv t
unfolding after_read
Step-Inv (fork at) v = ground arith
Step-Inv (init at) v = ground arith
Step-Inv (ends some_child) v = ground arith
Step-Inv (deliver p h) v = ground arith
Step-Inv (write h) v = ground arith
Step-Inv (reap at p) v = ground arith
Step-Inv (read {received = true} at) v = ground arith
Step-Inv (read {received = false} at) v = ground arith
Step-Inv (waitpid at z) v = ground arith
Step-Inv (no_child at z) v = ground arith

Steps-Inv : {s t : Sys} → Inv s → Steps s t → Inv t
Steps-Inv v here = v
Steps-Inv v (next r st) = Step-Inv st (Steps-Inv v r)

-- Nothing is under way that would wake the reaper.
pub record IsQuiet (s : Sys) : Type 0 where
  pub idle : s.pc ≡ outside
  pub unsignalled : s.pending ≡ false
  pub unhandled : s.handling ≡ false
  pub dry : s.pipe ≡ 0

-- Once the handler is installed with no zombie left behind, no exit is lost: whatever the order in
-- which children end, signals arrive, the handler writes and the process forks and reaps, when the
-- process is outside `xpproc_reap`, the pipe is empty and no signal is on its way, every child that
-- has ended has been waited for.
pub no_lost_exit :
    (s t : Sys) → s.installed ≡ true → s.zombies ≡ 0 → Steps s t → IsQuiet t → t.zombies ≡ 0
no_lost_exit s t on none_left r q =
    let v = Steps-Inv (record { handler = on; noticed = inl none_left }) r in ground arith

-- `xpproc_init` comes after the first `fork`. If a child ends in between, the process gets to a
-- state in which the handler is installed, the zombie is there, and nothing will wake the reaper.
pub early_exit-lost :
    (s : Sys)
    → s.pc ≡ forked
    → s.installed ≡ false
    → s.pending ≡ false
    → s.handling ≡ false
    → s.pipe ≡ 0
    → 0 < s.alive
    → (t : Sys) × Steps s t × IsQuiet t × (t.installed ≡ true) × (t.zombies ≡ s.zombies + 1)
early_exit-lost s at off no_signal no_handler dry some_child = (
  record s {
    alive = s.alive - 1;
    zombies = s.zombies + 1;
    pending = s.pending || s.installed;
    installed = true;
    pc = outside;
  },
  next (next here (ends some_child)) (init at),
  ground arith,
  refl,
  refl,
)

-- The steps follow the loop of `xpproc_reap` over the results of `read`.
pub drain_pipe-after_read :
    (received : Bool) (n : ℕ) (ns : List ℤ)
    → drain_pipe (pos n ∷ ns) received ≡ elim (after_read received n) [
      | draining r ↦ drain_pipe ns r
      | waiting ↦ true
      | outside ↦ false
      | forked ↦ false
    ]
unfolding drain_pipe after_read
drain_pipe-after_read received n ns = ground arith
