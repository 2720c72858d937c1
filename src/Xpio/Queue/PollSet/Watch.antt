-- ===== src/Xpio/Queue/PollSet/Watch.antt =====
-- luau/xpio_c.c: what one round of the loops that fill the array for `poll` adds to it.
use flake.Common.{
  ℕ, suc, ◌+◌, ◌≤◌, ◌≡◌, ap, ◌∙◌, subst, Bool, true, false, ◌&&◌, Option, none, some, List, [], ◌∷◌,
  ◌++◌, arith, if◌then◌else◌, ℤ, eq_ℤ, eq_ℤ_iff, length, take,
}
use flake.Lua.{ok, >>=-eq-ok}
use flake.Lua.Table.{Key, Entries}
use flake.Xpio.Queue.{Mode, writer}
use flake.Xpio.Queue.PollSet.{
  PollFd, Build, add_slot, start_watch, also_out, modify, ensure_fds, is_reader, slot_of,
}
use flake.Xpio.Queue.PollSet.Index.{
  index_of, watch, watch-append, index_of-append, index_of-watch, take-modify_next, length-modify,
  length-take, NoDupFd, NoDupFd-append, ensure_fds_ok,
}

-- The elements in use.
abbrev pub in_use : Build → List PollFd
in_use b = take b.used b.pfds

-- Every key is a descriptor.
abbrev pub FdKeys : Entries → Type 0
FdKeys [] = Unit {0}
FdKeys ((Key.fd f, t) ∷ es) = FdKeys es
FdKeys ((Key.proc p, t) ∷ es) = ⊥

abbrev pub is_some : Option ℕ → Bool
is_some none = false
is_some (some t) = true

-- A new element at the end of those in use.
append_slot :
    (malloc : ℕ → Bool) (mode : Mode) (b : Build) (f : ℤ) (grown : List PollFd)
    → b.used ≤ length b.pfds
    → ensure_fds malloc b.pfds b.used ≡ ok grown
    → (p : PollFd) × (take (b.used + 1) (modify grown b.used (start_watch mode f))
        ≡ in_use b ++ start_watch mode f p ∷ [])
      × (b.used + 1 ≤ length (modify grown b.used (start_watch mode f)))
append_slot malloc mode b f grown le e =
    let (kept, room) = ensure_fds_ok malloc b.pfds grown b.used le e in
    let (p, at) = take-modify_next b.used grown (start_watch mode f) room in
    let n : b.used + 1 ≡ suc b.used = omega arith in
    (
      p,
      rw n (at ∙ ap (λ (ps : List PollFd). ps ++ start_watch mode f p ∷ []) kept),
      omega (arith, length-modify grown b.used (start_watch mode f)),
    )

-- What the body of the loop leaves where it allocates an element.
abbrev pub added : Mode → Build → ℤ → List PollFd → Build
added mode b f grown = record {
  pfds = modify grown b.used (start_watch mode f);
  used = b.used + 1;
  slots = λ g. if is_reader mode then if eq_ℤ g f then some b.used else b.slots g else b.slots g;
}

add_slot_new :
    (malloc : ℕ → Bool) (mode : Mode) (b c : Build) (f : ℤ)
    → slot_of mode b f ≡ none
    → add_slot malloc mode b f ≡ ok c
    → (grown : List PollFd) × (ensure_fds malloc b.pfds b.used ≡ ok grown)
      × (added mode b f grown ≡ c)
unfolding add_slot
add_slot_new malloc mode b c f free e =
    let (grown, got, made) =
      >>=-eq-ok (ensure_fds malloc b.pfds b.used) (λ g. ok (added mode b f g)) {w = c}
        (rw (free, add_slot) at e) in
    (grown, got, ground arith)

pub add_slot_old :
    (malloc : ℕ → Bool) (b c : Build) (f : ℤ) (i : ℕ)
    → b.slots f ≡ some i
    → add_slot malloc writer b f ≡ ok c
    → record b { pfds = modify b.pfds i also_out } ≡ c
unfolding add_slot
add_slot_old malloc b c f i slot e = ground arith

-- The elements in use after that: one more, for this descriptor alone.
pub record Adds (mode : Mode) (b c : Build) (f : ℤ) : Type 0 where
  pub fits : c.used ≤ length c.pfds
  pub distinct : NoDupFd (in_use b) → NoDupFd (in_use c)
  pub indexes :
      (g : ℤ) → index_of g (in_use c) ≡ (if eq_ℤ f g then some b.used else index_of g (in_use b))
  pub watches :
      (g : ℤ)
      → watch g (in_use c) ≡ (
          if eq_ℤ f g
          then some (is_reader mode, (if is_reader mode then false else true))
          else watch g (in_use b))

added-Adds :
    (malloc : ℕ → Bool) (mode : Mode) (b : Build) (f : ℤ) (grown : List PollFd)
    → b.used ≤ length b.pfds
    → index_of f (in_use b) ≡ none
    → ensure_fds malloc b.pfds b.used ≡ ok grown
    → Adds mode b (added mode b f grown) f
added-Adds malloc mode b f grown le new got =
    let (p, at, fits) = append_slot malloc mode b f grown le got in
    let n : length (in_use b) ≡ b.used = length-take b.used b.pfds le in
    let unseen : watch f (in_use b) ≡ none = index_of-watch f (in_use b) new in
    record {
      fits = fits;
      distinct = λ h. rw at (NoDupFd-append (in_use b) (start_watch mode f p) new h);
      indexes = λ g.
          rw at
            (index_of-append g (in_use b) (start_watch mode f p) ∙ ground (arith, eq_ℤ_iff f g));
      watches = λ g.
          rw at (watch-append g (in_use b) (start_watch mode f p) ∙ ground (arith, eq_ℤ_iff f g));
    }

pub add_slot-Adds :
    (malloc : ℕ → Bool) (mode : Mode) (b c : Build) (f : ℤ)
    → b.used ≤ length b.pfds
    → index_of f (in_use b) ≡ none
    → slot_of mode b f ≡ none
    → add_slot malloc mode b f ≡ ok c
    → Adds mode b c f
      × ((g : ℤ) → c.slots g ≡ (if is_reader mode && eq_ℤ g f then some b.used else b.slots g))
add_slot-Adds malloc mode b c f le new free e =
    let (grown, got, same) = add_slot_new malloc mode b c f free e in
    subst
      (λ (d : Build).
        Adds mode b d f
        × ((g : ℤ) → d.slots g ≡ (if is_reader mode && eq_ℤ g f then some b.used else b.slots g)))
      same (added-Adds malloc mode b f grown le new got, λ g. ground arith)
