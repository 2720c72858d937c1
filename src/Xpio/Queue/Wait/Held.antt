-- ===== src/Xpio/Queue/Wait/Held.antt =====
-- luau/xpio_c.c: `poll` changes only `revents`, and a task waits for each watched descriptor.
use flake.Common.{
  ℕ, zero, suc, ◌+◌, ◌<◌, ◌≤◌, ◌≡◌, refl, ap, ◌∙◌, sym, append-nil, Bool, true, false, Option, some,
  List, [], ◌∷◌, ◌++◌, arith, ◌==◌, if◌then◌else◌, ℤ, eq_ℤ_iff, length, take, replicate,
}
use flake.Lua.{ok}
use flake.Lua.Table.{Key, TableApi}
use flake.Xpio.Queue.{reader, writer, State}
use flake.Xpio.Queue.Registry.{registered}
use flake.Xpio.Queue.PollSet.{PollFd, Revents, Build, modify, start_watch}
use flake.Xpio.Queue.PollSet.Index.{
  index_of, watch, NoDupFd, index_of-watch, take-modify, length-take, ensure_fds_ok,
  ensure_fds-total,
}
use flake.Xpio.Queue.PollSet.Watch.{in_use, is_some}
use flake.Xpio.Queue.PollSet.Collect.{wanted}
use flake.Xpio.Queue.Wake.Sockets.{AllHeld}
use flake.Xpio.Queue.Wait.{
  World, PollResult, polled, interrupted, set_revents, poll_loop, add_sig_pipe,
}

index_of-set_revents :
    (g : ℤ) (rs : ℕ → Revents) (i n : ℕ) (ps : List PollFd)
    → index_of g (set_revents rs i n ps) ≡ index_of g ps
unfolding set_revents
index_of-set_revents g rs i zero ps = refl
index_of-set_revents g rs i (suc n) [] = refl
index_of-set_revents g rs i (suc n) (p ∷ ps) =
    ground (arith, index_of-set_revents g rs (i + 1) n ps)

pub watch-set_revents :
    (g : ℤ) (rs : ℕ → Revents) (i n : ℕ) (ps : List PollFd)
    → watch g (set_revents rs i n ps) ≡ watch g ps
unfolding set_revents
watch-set_revents g rs i zero ps = refl
watch-set_revents g rs i (suc n) [] = refl
watch-set_revents g rs i (suc n) (p ∷ ps) = ground (arith, watch-set_revents g rs (i + 1) n ps)

pub NoDupFd-set_revents :
    (rs : ℕ → Revents) (i n : ℕ) (ps : List PollFd) → NoDupFd ps → NoDupFd (set_revents rs i n ps)
unfolding set_revents
NoDupFd-set_revents rs i zero ps h = h
NoDupFd-set_revents rs i (suc n) [] h = tt
NoDupFd-set_revents rs i (suc n) (p ∷ ps) (new, h) =
    (index_of-set_revents p.fd rs (i + 1) n ps ∙ new, NoDupFd-set_revents rs (i + 1) n ps h)

pub take-set_revents :
    (rs : ℕ → Revents) (i m n : ℕ) (ps : List PollFd)
    → m ≤ n
    → take m (set_revents rs i n ps) ≡ set_revents rs i m (take m ps)
unfolding set_revents
take-set_revents rs i zero n ps h = refl
take-set_revents rs i (suc m) zero ps h = absurd (omega arith)
take-set_revents rs i (suc m) (suc n) [] h = refl
take-set_revents rs i (suc m) (suc n) (p ∷ ps) h =
    ap (◌∷◌ (record p { revents = rs i })) (take-set_revents rs (i + 1) m n ps (omega arith))

pub length-set_revents :
    (rs : ℕ → Revents) (i n : ℕ) (ps : List PollFd) → length (set_revents rs i n ps) ≡ length ps
unfolding set_revents
length-set_revents rs i zero ps = refl
length-set_revents rs i (suc n) [] = refl
length-set_revents rs i (suc n) (p ∷ ps) = ap suc (length-set_revents rs (i + 1) n ps)

pub set_revents-set_revents :
    (rs : ℕ → Revents) (i n : ℕ) (ps : List PollFd)
    → set_revents rs i n (set_revents rs i n ps) ≡ set_revents rs i n ps
unfolding set_revents
set_revents-set_revents rs i zero ps = refl
set_revents-set_revents rs i (suc n) [] = refl
set_revents-set_revents rs i (suc n) (p ∷ ps) =
    ap (◌∷◌ (record p { revents = rs i })) (set_revents-set_revents rs (i + 1) n ps)

-- `poll` is interrupted a number of times, and then succeeds.
abbrev pub Answers : (ℕ → Revents) → List PollResult → Type 0
Answers rs answers = (n : ℕ) × (answers ≡ replicate n interrupted ++ polled rs ∷ [])

pub poll_loop-Answers :
    (rs : ℕ → Revents) (n nfds : ℕ) (pfds : List PollFd)
    → poll_loop (replicate n interrupted ++ polled rs ∷ []) nfds pfds
      ≡ ok (set_revents rs 0 nfds pfds)
unfolding poll_loop
poll_loop-Answers rs zero nfds pfds = refl
poll_loop-Answers rs (suc n) nfds pfds = poll_loop-Answers rs n nfds pfds

modify_beyond :
    (ps : List PollFd) (i : ℕ) (h : PollFd → PollFd) → length ps ≤ i → modify ps i h ≡ ps
unfolding modify
modify_beyond [] i h le = refl
modify_beyond (p ∷ ps) zero h le = absurd (omega arith)
modify_beyond (p ∷ ps) (suc i) h le = ap (◌∷◌ p) (modify_beyond ps i h (omega arith))

take-modify_last :
    (ps : List PollFd) (n : ℕ) (h : PollFd → PollFd)
    → n < length ps
    → (p : PollFd) × (take (suc n) (modify ps n h) ≡ take n ps ++ h p ∷ [])
unfolding modify
take-modify_last [] n h lt = absurd (omega arith)
take-modify_last (p ∷ ps) zero h lt = (p, refl)
take-modify_last (p ∷ ps) (suc n) h lt =
    let (q, e) = take-modify_last ps n h (omega arith) in (q, ap (◌∷◌ p) e)

-- No element, or one that asks for input on the signal pipe.
abbrev pub OnlyPipe : World → List PollFd → Type 0
OnlyPipe w [] = Unit {0}
OnlyPipe w (p ∷ ps) = (p.fd ≡ w.sig_pipe) × (p.want_in ≡ true) × (ps ≡ [])

-- The element for the signal pipe stands behind those in use.
pub add_sig_pipe-in_use :
    (w : World) (num : ℕ) (b : Build)
    → ((n : ℕ) → w.malloc n ≡ true)
    → b.used ≤ length b.pfds
    → (c : Build) × (add_sig_pipe w num b ≡ ok c)
      × (c.used ≡ b.used + (if num == 0 then 0 else 1))
      × (take b.used c.pfds ≡ in_use b)
      × (last : List PollFd) × (take c.used c.pfds ≡ in_use b ++ last)
      × OnlyPipe w last
unfolding add_sig_pipe
add_sig_pipe-in_use w zero b memory le =
    (b, refl, omega arith, refl, [], sym (append-nil (in_use b)), tt)
add_sig_pipe-in_use w (suc num) b memory le =
    let (grown, got) = ensure_fds-total w.malloc b.pfds b.used memory in
    let (kept, room) = ensure_fds_ok w.malloc b.pfds grown b.used le got in
    let c : Build = record b {
      pfds = modify grown b.used (start_watch reader w.sig_pipe);
      used = b.used + 1;
    } in
    let running : (suc num == 0) ≡ false = ground arith in
    let (p, all) = take-modify_last grown b.used (start_watch reader w.sig_pipe) room in
    let more : b.used + 1 ≡ suc b.used = omega arith in
    (
      c,
      rw (running, add_sig_pipe) (rw got refl),
      ground arith,
      take-modify b.used grown b.used (start_watch reader w.sig_pipe)
          ∙ modify_beyond (take b.used grown) b.used (start_watch reader w.sig_pipe)
              (omega (arith, length-take b.used grown (omega arith)))
          ∙ kept,
      start_watch reader w.sig_pipe p ∷ [],
      ap (λ n. take n c.pfds) more
          ∙ all
          ∙ ap (λ xs. xs ++ start_watch reader w.sig_pipe p ∷ []) kept,
      (refl, refl, refl),
    )

module _ (T : TableApi) (q : ℕ) where
  -- What is watched is what tasks wait for.
  abbrev pub wanted_in : State T → ℤ → Option (Bool × Bool)
  wanted_in s f =
      wanted (is_some (registered T s q reader (Key.fd f)))
        (is_some (registered T s q writer (Key.fd f)))

  pub watch-AllHeld :
      (s : State T) (ps : List PollFd)
      → NoDupFd ps
      → ((g : ℤ) (w : Bool × Bool) → watch g ps ≡ some w → wanted_in s g ≡ some w)
      → AllHeld T q s ps
  watch-AllHeld s [] nd h = tt
  watch-AllHeld s (p ∷ ps) (new, nd) h =
      let mine : wanted_in s p.fd ≡ some (p.want_in, p.want_out) =
        h p.fd (p.want_in, p.want_out) (ground (arith, eq_ℤ_iff p.fd p.fd)) in
      (
        ground arith,
        ground arith,
        watch-AllHeld s ps nd
            (λ g w e. h g w (ground (arith, eq_ℤ_iff p.fd g, index_of-watch p.fd ps new))),
      )
