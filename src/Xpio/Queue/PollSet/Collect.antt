-- ===== src/Xpio/Queue/PollSet/Collect.antt =====
-- luau/xpio_c.c: `xpqueue_wait` watches each descriptor once, for what its tasks wait for.
use flake.Common.{
  ℕ, ◌≤◌, ◌≡◌, refl, ◌∙◌, sym, subst, Bool, true, false, ◌||◌, Option, none, some, List, [], ◌∷◌,
  arith, if◌then◌else◌, ℤ, pos, eq_ℤ, eq_ℤ_iff, length, take, Option-cases, inl, inr,
}
use flake.Lua.{ok, >>=-eq-ok}
use flake.Lua.Table.{Key, Entries, find, DistinctKeys, TableApi}
use flake.Xpio.Queue.{Mode, reader, writer, Tables}
use flake.Xpio.Queue.PollSet.{
  PollFd, Build, add_slot, collect, poll_set, start_build, also_out, modify, key_fd, slot_of,
}
use flake.Xpio.Queue.PollSet.Index.{
  index_of, watch, watches_in, index_of-modify, watch-modify, index_of-watch, take-modify,
  length-modify, ensure_fds-total, NoDupFd, NoDupFd-modify,
}
use flake.Xpio.Queue.PollSet.Watch.{in_use, FdKeys, is_some, added, add_slot-Adds, add_slot_old}

-- What holds between two rounds of the loop over readers, with the entries `es` to come.
record Reading (es : Entries) (b : Build) : Type 0 where
  fits : b.used ≤ length b.pfds
  distinct : NoDupFd (in_use b)
  indexed : (g : ℤ) → b.slots g ≡ index_of g (in_use b)
  fresh : (g : ℤ) → is_some (find (Key.fd g) es) ≡ true → index_of g (in_use b) ≡ none

Reading-step :
    (malloc : ℕ → Bool) (f : ℤ) (t : ℕ) (es : Entries) (b c : Build)
    → find (Key.fd f) es ≡ none
    → Reading ((Key.fd f, t) ∷ es) b
    → add_slot malloc reader b f ≡ ok c
    → Reading es c
      × ((g : ℤ)
          → watch g (in_use c) ≡ (if eq_ℤ f g then some (true, false) else watch g (in_use b)))
Reading-step malloc f t es b c gone v e =
    let (a, slots) =
      add_slot-Adds malloc reader b c f v.fits (v.fresh f (ground (arith, eq_ℤ_iff f f))) refl e in
    (
      record {
        fits = a.fits;
        distinct = a.distinct v.distinct;
        indexed =
            λ g. ground (arith, slots g, a.indexes g, v.indexed g, eq_ℤ_iff f g, eq_ℤ_iff g f);
        fresh = λ g h. ground (arith, a.indexes g, v.fresh g, eq_ℤ_iff f g);
      },
      a.watches,
    )

collect_readers :
    (malloc : ℕ → Bool) (es : Entries) (b c : Build)
    → FdKeys es
    → DistinctKeys es
    → Reading es b
    → collect malloc reader es b ≡ ok c
    → Reading [] c
      × ((g : ℤ)
          → watch g (in_use c)
            ≡ (if is_some (find (Key.fd g) es) then some (true, false) else watch g (in_use b)))
unfolding collect
collect_readers malloc [] b c fk dk v e =
    let same : b ≡ c = ground arith in
    subst (λ (d : Build). Reading [] d × ((g : ℤ) → watch g (in_use d) ≡ watch g (in_use b))) same
      (v, λ g. refl)
collect_readers malloc ((Key.proc p, t) ∷ es) b c fk dk v e = absurd fk
collect_readers malloc ((Key.fd f, t) ∷ es) b c fk (gone, dk) v e =
    let (d, stepped, rest) = >>=-eq-ok (add_slot malloc reader b f) (collect malloc reader es) e in
    let (u, one) = Reading-step malloc f t es b d gone v stepped in
    let (done, all) = collect_readers malloc es d c fk dk u rest in
    (done, λ g. all g ∙ ground (arith, one g, eq_ℤ_iff f g))

-- What holds between two rounds of the loop over writers.
record Writing (es : Entries) (b : Build) : Type 0 where
  fits : b.used ≤ length b.pfds
  distinct : NoDupFd (in_use b)
  indexed : (g : ℤ) → is_some (find (Key.fd g) es) ≡ true → b.slots g ≡ index_of g (in_use b)

abbrev out_too : (f g : ℤ) → List PollFd → Option (Bool × Bool)
out_too f g ps = if eq_ℤ f g then some (watches_in (watch g ps), true) else watch g ps

Writing-step :
    (malloc : ℕ → Bool) (f : ℤ) (t : ℕ) (es : Entries) (b c : Build)
    → find (Key.fd f) es ≡ none
    → Writing ((Key.fd f, t) ∷ es) b
    → add_slot malloc writer b f ≡ ok c
    → Writing es c × ((g : ℤ) → watch g (in_use c) ≡ out_too f g (in_use b))
Writing-step malloc f t es b c gone v e = elim (Option-cases (b.slots f)) [
  | inl free ↦
      let new : index_of f (in_use b) ≡ none = ground (arith, v.indexed f, eq_ℤ_iff f f) in
      let (a, slots) = add_slot-Adds malloc writer b c f v.fits new free e in
      (
        record {
          fits = a.fits;
          distinct = a.distinct v.distinct;
          indexed = λ g h. ground (arith, slots g, a.indexes g, v.indexed g, eq_ℤ_iff f g);
        },
        λ g. a.watches g ∙ ground (arith, index_of-watch f (in_use b) new, eq_ℤ_iff f g),
      )
  | inr (i, slot) ↦
      let at : index_of f (in_use b) ≡ some i = ground (arith, v.indexed f, eq_ℤ_iff f f) in
      let same : record b { pfds = modify b.pfds i also_out } ≡ c =
        add_slot_old malloc b c f i slot e in
      let kept : take b.used (modify b.pfds i also_out) ≡ modify (in_use b) i also_out =
        take-modify b.used b.pfds i also_out in
      subst (λ (d : Build). Writing es d × ((g : ℤ) → watch g (in_use d) ≡ out_too f g (in_use b)))
        same
        (
          record {
            fits = omega (arith, v.fits, length-modify b.pfds i also_out);
            distinct = rw kept (NoDupFd-modify (in_use b) i v.distinct);
            indexed =
                λ g h. v.indexed g (ground arith) ∙ sym (rw kept (index_of-modify g (in_use b) i));
          },
          λ g. rw kept (watch-modify f g (in_use b) i at),
        )
]

collect_writers :
    (malloc : ℕ → Bool) (es : Entries) (b c : Build)
    → FdKeys es
    → DistinctKeys es
    → Writing es b
    → collect malloc writer es b ≡ ok c
    → Writing [] c
      × ((g : ℤ)
          → watch g (in_use c) ≡ (
              if is_some (find (Key.fd g) es)
              then some (watches_in (watch g (in_use b)), true)
              else watch g (in_use b)))
unfolding collect
collect_writers malloc [] b c fk dk v e =
    let same : b ≡ c = ground arith in
    subst (λ (d : Build). Writing [] d × ((g : ℤ) → watch g (in_use d) ≡ watch g (in_use b))) same
      (v, λ g. refl)
collect_writers malloc ((Key.proc p, t) ∷ es) b c fk dk v e = absurd fk
collect_writers malloc ((Key.fd f, t) ∷ es) b c fk (gone, dk) v e =
    let (d, stepped, rest) = >>=-eq-ok (add_slot malloc writer b f) (collect malloc writer es) e in
    let (u, one) = Writing-step malloc f t es b d gone v stepped in
    let (done, all) = collect_writers malloc es d c fk dk u rest in
    (done, λ g. all g ∙ ground (arith, one g, eq_ℤ_iff f g))

add_slot-total :
    (malloc : ℕ → Bool) (mode : Mode) (b : Build) (f : ℤ)
    → ((n : ℕ) → malloc n ≡ true)
    → (c : Build) × (add_slot malloc mode b f ≡ ok c)
unfolding add_slot
add_slot-total malloc mode b f memory = elim (Option-cases (slot_of mode b f)) [
  | inr (i, slot) ↦ (record b { pfds = modify b.pfds i also_out }, rw (slot, add_slot) refl)
  | inl free ↦
      let (grown, e) = ensure_fds-total malloc b.pfds b.used memory in
      (added mode b f grown, rw (free, add_slot) (rw e refl))
]

collect-total :
    (malloc : ℕ → Bool) (mode : Mode) (es : Entries) (b : Build)
    → ((n : ℕ) → malloc n ≡ true)
    → (c : Build) × (collect malloc mode es b ≡ ok c)
unfolding collect
collect-total malloc mode [] b memory = (b, refl)
collect-total malloc mode ((k, t) ∷ es) b memory =
    let (c, e) = add_slot-total malloc mode b (key_fd k) memory in
    let (d, rest) = collect-total malloc mode es c memory in (d, rw e rest)

-- POLLIN and POLLOUT for a descriptor for which tasks read (`r`) or write (`w`).
abbrev pub wanted : (r w : Bool) → Option (Bool × Bool)
wanted r w = if r || w then some (r, w) else none

module _ (T : TableApi) where
  -- If the array for `poll` is filled, each descriptor stands in it at most once, and it stands there
  -- with POLLIN exactly if a reader waits for it and with POLLOUT exactly if a writer does. The keys
  -- of both tables are descriptors.
  pub poll_set-watch :
      (malloc : ℕ → Bool) (pfds : List PollFd) (ts : Tables T) (b : Build) (f : ℤ)
      → FdKeys (T.entries ts.readers)
      → FdKeys (T.entries ts.writers)
      → poll_set T malloc pfds ts ≡ ok b
      → (b.used ≤ length b.pfds)
        × NoDupFd (in_use b)
        × (watch f (in_use b)
            ≡ wanted
                (is_some (T.get ts.readers (Key.fd f)))
                (is_some (T.get ts.writers (Key.fd f))))
  unfolding poll_set
  poll_set-watch malloc pfds ts b f fr fw e =
      let (c, read, written) =
        >>=-eq-ok (collect malloc reader (T.entries ts.readers) (start_build pfds))
          (collect malloc writer (T.entries ts.writers)) e in
      let start : Reading (T.entries ts.readers) (start_build pfds) = record {
        fits = omega arith;
        distinct = tt;
        indexed = λ g. refl;
        fresh = λ g h. refl;
      } in
      let (v, rs) =
        collect_readers malloc (T.entries ts.readers) (start_build pfds) c fr
          (T.entries_distinct ts.readers) start read in
      let (w, ws) =
        collect_writers malloc (T.entries ts.writers) c b fw (T.entries_distinct ts.writers)
          (record { fits = v.fits; distinct = v.distinct; indexed = λ g h. v.indexed g }) written in
      (
        w.fits,
        w.distinct,
        ground (
          arith,
          ws f,
          rs f,
          T.find-entries ts.readers (Key.fd f),
          T.find-entries ts.writers (Key.fd f),
        ),
      )

  pub poll_set_total :
      (malloc : ℕ → Bool) (pfds : List PollFd) (ts : Tables T)
      → ((n : ℕ) → malloc n ≡ true)
      → (b : Build) × (poll_set T malloc pfds ts ≡ ok b)
  unfolding poll_set
  poll_set_total malloc pfds ts memory =
      let (c, read) =
        collect-total malloc reader (T.entries ts.readers) (start_build pfds) memory in
      let (b, written) = collect-total malloc writer (T.entries ts.writers) c memory in
      (b, rw read written)

  -- Where memory is had, the array for `poll` is filled, for whatever array there was: each descriptor
  -- stands in it at most once, with POLLIN exactly if a reader waits for it and with POLLOUT exactly
  -- if a writer does, and the elements in use are within the array. The keys of both tables are
  -- descriptors.
  pub poll_set-total :
      (malloc : ℕ → Bool) (pfds : List PollFd) (ts : Tables T)
      → ((n : ℕ) → malloc n ≡ true)
      → FdKeys (T.entries ts.readers)
      → FdKeys (T.entries ts.writers)
      → (b : Build) × (poll_set T malloc pfds ts ≡ ok b)
        × (b.used ≤ length b.pfds)
        × NoDupFd (in_use b)
        × ((f : ℤ)
            → watch f (in_use b)
              ≡ wanted
                  (is_some (T.get ts.readers (Key.fd f)))
                  (is_some (T.get ts.writers (Key.fd f))))
  poll_set-total malloc pfds ts memory fr fw =
      let (b, built) = poll_set_total malloc pfds ts memory in
      let (fits, distinct, _) = poll_set-watch malloc pfds ts b (pos 0) fr fw built in
      (b, built, fits, distinct, λ f. (poll_set-watch malloc pfds ts b f fr fw built).2)
