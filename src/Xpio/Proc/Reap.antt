-- ===== src/Xpio/Proc/Reap.antt =====
-- luau/xpio_c.c: `xpproc_reap` delivers to each process object what `waitpid` reported of its child.
use mathlib.Core.Path.{fun_ext}
use flake.Common.{
  ℕ, zero, suc, ◌+◌, ◌<◌, ◌≤◌, ◌≡◌, refl, ◌∙◌, Bool, true, false, none, some, List, [], ◌∷◌, arith,
  if◌then◌else◌, ℤ, pos, eq_ℤ, is_positive, length, Option-cases, inl, inr, subst, ◌⊎◌,
}
use flake.Xpio.Proc.{
  XpProc, Cells, Procs, exited, mark_exited, WaitResult, child, running, interrupted, failed,
  reap_children, drain_pipe, reap,
}
use flake.Xpio.Proc.Chain.{Chain, Chain-marked, Distinct, mem, marked}
use flake.Xpio.Proc.Walk.{mark_exited-marked}

-- What one object becomes, seen alone: it takes the first status that is reported for its PID
-- before `waitpid` has no more children to report.
abbrev pub outcome : List WaitResult → XpProc → XpProc
outcome [] c = c
outcome (child pid status ∷ ws) c = outcome ws (if eq_ℤ c.pid (pos pid) then exited status c else c)
outcome (interrupted ∷ ws) c = outcome ws c
outcome (running ∷ ws) c = c
outcome (failed ∷ ws) c = c

unfoldable pub settled : List ℕ → List WaitResult → Cells → Cells
settled objs ws cells b = elim (cells b) [
  | none ↦ none
  | some c ↦ some (if mem b objs then outcome ws c else c)
]

-- `waitpid` reports positive PIDs.
abbrev pub Pids : List WaitResult → Type 0
Pids [] = Unit {0}
Pids (child pid status ∷ ws) = (0 < pid) × Pids ws
Pids (interrupted ∷ ws) = Pids ws
Pids (running ∷ ws) = Unit {0}
Pids (failed ∷ ws) = Unit {0}

settled_same :
    (objs : List ℕ) (ws : List WaitResult) (cells : Cells)
    → ((c : XpProc) → outcome ws c ≡ c)
    → settled objs ws cells ≡ cells
unfolding settled
settled_same objs ws cells h =
    fun_ext (λ b. elim (Option-cases (cells b)) [
      | inl e ↦ ground arith
      | inr (c, e) ↦ ground (arith, h c)
    ])

settled_child :
    (objs : List ℕ) (pid status : ℕ) (ws : List WaitResult) (cells : Cells)
    → settled objs ws (marked objs (pos pid) status cells)
      ≡ settled objs (child pid status ∷ ws) cells
unfolding settled marked
settled_child objs pid status ws cells =
    fun_ext
      (λ b. elim (Option-cases (cells b)) [ inl e ↦ ground arith | inr (c, e) ↦ ground arith ])

-- An object that has not been reaped has not been changed.
marked_alive :
    (bs : List ℕ) (pid : ℤ) (status : ℕ) (cells : Cells) (a : ℕ) (c : XpProc)
    → marked bs pid status cells a ≡ some c
    → is_positive c.pid ≡ true
    → cells a ≡ some c
unfolding marked
marked_alive bs pid status cells a c e p = elim (Option-cases (cells a)) [
  | inl gone ↦ ground arith
  | inr (d, there) ↦ ground arith
]

Distinct-marked :
    (objs bs : List ℕ) (pid : ℤ) (status : ℕ) (cells : Cells)
    → Distinct cells objs
    → Distinct (marked bs pid status cells) objs
Distinct-marked objs bs pid status cells dist a b c d ma mb ca cb e p =
    dist a b c d ma mb (marked_alive bs pid status cells a c ca p)
      (marked_alive bs pid status cells b d cb (subst (λ q. is_positive q ≡ true) e p)) e p

-- The loop over the results of `waitpid` ends, and leaves the objects as `settled` says. It counts
-- no update only when it changes no object.
abbrev pub Settles : ℕ → List WaitResult → Procs → ℕ → List ℕ → Type 0
Settles fuel ws ps num objs =
    (n : ℕ) × (reap_children fuel ws ps num
      ≡ some (record ps { cells = settled objs ws ps.cells }, n))
    × (num ≤ n)
    × (n ≡ num → settled objs ws ps.cells ≡ ps.cells)

Settles-end :
    (fuel : ℕ) (ws : List WaitResult) (ps : Procs) (num : ℕ) (objs : List ℕ)
    → reap_children fuel ws ps num ≡ some (ps, num)
    → ((c : XpProc) → outcome ws c ≡ c)
    → Settles fuel ws ps num objs
Settles-end fuel ws ps num objs e stays =
    let same = settled_same objs ws ps.cells stays in (num, rw same e, omega arith, λ _. same)

Settles-interrupted :
    (fuel : ℕ) (ws : List WaitResult) (ps : Procs) (num : ℕ) (objs : List ℕ)
    → Settles fuel ws ps num objs
    → Settles fuel (interrupted ∷ ws) ps num objs
unfolding reap_children settled
Settles-interrupted fuel ws ps num objs r = r

reap_children_found :
    (fuel pid status : ℕ) (ws : List WaitResult) (ps : Procs) (num : ℕ) (cells : Cells)
    (found : Bool)
    → mark_exited fuel ps.head (pos pid) status ps.cells ≡ some (cells, found)
    → reap_children fuel (child pid status ∷ ws) ps num
      ≡ reap_children fuel ws (record ps { cells = cells }) (if found then num + 1 else num)
unfolding reap_children
reap_children_found fuel pid status ws ps num cells found hit = rw (hit, reap_children)

Settles-child :
    (fuel pid status : ℕ) (ws : List WaitResult) (ps : Procs) (num : ℕ) (objs : List ℕ)
    (found : Bool)
    → mark_exited fuel ps.head (pos pid) status ps.cells
      ≡ some (marked objs (pos pid) status ps.cells, found)
    → (found ≡ false → marked objs (pos pid) status ps.cells ≡ ps.cells)
    → Settles fuel ws
        (record ps { cells = marked objs (pos pid) status ps.cells })
        (if found then num + 1 else num)
        objs
    → Settles fuel (child pid status ∷ ws) ps num objs
Settles-child fuel pid status ws ps num objs found hit miss (n, done, le, same) = (
  n,
  rw (← settled_child objs pid status ws ps.cells)
      (reap_children_found fuel pid status ws ps num _ found hit ∙ done),
  ground arith,
  λ e.
      let f : found ≡ false = ground arith in
      rw (← settled_child objs pid status ws ps.cells) (same (rw f e) ∙ miss f),
)

pub reap_children-settled :
    (fuel : ℕ) (ws : List WaitResult) (ps : Procs) (num : ℕ) (objs : List ℕ)
    → Chain ps.cells ps.head objs
    → Distinct ps.cells objs
    → Pids ws
    → length objs < fuel
    → Settles fuel ws ps num objs
unfolding reap_children
reap_children-settled fuel [] ps num objs h dist w lt =
    Settles-end fuel [] ps num objs refl (λ c. refl)
reap_children-settled fuel (running ∷ ws) ps num objs h dist w lt =
    Settles-end fuel (running ∷ ws) ps num objs refl (λ c. refl)
reap_children-settled fuel (failed ∷ ws) ps num objs h dist w lt =
    Settles-end fuel (failed ∷ ws) ps num objs refl (λ c. refl)
reap_children-settled fuel (interrupted ∷ ws) ps num objs h dist w lt =
    Settles-interrupted fuel ws ps num objs (reap_children-settled fuel ws ps num objs h dist w lt)
reap_children-settled fuel (child pid status ∷ ws) ps num objs h dist w lt =
    let (found, hit, miss) =
      mark_exited-marked fuel ps.head (pos pid) status ps.cells objs h dist (ground arith) lt in
    Settles-child fuel pid status ws ps num objs found hit miss (
      reap_children-settled fuel ws (record ps { cells = marked objs (pos pid) status ps.cells })
        (if found then num + 1 else num) objs
        (Chain-marked objs objs ps.head (pos pid) status ps.cells h)
        (Distinct-marked objs objs (pos pid) status ps.cells dist) w.1 lt)

pub reap-drain_pipe :
    (fuel : ℕ) (reads : List ℤ) (ws : List WaitResult) (ps : Procs) (objs : List ℕ)
    → Chain ps.cells ps.head objs
    → Distinct ps.cells objs
    → Pids ws
    → length objs < fuel
    → (n : ℕ) × (reap fuel reads ws ps
        ≡ some (
            if drain_pipe reads false
            then (record ps { cells = settled objs ws ps.cells }, n)
            else (ps, 0)))
      × ((settled objs ws ps.cells ≡ ps.cells) ⊎ (0 < n))
unfolding reap
reap-drain_pipe fuel reads ws ps objs h dist w lt =
    let (n, done, le, same) = reap_children-settled fuel ws ps 0 objs h dist w lt in
    (n, ground arith, counted n same)
  where
    counted :
        (n : ℕ)
        → (n ≡ 0 → settled objs ws ps.cells ≡ ps.cells)
        → (settled objs ws ps.cells ≡ ps.cells) ⊎ (0 < n)
    counted zero same = inl (same refl)
    counted (suc n) same = inr (omega arith)

-- The pipe held bytes: the first call of `read` gave some.
abbrev pub was_written : (reads : List ℤ) → Bool
was_written [] = false
was_written (n ∷ ns) = is_positive n
