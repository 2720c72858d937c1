-- ===== src/Xpio/Children/Reaped.antt =====
-- luau/xpio_c.c, `xpproc_reap`: the children that exited.
use flake.Common.{
  ℕ, ◌<◌, ◌≡◌, refl, ◌∙◌, ap, sym, subst, true, false, List, [], ◌∷◌, arith, some, All, Bool-cases,
  inl, inr, map, length, is_positive, ℤ,
}
use flake.Xpio.Proc.{XpProc, Procs, Cells, WaitResult, drain_pipe, reap}
use flake.Xpio.Proc.Chain.{mem, Distinct, Chain-keep}
use flake.Xpio.Proc.Reap.{outcome, settled, Pids, reap-drain_pipe}
use flake.Xpio.Children.{ProcView, objects, Held, Implements, reaps, apply, reported, run_op}
use flake.Xpio.Children.Found.{object-found, same_cell}
use flake.Xpio.Children.Reported.{outcome-reported, outcome-pid}

reported-object : (ws : List WaitResult) (o : ProcView) → (reported ws o).object ≡ o.object
reported-object [] o = refl
reported-object (WaitResult.child pid status ∷ ws) o = ground (arith, reported-object ws o)
reported-object (WaitResult.interrupted ∷ ws) o = reported-object ws o
reported-object (WaitResult.running ∷ ws) o = refl
reported-object (WaitResult.failed ∷ ws) o = refl

objects-reported :
    (ws : List WaitResult) (os : List ProcView) → objects (map (reported ws) os) ≡ objects os
objects-reported ws [] = refl
objects-reported ws (o ∷ os) = rw (reported-object ws o, objects-reported ws os) refl

settled-cell :
    (objs : List ℕ) (ws : List WaitResult) (cells : Cells) (a : ℕ) (c : XpProc)
    → mem a objs ≡ true
    → cells a ≡ some c
    → settled objs ws cells a ≡ some (outcome ws c)
unfolding settled
settled-cell objs ws cells a c m there = rw (settled, there, m) refl

settled-next :
    (objs : List ℕ) (ws : List WaitResult) (cells : Cells) (a : ℕ) (c : XpProc)
    → cells a ≡ some c
    → (c' : XpProc) × (settled objs ws cells a ≡ some c') × (c'.next ≡ c.next)
unfolding settled
settled-next objs ws cells a c there = elim (Bool-cases (mem a objs)) [
  | inl m ↦ (outcome ws c, rw (settled, there, m) refl, outcome-next ws c)
  | inr m ↦ (c, rw (settled, there, m) refl, refl)
]
  where
    outcome-next : (ws : List WaitResult) (c : XpProc) → (outcome ws c).next ≡ c.next
    outcome-next [] c = refl
    outcome-next (WaitResult.child pid status ∷ ws) c = outcome-next ws _ ∙ ground arith
    outcome-next (WaitResult.interrupted ∷ ws) c = outcome-next ws c
    outcome-next (WaitResult.running ∷ ws) c = refl
    outcome-next (WaitResult.failed ∷ ws) c = refl

settled-Held :
    (objs : List ℕ) (ws : List WaitResult) (ps : Procs) (os : List ProcView)
    → Pids ws
    → ((a : ℕ) → mem a (objects os) ≡ true → mem a objs ≡ true)
    → All (Held ps) os
    → All (Held (record ps { cells = settled objs ws ps.cells })) (map (reported ws) os)
settled-Held objs ws ps [] w sub h = tt
settled-Held objs ws ps (o ∷ os) w sub ((c, there, p, s), h) = (
  (
    outcome ws c,
    rw (reported-object ws o)
        (settled-cell objs ws ps.cells o.object c (sub o.object (ground arith)) there),
    (outcome-reported ws c o w p s).0,
    (outcome-reported ws c o w p s).1,
  ),
  settled-Held objs ws ps os w (λ a m. sub a (ground arith)) h,
)

settled-Distinct :
    (ws : List WaitResult) (ps : Procs) (os : List ProcView)
    → Pids ws
    → Implements ps os
    → Distinct (settled (objects os) ws ps.cells) (objects os)
settled-Distinct ws ps os w i a b c d ma mb ca cb e p =
    let (c0, here) = object-found ps a os i.held ma in
    let (d0, there) = object-found ps b os i.held mb in
    let co : outcome ws c0 ≡ c =
      same_cell (sym (settled-cell (objects os) ws ps.cells a c0 ma here) ∙ ca) in
    let do' : outcome ws d0 ≡ d =
      same_cell (sym (settled-cell (objects os) ws ps.cells b d0 mb there) ∙ cb) in
    let cp : is_positive (outcome ws c0).pid ≡ true =
      subst (λ (x : XpProc). is_positive x.pid ≡ true) (sym co) p in
    let dp : is_positive (outcome ws d0).pid ≡ true =
      subst (λ (x : XpProc). is_positive x.pid ≡ true) (sym do')
        (subst (λ x. is_positive x ≡ true) e p) in
    let old_c : c.pid ≡ c0.pid = sym (ap (λ (x : XpProc). x.pid) co) ∙ outcome-pid ws c0 w cp in
    let old_d : d.pid ≡ d0.pid = sym (ap (λ (x : XpProc). x.pid) do') ∙ outcome-pid ws d0 w dp in
    i.distinct a b c0 d0 ma mb here there (sym old_c ∙ e ∙ old_d)
      (subst (λ x. is_positive x ≡ true) old_c p)

settled-Implements :
    (ws : List WaitResult) (ps : Procs) (os : List ProcView)
    → Pids ws
    → Implements ps os
    → Implements (record ps { cells = settled (objects os) ws ps.cells }) (map (reported ws) os)
settled-Implements ws ps os w i =
    let same = objects-reported ws os in
    record {
      list = rw same (record {
        chain =
            Chain-keep ps.cells (settled (objects os) ws ps.cells) ps.head (objects os)
              (settled-next (objects os) ws ps.cells) i.list.chain;
        nodup = i.list.nodup;
      });
      held = settled-Held (objects os) ws ps os w (λ a m. m) i.held;
      distinct = rw same (settled-Distinct ws ps os w i);
    }

reaps_returns :
    (fuel : ℕ) (reads : List ℤ) (ws : List WaitResult) (ps ps' : Procs) (n : ℕ)
    → reap fuel reads ws ps ≡ some (ps', n)
    → run_op fuel (reaps reads ws) ps ≡ some (ps', [])
unfolding run_op
reaps_returns fuel reads ws ps ps' n e = rw (run_op, e) refl

pub reaps-Implements :
    (fuel : ℕ) (reads : List ℤ) (ws : List WaitResult) (ps : Procs) (os : List ProcView)
    → Implements ps os
    → Pids ws
    → length (objects os) < fuel
    → (ps' : Procs) × (run_op fuel (reaps reads ws) ps ≡ some (ps', []))
      × Implements ps' (apply (reaps reads ws) os)
reaps-Implements fuel reads ws ps os i w lt =
    let (n, done, counted) =
      reap-drain_pipe fuel reads ws ps (objects os) i.list.chain i.distinct w lt in
    elim (Bool-cases (drain_pipe reads false)) [
      | inl got ↦ (
        record ps { cells = settled (objects os) ws ps.cells },
        reaps_returns fuel reads ws ps _ n (done ∙ rw got refl),
        rw got (settled-Implements ws ps os w i),
      )
      | inr dry ↦ (ps, reaps_returns fuel reads ws ps ps 0 (done ∙ rw dry refl), rw dry i)
    ]
