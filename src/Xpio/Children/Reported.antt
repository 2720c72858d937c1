-- ===== src/Xpio/Children/Reported.antt =====
-- luau/xpio_c.c: what `waitpid` reports changes an object as it changes the abstract child.
use flake.Common.{
  ◌≡◌, refl, ap, ◌∙◌, true, false, List, [], ◌∷◌, arith, pos, eq_ℤ, is_positive, Bool-cases, inl,
  inr,
}
use flake.Xpio.Proc.{XpProc, WaitResult, child, running, interrupted, failed, exited}
use flake.Xpio.Proc.Reap.{outcome, Pids}
use flake.Xpio.Queue.Wait.Reaped.{outcome_exited}
use flake.Xpio.Children.{ProcView, reported}

pub outcome-reported :
    (ws : List WaitResult) (c : XpProc) (o : ProcView)
    → Pids ws
    → c.pid ≡ o.pid
    → c.status ≡ o.status
    → ((outcome ws c).pid ≡ (reported ws o).pid) × ((outcome ws c).status ≡ (reported ws o).status)
outcome-reported [] c o h p s = (p, s)
outcome-reported (child pid status ∷ ws) c o (positive, h) p s =
    elim (Bool-cases (eq_ℤ o.pid (pos pid))) [
      | inl same ↦
          let here : eq_ℤ c.pid (pos pid) ≡ true = ap (λ x. eq_ℤ x (pos pid)) p ∙ same in
          let done = outcome_exited ws (exited status c) h refl in
          rw (outcome, reported, here, same)
            (ap (λ (x : XpProc). x.pid) done, ap (λ (x : XpProc). x.status) done)
      | inr apart ↦
          let here : eq_ℤ c.pid (pos pid) ≡ false = ap (λ x. eq_ℤ x (pos pid)) p ∙ apart in
          rw (outcome, reported, here, apart) (outcome-reported ws c o h p s)
    ]
outcome-reported (interrupted ∷ ws) c o h p s = outcome-reported ws c o h p s
outcome-reported (running ∷ ws) c o h p s = (p, s)
outcome-reported (failed ∷ ws) c o h p s = (p, s)

-- A positive PID is the old one.
pub outcome-pid :
    (ws : List WaitResult) (c : XpProc)
    → Pids ws
    → is_positive (outcome ws c).pid ≡ true
    → (outcome ws c).pid ≡ c.pid
outcome-pid [] c w h = refl
outcome-pid (child pid status ∷ ws) c (positive, w) h = elim (Bool-cases (eq_ℤ c.pid (pos pid))) [
  | inl same ↦
      let done = outcome_exited ws (exited status c) w refl in
      absurd (ground (arith, done, same, h))
  | inr apart ↦ rw (outcome, apart) (outcome-pid ws c w (rw (outcome, is_positive, apart) at h))
]
outcome-pid (interrupted ∷ ws) c w h = outcome-pid ws c w h
outcome-pid (running ∷ ws) c w h = refl
outcome-pid (failed ∷ ws) c w h = refl
