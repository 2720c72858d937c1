-- ===== src/Xpio/Children/Spawned.antt =====
-- luau/xpio_c.c, `xpio__spawn`: the parent puts the child at the front of the list.
use flake.Common.{
  ℕ, ◌≡◌, ◌≢◌, refl, ◌∙◌, ap, sym, subst, true, false, ◌&&◌, List, [], ◌∷◌, arith, some, ◌==◌, All,
  Bool-cases, inl, inr, ℤ, eq_ℤ, eq_ℤ_iff, is_positive, if◌then◌else◌,
}
use flake.Xpio.Proc.{XpProc, Procs, proc_new, update}
use flake.Xpio.Proc.Chain.{mem, Distinct}
use flake.Xpio.Proc.Unlink.{Chain-agree}
use flake.Xpio.Spawn.{spawn_parent}
use flake.Xpio.Children.{ProcView, objects, Held, Implements, Allowed, spawns, apply}
use flake.Xpio.Children.Found.{same_cell}

spawn_parent-cells :
    (fresh b : ℕ) (pid : ℤ) (ps : Procs)
    → (spawn_parent fresh pid ps).cells b
      ≡ (if b == fresh then some (record { next = ps.head; pid = pid; status = 0 }) else ps.cells b)
unfolding spawn_parent proc_new update
spawn_parent-cells fresh b pid ps = ground arith

spawn_parent-head : (fresh : ℕ) (pid : ℤ) (ps : Procs) → (spawn_parent fresh pid ps).head ≡ fresh
unfolding spawn_parent proc_new
spawn_parent-head fresh pid ps = refl

spawn_parent-Held :
    (fresh : ℕ) (pid : ℤ) (ps : Procs) (os : List ProcView)
    → mem fresh (objects os) ≡ false
    → All (Held ps) os
    → All (Held (spawn_parent fresh pid ps)) os
spawn_parent-Held fresh pid ps [] new h = tt
spawn_parent-Held fresh pid ps (o ∷ os) new ((c, there, p, s), h) = (
  (c, spawn_parent-cells fresh o.object pid ps ∙ ground arith, p, s),
  spawn_parent-Held fresh pid ps os (ground arith) h,
)

-- The PID of a running child is not free.
taken :
    (ps : Procs) (pid : ℤ) (b : ℕ) (d : XpProc) (os : List ProcView)
    → All (λ o. (is_positive pid && eq_ℤ o.pid pid) ≡ false) os
    → All (Held ps) os
    → mem b (objects os) ≡ true
    → ps.cells b ≡ some d
    → is_positive pid ≡ true
    → d.pid ≢ pid
taken ps pid b d [] free h m there p e = absurd (ground arith)
taken ps pid b d (o ∷ os) (f, free) ((c, here, same, s), h) m there p e =
    elim (Bool-cases (b == o.object)) [
      | inl hit ↦
          let at : ps.cells b ≡ some c = ground arith in
          let cell = same_cell (sym there ∙ at) in
          let pid_is : o.pid ≡ pid = sym same ∙ sym (ap (λ (x : XpProc). x.pid) cell) ∙ e in
          let equal = (eq_ℤ_iff o.pid pid).1 pid_is in absurd (ground (arith, equal, f, p))
      | inr miss ↦ taken ps pid b d os free h (ground arith) there p e
    ]

spawn_parent-Distinct :
    (fresh : ℕ) (pid : ℤ) (ps : Procs) (os : List ProcView)
    → Implements ps os
    → Allowed (spawns fresh pid) os
    → Distinct (spawn_parent fresh pid ps).cells (fresh ∷ objects os)
spawn_parent-Distinct fresh pid ps os i (ne, new, free) a b c d ma mb ca cb e p =
    let cell_a = sym (spawn_parent-cells fresh a pid ps) ∙ ca in
    let cell_b = sym (spawn_parent-cells fresh b pid ps) ∙ cb in
    elim (Bool-cases (a == fresh)) [
      | inl at ↦ elim (Bool-cases (b == fresh)) [
        | inl bt ↦ ground arith
        | inr bf ↦
            let cp : pid ≡ c.pid = ap (λ (x : XpProc). x.pid) (same_cell (rw at at cell_a)) in
            absurd (
              taken ps pid b d os free i.held (ground arith) (rw bf at cell_b)
                (subst (λ x. is_positive x ≡ true) (sym cp) p) (sym e ∙ sym cp))
      ]
      | inr af ↦ elim (Bool-cases (b == fresh)) [
        | inl bt ↦
            let dp : pid ≡ d.pid = ap (λ (x : XpProc). x.pid) (same_cell (rw bt at cell_b)) in
            absurd (
              taken ps pid a c os free i.held (ground arith) (rw af at cell_a)
                (subst (λ x. is_positive x ≡ true) (e ∙ sym dp) p) (e ∙ sym dp))
        | inr bf ↦
            i.distinct a b c d (ground arith) (ground arith) (rw af at cell_a) (rw bf at cell_b) e p
      ]
    ]

pub spawn_parent-Implements :
    (fresh : ℕ) (pid : ℤ) (ps : Procs) (os : List ProcView)
    → Implements ps os
    → Allowed (spawns fresh pid) os
    → Implements (spawn_parent fresh pid ps) (apply (spawns fresh pid) os)
spawn_parent-Implements fresh pid ps os i (ne, new, free) =
    let first : XpProc = record { next = ps.head; pid = pid; status = 0 } in
    let here : (spawn_parent fresh pid ps).cells fresh ≡ some first =
      spawn_parent-cells fresh fresh pid ps ∙ ground arith in
    record {
      list = record {
        chain = (
          spawn_parent-head fresh pid ps,
          ne,
          first,
          here,
          Chain-agree ps.cells _ ps.head (objects os)
              (λ b m. spawn_parent-cells fresh b pid ps ∙ ground arith) i.list.chain,
        );
        nodup = (new, i.list.nodup);
      };
      held = ((first, here, refl, refl), spawn_parent-Held fresh pid ps os new i.held);
      distinct = spawn_parent-Distinct fresh pid ps os i (ne, new, free);
    }
