-- ===== src/Xpio/Children/Found.antt =====
-- luau/xpio_c.c: the process objects that the abstract view names.
use flake.Common.{
  ℕ, ◌≡◌, ap, true, List, [], ◌∷◌, arith, some, none, ◌==◌, All, Bool-cases, inl, inr,
}
use flake.Xpio.Proc.{XpProc, Procs}
use flake.Xpio.Proc.Chain.{mem}
use flake.Xpio.Children.{ProcView, objects, Held}

-- An object of the list is there.
pub object-found :
    (ps : Procs) (a : ℕ) (os : List ProcView)
    → All (Held ps) os
    → mem a (objects os) ≡ true
    → (c : XpProc) × (ps.cells a ≡ some c)
object-found ps a [] h m = absurd (ground arith)
object-found ps a (o ∷ os) ((c, there, p, s), h) m = elim (Bool-cases (a == o.object)) [
  | inl hit ↦ (c, ground arith)
  | inr miss ↦ object-found ps a os h (ground arith)
]

-- A cell has one content.
pub same_cell : {c d : XpProc} → some c ≡ some d → c ≡ d
same_cell {c} e = ap (λ o. elim o [ none ↦ c | some x ↦ x ]) e
