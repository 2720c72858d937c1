-- ===== src/Xpio/Proc/Walk.antt =====
-- luau/xpio_c.c: the loop of `xpproc_reap` over the list finds the object of a child.
use mathlib.Core.Path.{fun_ext}
use flake.Common.{
  ℕ, zero, suc, ◌<◌, ◌≡◌, ◌∙◌, Bool, true, false, some, List, [], ◌∷◌, arith, ℤ, eq_ℤ, eq_ℤ_iff,
  is_positive, length, Bool-cases, Option-cases, inl, inr,
}
use flake.Xpio.Proc.{XpProc, Cells, update, exited, mark_exited}
use flake.Xpio.Proc.Chain.{Chain, Distinct, marked, Distinct-tail}

marked_nil : (pid : ℤ) (status : ℕ) (cells : Cells) → marked [] pid status cells ≡ cells
unfolding marked
marked_nil pid status cells = fun_ext (λ b. ground arith)

marked_miss :
    (a : ℕ) (objs : List ℕ) (pid : ℤ) (status : ℕ) (cells : Cells) (c : XpProc)
    → cells a ≡ some c
    → eq_ℤ c.pid pid ≡ false
    → marked (a ∷ objs) pid status cells ≡ marked objs pid status cells
unfolding marked
marked_miss a objs pid status cells c at ne = fun_ext (λ b. ground arith)

marked_hit :
    (a : ℕ) (objs : List ℕ) (pid : ℤ) (status : ℕ) (cells : Cells) (c : XpProc)
    → Distinct cells (a ∷ objs)
    → is_positive pid ≡ true
    → cells a ≡ some c
    → eq_ℤ c.pid pid ≡ true
    → update cells a (exited status c) ≡ marked (a ∷ objs) pid status cells
unfolding marked update
marked_hit a objs pid status cells c dist posi at e = fun_ext (λ b. elim (Option-cases (cells b)) [
  | inl gone ↦ ground arith
  | inr (d, there) ↦ ground (arith, eq_ℤ_iff c.pid pid, eq_ℤ_iff d.pid pid, dist b a d c)
])

pub mark_exited-marked :
    (fuel p : ℕ) (pid : ℤ) (status : ℕ) (cells : Cells) (objs : List ℕ)
    → Chain cells p objs
    → Distinct cells objs
    → is_positive pid ≡ true
    → length objs < fuel
    → (found : Bool) × (mark_exited fuel p pid status cells
        ≡ some (marked objs pid status cells, found))
      × (found ≡ false → marked objs pid status cells ≡ cells)
unfolding mark_exited
mark_exited-marked zero p pid status cells objs h dist posi lt = elim lt [ ]
mark_exited-marked (suc fuel) p pid status cells [] h dist posi lt =
    (false, ground (arith, marked_nil pid status cells), λ _. marked_nil pid status cells)
mark_exited-marked (suc fuel) p pid status cells (a ∷ objs) (pa, ne, c, at, rest) dist posi lt =
    elim (Bool-cases (eq_ℤ c.pid pid)) [
      | inl e ↦ (true, ground (arith, marked_hit a objs pid status cells c dist posi at e), λ f. cc)
      | inr e ↦
          let (found, ih, same) =
            mark_exited-marked fuel c.next pid status cells objs rest
              (Distinct-tail cells a objs dist) posi (omega arith) in
          (
            found,
            ground (arith, marked_miss a objs pid status cells c at e),
            λ f. marked_miss a objs pid status cells c at e ∙ same f,
          )
    ]
