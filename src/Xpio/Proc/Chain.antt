-- ===== src/Xpio/Proc/Chain.antt =====
-- luau/xpio_c.c: the list of process objects that starts at `gpHeadProc`.
use flake.Common.{
  ℕ, ◌≡◌, ◌≢◌, Bool, true, false, ◌||◌, ◌&&◌, none, some, List, [], ◌∷◌, arith, ◌==◌, if◌then◌else◌,
  ℤ, eq_ℤ, is_positive,
}
use flake.Xpio.Proc.{XpProc, Cells, exited}

-- From `p` the `next` pointers run through the objects at `objs` and end at NULL.
abbrev pub Chain : Cells → ℕ → List ℕ → Type 0
Chain cells p [] = p ≡ 0
Chain cells p (a ∷ objs) =
    (p ≡ a) × (a ≢ 0) × (c : XpProc) × (cells a ≡ some c) × Chain cells c.next objs

abbrev pub mem : ℕ → List ℕ → Bool
mem b [] = false
mem b (a ∷ objs) = b == a || mem b objs

-- No two objects of the list have one process: a child keeps its PID until it is waited for.
abbrev pub Distinct : Cells → List ℕ → Type 0
Distinct cells objs =
    (a b : ℕ) (c d : XpProc)
    → mem a objs ≡ true
    → mem b objs ≡ true
    → cells a ≡ some c
    → cells b ≡ some d
    → c.pid ≡ d.pid
    → is_positive c.pid ≡ true
    → a ≡ b

-- Every object of the list with this PID gets the status.
unfoldable pub marked : List ℕ → ℤ → ℕ → Cells → Cells
marked objs pid status cells b = elim (cells b) [
  | none ↦ none
  | some c ↦ some (if mem b objs && eq_ℤ c.pid pid then exited status c else c)
]

-- A change of the objects that leaves their `next` pointers leaves the list.
pub Chain-keep :
    (cells cells' : Cells) (p : ℕ) (objs : List ℕ)
    → ((a : ℕ) (c : XpProc)
        → cells a ≡ some c
        → (c' : XpProc) × (cells' a ≡ some c') × (c'.next ≡ c.next))
    → Chain cells p objs
    → Chain cells' p objs
Chain-keep cells cells' p [] keep h = h
Chain-keep cells cells' p (a ∷ objs) keep (e, ne, c, at, rest) =
    let (c', at', same) = keep a c at in
    (e, ne, c', at', rw same (Chain-keep cells cells' c.next objs keep rest))

pub Chain-marked :
    (objs bs : List ℕ) (p : ℕ) (pid : ℤ) (status : ℕ) (cells : Cells)
    → Chain cells p objs
    → Chain (marked bs pid status cells) p objs
unfolding marked
Chain-marked objs bs p pid status cells =
    Chain-keep cells (marked bs pid status cells) p objs (λ a c at.
      ((if mem a bs && eq_ℤ c.pid pid then exited status c else c), ground arith, ground arith))

pub Distinct-tail :
    (cells : Cells) (a : ℕ) (objs : List ℕ) → Distinct cells (a ∷ objs) → Distinct cells objs
Distinct-tail cells a objs h x y c d hx hy = h x y c d (ground arith) (ground arith)
