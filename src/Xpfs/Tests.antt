-- ===== src/Xpfs/Tests.antt =====
-- Tests of luau/xpfs.c's modes, and the theorems at concrete inputs.
use flake.Common.{◌≡◌, refl, true, false, [], ◌∷◌, none, some, arith, get_elem?}
use flake.Lua.{nil, string}
use flake.Xpfs.{clear_user, change_bit, change, changes, chmod_mode, fails, chmod, perm}
use flake.Xpfs.Perm.{perm-has_bit}
use flake.Xpfs.Chmod.{view, view-chmod_mode}

-- 0644 with "+x", and 0755 with "r"
plus-chmod_mode : chmod_mode 420 (b'+' ∷ b'x' ∷ []) ≡ 484
unfolding chmod_mode clear_user changes change change_bit
plus-chmod_mode = refl

plain-chmod_mode : chmod_mode 493 (b'r' ∷ []) ≡ 301
unfolding chmod_mode clear_user changes change change_bit
plain-chmod_mode = refl

missing-chmod :
    chmod (fails "No such file or directory") (λ m. none) []
    ≡ nil ∷ string "No such file or directory" ∷ []
unfolding chmod
missing-chmod = refl

view-chmod_mode_example :
    view (chmod_mode 420 (b'-' ∷ b'w' ∷ []))
    ≡ record { r = true; w = false; x = false; low = 36; high = 0 }
view-chmod_mode_example = view-chmod_mode 420 (b'-' ∷ b'w' ∷ [])

perm-has_bit_example : get_elem? (perm 420) 1 ≡ some b'w'
perm-has_bit_example = perm-has_bit 420 1 (omega arith)
