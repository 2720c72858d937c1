-- ===== src/Xpfs/Perm.antt =====
-- luau/xpfs.c: the field `perm` that `do_stat` gives.
use flake.Common.{ℕ, zero, suc, ◌-◌, ◌%◌, ◌^◌, ◌<◌, ◌≡◌, some, arith, if◌then◌else◌, get_elem?}
use flake.Xpfs.{has_bit, perm_groups, perm}

-- The letter at a position of a group.
abbrev pub letter : ℕ → ℕ
letter zero = b'r'
letter (suc zero) = b'w'
letter _ = b'x'

-- The character at position `i` of the nine is the letter r, w or x in turn where the bit 8 - i of the
-- mode is set, and else a dash.
pub perm-has_bit :
    (m i : ℕ)
    → i < 9
    → get_elem? (perm m) i ≡ some (if has_bit m (2 ^ (8 - i)) then letter (i % 3) else b'-')
unfolding perm perm_groups
perm-has_bit m zero h = ground arith
perm-has_bit m (suc zero) h = ground arith
perm-has_bit m (suc (suc zero)) h = ground arith
perm-has_bit m (suc (suc (suc zero))) h = ground arith
perm-has_bit m (suc (suc (suc (suc zero)))) h = ground arith
perm-has_bit m (suc (suc (suc (suc (suc zero))))) h = ground arith
perm-has_bit m (suc (suc (suc (suc (suc (suc zero)))))) h = ground arith
perm-has_bit m (suc (suc (suc (suc (suc (suc (suc zero))))))) h = ground arith
perm-has_bit m (suc (suc (suc (suc (suc (suc (suc (suc zero)))))))) h = ground arith
perm-has_bit m (suc (suc (suc (suc (suc (suc (suc (suc (suc i))))))))) h = absurd (omega arith)
