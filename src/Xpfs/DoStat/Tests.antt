-- ===== src/Xpfs/DoStat/Tests.antt =====
-- Tests of `do_stat`, and the theorem at a concrete input: the file 0644 of 12 bytes.
use flake.Common.{◌≡◌, refl, none, some, [], ◌∷◌, ℤ, pos}
use flake.Lua.{number}
use flake.Xpfs.DoStat.{Info, kind, fails, nil_and, set_fields, mask_loop, do_stat, stat}

abbrev double : ℤ → ℤ
double n = n

abbrev file : Info
file = record {
  mode = 33188;
  size = pos 12;
  mtime = pos 100;
  atime = pos 90;
  ctime = pos 200;
  ino = 7;
  dev = 1;
  uid = 0;
  gid = 0;
}

directory : kind 16877 ≡ "d"
unfolding kind
directory = refl

link : kind 41471 ≡ "l"
unfolding kind
link = refl

missing :
    stat double (fails "No such file or directory") (fails "No such file or directory") none
    ≡ nil_and "No such file or directory"
unfolding stat do_stat
missing = refl

-- The mask "ts" gives the later of the two times.
later_time : mask_loop double file (b't' ∷ b's' ∷ []) (λ n. none) "time" ≡ some (number (pos 200))
unfolding mask_loop set_fields
later_time = refl

not_asked : mask_loop double file (b't' ∷ b's' ∷ []) (λ n. none) "kind" ≡ none
unfolding mask_loop set_fields
not_asked = refl
