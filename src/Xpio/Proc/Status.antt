-- ===== src/Xpio/Proc/Status.antt =====
-- luau/xpio_c.c: what `xpproc_try_wait` says of a child.
use flake.Common.{
  ℕ, ◌+◌, ◌*◌, ◌<◌, ◌≡◌, Bool, true, false, List, [], ◌∷◌, arith, pos, is_positive, if◌then◌else◌,
}
use flake.Lua.{LuaValue, nil, integer, string}
use flake.Xpio.Proc.{XpProc, proc_try_wait}

-- How a child ended: by `exit`, or by a signal, with or without a core dump.
pub data Ending : Type 0 where
  exits : (code : ℕ) → Ending
  killed : (sig : ℕ) → (core : Bool) → Ending

-- The status in which Linux encodes it.
unfoldable pub encode : Ending → ℕ
encode (exits code) = code * 256
encode (killed sig core) = sig + (if core then 128 else 0)

abbrev pub IsEnding : Ending → Type 0
IsEnding (exits code) = code < 256
IsEnding (killed sig core) = (0 < sig) × (sig < 127)

abbrev pub reply : Ending → List LuaValue
reply (exits code) = string "exit" ∷ integer (pos code) ∷ []
reply (killed sig core) = string "signal" ∷ integer (pos 0) ∷ []

-- `xpproc_try_wait` says "retry" while the PID is positive. After that it gives the exit code of a
-- child that exited; of a child that a signal killed it says "signal", with 0 for every signal.
pub proc_try_wait-encode :
    (c : XpProc) (e : Ending)
    → IsEnding e
    → c.status ≡ encode e
    → proc_try_wait c ≡ (if is_positive c.pid then nil ∷ string "retry" ∷ [] else reply e)
unfolding proc_try_wait encode
proc_try_wait-encode c (exits code) h e = ground arith
proc_try_wait-encode c (killed sig true) h e = ground arith
proc_try_wait-encode c (killed sig false) h e = ground arith
