-- ===== src/Xpio/Methods/Init.antt =====
-- luau/xpio_c.c: what `xpproc_init` sets up.
use flake.Common.{◌≡◌, refl, Bool, true, false, Option, ℤ, Bool-cases, Option-cases, inl, inr, ◌⊎◌}
use flake.Xpio.Spawn.{FileApi, get_non_blocking}
use flake.Xpio.Socket.Open.{set_non_blocking-on}
use flake.Xpio.Methods.{SigChild, proc_init, get_sig_pipe}

module _ (F : FileApi) where
  open F use {Kernel}

  -- The first call prints an error, and the handler is installed no more than before; or it installs the
  -- handler, and the pipe that `xpproc_getSigPipe` gives is in non-blocking mode. Further calls, which
  -- find `initialized` set, change nothing.
  pub proc_init-proc_init :
      (pipe : Kernel → Option (Kernel × ℤ × ℤ)) (sigaction_fails : Bool) (g : SigChild) (k : Kernel)
      (pipe' : Kernel → Option (Kernel × ℤ × ℤ)) (refuses' : Bool) (k' : Kernel)
      → g.initialized ≡ false
      → let first = proc_init F pipe sigaction_fails g k in
        (((first.prints ≡ true) × (first.globals.handler ≡ g.handler))
          ⊎ ((first.globals.handler ≡ true)
              × (get_non_blocking F first.kernel (get_sig_pipe first.globals) ≡ (true, false))))
        × (proc_init F pipe' refuses' first.globals k'
            ≡ record { globals = first.globals; kernel = k'; prints = false })
  unfolding proc_init get_sig_pipe
  proc_init-proc_init pipe sigaction_fails g k pipe' refuses' k' fresh =
      elim (Option-cases (pipe k)) [
        | inl no_pipe ↦ rw (fresh, proc_init) (rw no_pipe (inl (refl, refl), refl))
        | inr ((k1, a, b), made) ↦ elim (set_non_blocking-on F k1 a) [
          | inl failed ↦ rw (fresh, proc_init) (rw made (rw failed (inl (refl, refl), refl)))
          | inr (set, on) ↦ elim (Bool-cases sigaction_fails) [
            | inl refused ↦
                rw (fresh, proc_init) (rw made (rw set (rw refused (inl (refl, refl), refl))))
            | inr installed ↦
                rw (fresh, proc_init) (rw made (rw set (rw installed (inr (refl, on), refl))))
          ]
        ]
      ]
