-- ===== src/Xpio/Socket/Retry.antt =====
-- luau/xpio_c.c: which calls on sockets say that they are to be tried again.
use flake.Common.{
  ℕ, suc, ◌≡◌, ◌≢◌, refl, Bool, true, false, some, List, [], ◌∷◌, String, arith, if◌then◌else◌, ◌↔◌,
  Bool-cases, inl, inr,
}
use flake.Lua.{LuaValue, nil, boolean, string}
use flake.Xpio.Address.{SockAddr, addr_from_string}
use flake.Xpio.Socket.{
  Errno, is_retry, Call, done, fails, push_error, retry_or_null, try_read, try_write, try_connect,
  connected, again, would_block, intr, in_progress, already, is_conn, other,
}

abbrev pub retry : List LuaValue
retry = nil ∷ string "retry" ∷ []

-- The call failed, and `isRetry` says so of its error.
abbrev pub is_retried : {A : Type 0} → Call A → Bool
is_retried (done a) = false
is_retried (fails errno) = is_retry errno

module _ (strerror : Errno → String) (distinct : (e : Errno) → strerror e ≢ "retry") where
  string-inj : (s : String) → ◌≡◌ {A = List LuaValue} (nil ∷ string s ∷ []) retry → s ≡ "retry"
  string-inj s e = cc

  push_error-retry :
      (e : Errno) → (push_error strerror (retry_or_null e) e ≡ retry) ↔ (is_retry e ≡ true)
  unfolding push_error retry_or_null
  push_error-retry e = elim (Bool-cases (is_retry e)) [
    | inl r ↦ (λ h. r, λ h. rw (r, retry_or_null, push_error) refl)
    | inr n ↦ (
      λ h. absurd (distinct e (string-inj (strerror e) (rw (n, retry_or_null, push_error) at h))),
      λ h. absurd (ground arith),
    )
  ]

  try_read-retry :
      (size : ℕ) (read : Call (List ℕ))
      → (try_read strerror (suc size) read ≡ retry) ↔ (is_retried read ≡ true)
  unfolding try_read
  try_read-retry size (done []) = (λ h. cc, λ h. cc)
  try_read-retry size (done (b ∷ bs)) = (λ h. cc, λ h. cc)
  try_read-retry size (fails e) = push_error-retry e

  try_write-retry :
      (write : Call ℕ) → (try_write strerror write ≡ retry) ↔ (is_retried write ≡ true)
  unfolding try_write
  try_write-retry (done n) = (λ h. cc, λ h. cc)
  try_write-retry (fails e) = push_error-retry e

  connect-retry :
      (c : Call (Unit {0}))
      → (◌≡◌ {A = List LuaValue}
          (elim c [
            | done _ ↦ boolean true ∷ []
            | fails e ↦
                if connected e then boolean true ∷ [] else push_error strerror (retry_or_null e) e
          ])
          retry)
        ↔ (is_retried c ≡ true)
  unfolding is_retry
  connect-retry (done u) = (λ h. cc, λ h. cc)
  connect-retry (fails is_conn) = (λ h. cc, λ h. cc)
  connect-retry (fails again) = push_error-retry again
  connect-retry (fails would_block) = push_error-retry would_block
  connect-retry (fails intr) = push_error-retry intr
  connect-retry (fails in_progress) = push_error-retry in_progress
  connect-retry (fails already) = push_error-retry already
  connect-retry (fails (other n)) = push_error-retry (other n)

  -- `try_read`, `try_write` and `try_connect` reply nil, "retry" exactly where their system call is made
  -- and fails with an error that `isRetry` names, if no text of `strerror` is "retry".
  pub retry_iff :
      (size : ℕ) (read : Call (List ℕ)) (write : Call ℕ) (connect : SockAddr → Call (Unit {0}))
      (addr : List ℕ) (sin : SockAddr)
      → addr_from_string addr ≡ some sin
      → ((try_read strerror (suc size) read ≡ retry) ↔ (is_retried read ≡ true))
        × ((try_write strerror write ≡ retry) ↔ (is_retried write ≡ true))
        × ((try_connect strerror connect addr ≡ retry) ↔ (is_retried (connect sin) ≡ true))
  unfolding try_read try_write try_connect
  retry_iff size read write connect addr sin parsed = (
    try_read-retry size read,
    try_write-retry write,
    rw (parsed, try_connect) (connect-retry (connect sin)),
  )
