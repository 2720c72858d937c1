-- ===== src/Xpio/Module/Casts.antt =====
-- luau/xpio_c.c: a new object passes XLUA_CAST for its own type and for no other.
use flake.Common.{
  ℕ, ◌≡◌, refl, ◌∙◌, ap, Option, none, some, List, String, arith, ◌==◌, if◌then◌else◌, subst,
  Bool-cases, inl, inr,
}
use flake.Lua.{ok, raised}
use flake.Xlua.{
  table, closure, strings, Store, set_field, create_table, register, new_object, full, CType, newmt,
  cast, check_udata, checked, to_userdata, get_metatable, typename,
}
use flake.Xlua.Typed.{Types, with_type, History, sets, creates, makes_object}
use flake.Xlua.Cast.{register-History, newmt-History}
use flake.Xpio.Module.{
  add_type, add_socket_type, luaopen_xpio_c, xpio_new_object, Linked, xpproc, xpqueue, xpsocket,
  xpio_regs, Kind, proc_kind, queue_kind, socket_kind, type_for, mt_name,
}
use flake.Xpio.Module.Objects.{Holds, luaopen_xpio_c-Holds}

pub luaopen_xpio_c-mt :
    (l : Linked) (env : List (List ℕ × List ℕ)) (s : Store) (k : Kind)
    → Holds (luaopen_xpio_c l env s) s.next (mt_name k) (type_for l k).regs
luaopen_xpio_c-mt l env s proc_kind = (luaopen_xpio_c-Holds l env s).0
luaopen_xpio_c-mt l env s queue_kind = (luaopen_xpio_c-Holds l env s).1
luaopen_xpio_c-mt l env s socket_kind = (luaopen_xpio_c-Holds l env s).2

-- Opening the library makes types only.
module _ (size_of : ℕ → ℕ) (types : Types) where
  add_type-History :
      (s : Store) (t : ℕ) (type : CType) (name : String)
      → History size_of s types
      → History size_of (add_type s t type name) types
  unfolding add_type
  add_type-History s t type name h =
      sets (newmt s type) types t name (table s.next) (newmt-History size_of s types type h)

  add_socket_type-History :
      (s : Store) (t : ℕ) (type : CType)
      → History size_of s types
      → History size_of (add_socket_type s t type) types
  unfolding add_socket_type
  add_socket_type-History s t type h =
      let accept = closure "xpsocket_try_accept" (some t) in
      sets (set_field (newmt s type) s.next "try_accept" accept) types t "_XPSocket" (table s.next)
        (sets (newmt s type) types s.next "try_accept" accept
          (newmt-History size_of s types type h))

  pub luaopen_xpio_c-History :
      (l : Linked) (env : List (List ℕ × List ℕ)) (s : Store)
      → History size_of s types
      → History size_of (luaopen_xpio_c l env s) types
  unfolding luaopen_xpio_c
  luaopen_xpio_c-History l env s h =
      let t : ℕ = s.next in
      let functions : Store = register (create_table s) t xpio_regs (some t) in
      let procs : Store = add_type functions t (xpproc l) "_XPProc" in
      let queues : Store = add_type procs t (xpqueue l) "_XPQueue" in
      sets (add_socket_type queues t (xpsocket l)) types t "env" (strings env) (
        add_socket_type-History queues t (xpsocket l) (
          add_type-History procs t (xpqueue l) "_XPQueue" (
            add_type-History functions t (xpproc l) "_XPProc" (
              register-History size_of (create_table s) types t xpio_regs (some t)
                (creates s types h)))))

-- An object gets the metatable that the table of the library holds.
pub xpio_new_object-History :
    (size_of : ℕ → ℕ) (types : Types) (s : Store) (t : ℕ) (type : CType) (name : String)
    → size_of type.regs ≡ type.size
    → Holds s t name type.regs
    → History size_of s types
    → History size_of (xpio_new_object s t type name) (with_type types s.next type.regs)
unfolding xpio_new_object
xpio_new_object-History size_of types s t type name fits held h = rw held.field (
    subst
      (λ size.
        History size_of (new_object s (some held.mt) size) (with_type types s.next type.regs))
      fits (makes_object s types held.mt type.regs held.registered h))

checked-new_object :
    (s : Store) (mt size tptr regs : ℕ)
    → s.registry mt ≡ some tptr
    → checked (new_object s (some mt) size) (full s.next) regs
      ≡ (if tptr == regs then some s.next else none)
unfolding checked to_userdata get_metatable new_object
checked-new_object s mt size tptr regs typed = ground (arith, typed)

-- After the library has been opened, XPIO_NEWOBJECT makes an object that XLUA_CAST accepts for its own
-- type only: the arrays of the types lie at different addresses.
pub cast-xpio_new_object :
    (argerror : ℕ → String → String) (expected : String → String → String) (l : Linked)
    (env : List (List ℕ × List ℕ)) (s : Store) (narg : ℕ) (made asked : Kind)
    → let opened = luaopen_xpio_c l env s in
      cast argerror expected
        (xpio_new_object opened s.next (type_for l made) (mt_name made))
        narg
        (full opened.next)
        (type_for l asked)
      ≡ (if (type_for l made).regs == (type_for l asked).regs
          then ok opened.next
          else raised (argerror narg (expected (type_for l asked).name "userdata")))
unfolding cast check_udata xpio_new_object typename
cast-xpio_new_object argerror expected l env s narg made asked =
    let opened = luaopen_xpio_c l env s in
    let held = luaopen_xpio_c-mt l env s made in
    rw held.field (
      ap
        (λ (found : Option ℕ). elim found [
          | some me ↦ ok me
          | none ↦ raised (argerror narg (expected (type_for l asked).name "userdata"))
        ])
        (checked-new_object opened held.mt (type_for l made).size (type_for l made).regs
          (type_for l asked).regs held.registered)
      ∙ elim (Bool-cases ((type_for l made).regs == (type_for l asked).regs)) [
        | inl e ↦ rw e refl
        | inr e ↦ rw e refl
      ])
