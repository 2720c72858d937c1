-- ===== src/Xpio/Module/Objects.antt =====
-- luau/xpio_c.c: the objects that XPIO_NEWOBJECT makes have the types that XLUA_CAST asks for.
use text.Mathlib.Text.{◌==◌ as str_eq}
use flake.Common.{ℕ, ◌+◌, ◌<◌, ◌≡◌, refl, ◌∙◌, false, some, List, String, arith, ◌==◌, ==_iff}
use flake.Xlua.{
  Field, table, closure, strings, Store, set_field, create_table, register, CType, newmt,
}
use flake.Xlua.Fields.{
  fields-set_field_self, fields-set_field_ne, register-next, newmt-next, newmt-registry,
  newmt-fields_other,
}
use flake.Xpio.Module.{
  add_type, add_socket_type, luaopen_xpio_c, Linked, xpproc, xpqueue, xpsocket, xpio_regs,
}

-- `t.name` is a metatable of the type whose array lies at `regs`.
pub record Holds (s : Store) (t : ℕ) (name : String) (regs : ℕ) : Type 0 where
  pub mt : ℕ
  pub field : s.fields t name ≡ some (table mt)
  pub registered : s.registry mt ≡ some regs
  pub old : mt < s.next

add_type-Holds_self :
    (s : Store) (t : ℕ) (type : CType) (name : String)
    → Holds (add_type s t type name) t name type.regs
unfolding add_type set_field
add_type-Holds_self s t type name = record {
  mt = s.next;
  field = fields-set_field_self (newmt s type) t name (table s.next);
  registered = newmt-registry s type s.next ∙ rw ((==_iff s.next s.next).1 refl) refl;
  old = omega (arith, newmt-next s type);
}

-- A new metatable and another field leave it.
newmt-Holds :
    (s : Store) (t : ℕ) (type : CType) (name : String) (regs : ℕ)
    → t < s.next
    → Holds s t name regs
    → Holds (newmt s type) t name regs
newmt-Holds s t type name regs older h =
    let mt_old : h.mt < s.next = h.old in
    record {
      mt = h.mt;
      field = newmt-fields_other s type t name (ground arith) ∙ h.field;
      registered =
          newmt-registry s type h.mt
          ∙ (let apart : (h.mt == s.next) ≡ false = ground arith in rw apart h.registered);
      old = omega (arith, newmt-next s type);
    }

set_field-Holds :
    (s : Store) (t u : ℕ) (name : String) (regs : ℕ) (n : String) (v : Field)
    → str_eq name n ≡ false
    → Holds s t name regs
    → Holds (set_field s u n v) t name regs
unfolding set_field
set_field-Holds s t u name regs n v apart h = record {
  mt = h.mt;
  field = fields-set_field_ne s u t n name v apart ∙ h.field;
  registered = h.registered;
  old = h.old;
}

add_type-Holds :
    (s : Store) (t : ℕ) (type : CType) (added name : String) (regs : ℕ)
    → t < s.next
    → str_eq name added ≡ false
    → Holds s t name regs
    → Holds (add_type s t type added) t name regs
unfolding add_type
add_type-Holds s t type added name regs older apart h =
    set_field-Holds (newmt s type) t t name regs added (table s.next) apart
      (newmt-Holds s t type name regs older h)

add_socket_type-Holds_self :
    (s : Store) (t : ℕ) (type : CType) → Holds (add_socket_type s t type) t "_XPSocket" type.regs
unfolding add_socket_type set_field
add_socket_type-Holds_self s t type = record {
  mt = s.next;
  field =
      fields-set_field_self
        (set_field (newmt s type) s.next "try_accept" (closure "xpsocket_try_accept" (some t))) t
        "_XPSocket" (table s.next);
  registered = newmt-registry s type s.next ∙ rw ((==_iff s.next s.next).1 refl) refl;
  old = omega (arith, newmt-next s type);
}

add_socket_type-Holds :
    (s : Store) (t : ℕ) (type : CType) (name : String) (regs : ℕ)
    → t < s.next
    → str_eq name "_XPSocket" ≡ false
    → str_eq name "try_accept" ≡ false
    → Holds s t name regs
    → Holds (add_socket_type s t type) t name regs
unfolding add_socket_type
add_socket_type-Holds s t type name regs older apart apart_accept h =
    set_field-Holds
      (set_field (newmt s type) s.next "try_accept" (closure "xpsocket_try_accept" (some t))) t t
      name regs "_XPSocket" (table s.next) apart
      (set_field-Holds (newmt s type) t s.next name regs "try_accept"
        (closure "xpsocket_try_accept" (some t)) apart_accept
        (newmt-Holds s t type name regs older h))

add_type-next :
    (s : Store) (t : ℕ) (type : CType) (name : String) → (add_type s t type name).next ≡ s.next + 1
unfolding add_type set_field
add_type-next s t type name = newmt-next s type

functions_next :
    (s : Store) → (register (create_table s) s.next xpio_regs (some s.next)).next ≡ s.next + 1
unfolding create_table
functions_next s = register-next (create_table s) s.next xpio_regs (some s.next)

pub luaopen_xpio_c-Holds :
    (l : Linked) (env : List (List ℕ × List ℕ)) (s : Store)
    → Holds (luaopen_xpio_c l env s) s.next "_XPProc" l.proc_regs
      × Holds (luaopen_xpio_c l env s) s.next "_XPQueue" l.queue_regs
      × Holds (luaopen_xpio_c l env s) s.next "_XPSocket" l.socket_regs
unfolding luaopen_xpio_c
luaopen_xpio_c-Holds l env s =
    let t : ℕ = s.next in
    let functions : Store = register (create_table s) t xpio_regs (some t) in
    let procs : Store = add_type functions t (xpproc l) "_XPProc" in
    let queues : Store = add_type procs t (xpqueue l) "_XPQueue" in
    let sockets : Store = add_socket_type queues t (xpsocket l) in
    let procs_next : procs.next ≡ t + 2 =
      add_type-next functions t (xpproc l) "_XPProc" ∙ omega (arith, functions_next s) in
    let queues_next : queues.next ≡ t + 3 =
      add_type-next procs t (xpqueue l) "_XPQueue" ∙ omega (arith, procs_next) in
    (
      set_field-Holds sockets t t "_XPProc" l.proc_regs "env" (strings env) refl (
          add_socket_type-Holds queues t (xpsocket l) "_XPProc" l.proc_regs (omega arith) refl refl
            (add_type-Holds procs t (xpqueue l) "_XPQueue" "_XPProc" l.proc_regs (omega arith) refl
              (add_type-Holds_self functions t (xpproc l) "_XPProc"))),
      set_field-Holds sockets t t "_XPQueue" l.queue_regs "env" (strings env) refl (
          add_socket_type-Holds queues t (xpsocket l) "_XPQueue" l.queue_regs (omega arith) refl
            refl (add_type-Holds_self procs t (xpqueue l) "_XPQueue")),
      set_field-Holds sockets t t "_XPSocket" l.socket_regs "env" (strings env) refl
          (add_socket_type-Holds_self queues t (xpsocket l)),
    )
