-- ===== src/Xlua/Fields.antt =====
-- luau/xlua.h: what `xlua_register` leaves in a table.
use text.Mathlib.Text.{◌==◌ as str_eq}
use text.Mathlib.TextEquality.{eq_iff}
use flake.Common.{
  ℕ, ◌≡◌, refl, ◌∙◌, false, Option, none, some, List, [], ◌∷◌, String, ◌==◌, ==_iff, if◌then◌else◌,
  Bool-cases, Option-cases, inl, inr, subst, sym, ap, ◌+◌,
}
use flake.Xlua.{
  Reg, Field, closure, table, Store, set_field, create_table, register, new_mt, CType, newmt,
}

-- The function of the last entry with the name.
unfoldable pub last_func : List Reg → String → Option String
last_func [] name = none
last_func (preg ∷ regs) name = elim (last_func regs name) [
  | some func ↦ some func
  | none ↦ if str_eq name preg.name then some preg.func else none
]

pub fields-set_field_self :
    (s : Store) (t : ℕ) (name : String) (v : Field) → (set_field s t name v).fields t name ≡ some v
unfolding set_field
fields-set_field_self s t name v = rw ((==_iff t t).1 refl, (eq_iff name name).1 refl) refl

pub fields-set_field_ne :
    (s : Store) (t u : ℕ) (name n : String) (v : Field)
    → str_eq n name ≡ false
    → (set_field s t name v).fields u n ≡ s.fields u n
unfolding set_field
fields-set_field_ne s t u name n v ne = elim (Bool-cases (u == t)) [
  | inl e ↦ rw (e, ne) refl
  | inr e ↦ rw e refl
]

pub fields-set_field_other :
    (s : Store) (t u : ℕ) (name n : String) (v : Field)
    → (u == t) ≡ false
    → (set_field s t name v).fields u n ≡ s.fields u n
unfolding set_field
fields-set_field_other s t u name n v ne = rw ne refl

pub register-fields :
    (s : Store) (t : ℕ) (regs : List Reg) (up : Option ℕ) (n : String)
    → (register s t regs up).fields t n
      ≡ elim (last_func regs n) [ some func ↦ some (closure func up) | none ↦ s.fields t n ]
unfolding register last_func
register-fields s t [] up n = refl
register-fields s t (preg ∷ regs) up n =
    let stored : Store = set_field s t preg.name (closure preg.func up) in
    register-fields stored t regs up n ∙ elim (Option-cases (last_func regs n)) [
      | inr (func, later) ↦ rw later refl
      | inl none_later ↦ elim (Bool-cases (str_eq n preg.name)) [
        | inl same ↦
            let new : stored.fields t n ≡ some (closure preg.func up) =
              subst (λ m. stored.fields t m ≡ some (closure preg.func up))
                (sym ((eq_iff n preg.name).0 same))
                (fields-set_field_self s t preg.name (closure preg.func up)) in
            rw none_later (rw new (rw same refl))
        | inr apart ↦
            let old : stored.fields t n ≡ s.fields t n =
              fields-set_field_ne s t t preg.name n (closure preg.func up) apart in
            rw none_later (rw old (rw apart refl))
      ]
    ]

-- `xlua_register` leaves all else.
pub register-fields_other :
    (s : Store) (t u : ℕ) (regs : List Reg) (up : Option ℕ) (n : String)
    → (u == t) ≡ false
    → (register s t regs up).fields u n ≡ s.fields u n
unfolding register
register-fields_other s t u [] up n ne = refl
register-fields_other s t u (preg ∷ regs) up n ne =
    register-fields_other (set_field s t preg.name (closure preg.func up)) t u regs up n ne
    ∙ fields-set_field_other s t u preg.name n (closure preg.func up) ne

pub register-next :
    (s : Store) (t : ℕ) (regs : List Reg) (up : Option ℕ) → (register s t regs up).next ≡ s.next
unfolding register set_field
register-next s t [] up = refl
register-next s t (preg ∷ regs) up =
    register-next (set_field s t preg.name (closure preg.func up)) t regs up

pub register-registry :
    (s : Store) (t : ℕ) (regs : List Reg) (up : Option ℕ)
    → (register s t regs up).registry ≡ s.registry
unfolding register set_field
register-registry s t [] up = refl
register-registry s t (preg ∷ regs) up =
    register-registry (set_field s t preg.name (closure preg.func up)) t regs up

-- What XLUA_NEWMT leaves.
pub newmt-next : (s : Store) (type : CType) → (newmt s type).next ≡ s.next + 1
unfolding newmt new_mt create_table set_field
newmt-next s type = register-next (new_mt s type.regs) s.next type.functions none

pub newmt-registry :
    (s : Store) (type : CType) (m : ℕ)
    → (newmt s type).registry m ≡ (if m == s.next then some type.regs else s.registry m)
unfolding newmt new_mt create_table set_field
newmt-registry s type m =
    ap (λ (r : ℕ → Option ℕ). r m)
      (register-registry (new_mt s type.regs) s.next type.functions none)

pub newmt-fields_other :
    (s : Store) (type : CType) (u : ℕ) (n : String)
    → (u == s.next) ≡ false
    → (newmt s type).fields u n ≡ s.fields u n
unfolding newmt new_mt create_table set_field
newmt-fields_other s type u n ne =
    register-fields_other (new_mt s type.regs) s.next u type.functions none n ne ∙ rw ne refl

new_mt-fields :
    (s : Store) (tptr : ℕ) (n : String)
    → (new_mt s tptr).fields s.next n ≡ (if str_eq n "__index" then some (table s.next) else none)
unfolding new_mt create_table set_field
new_mt-fields s tptr n = rw ((==_iff s.next s.next).1 refl) refl

pub newmt-fields :
    (s : Store) (type : CType) (n : String)
    → (newmt s type).fields s.next n ≡ elim (last_func type.functions n) [
      | some func ↦ some (closure func none)
      | none ↦ if str_eq n "__index" then some (table s.next) else none
    ]
unfolding newmt
newmt-fields s type n =
    register-fields (new_mt s type.regs) s.next type.functions none n
    ∙ ap
        (λ (old : Option Field). elim (last_func type.functions n) [
          | some func ↦ some (closure func none)
          | none ↦ old
        ])
        (new_mt-fields s type.regs n)
