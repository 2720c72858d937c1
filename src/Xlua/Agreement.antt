-- ===== src/Xlua/Agreement.antt =====
-- luau/xlua.h: the relation between a state and the types of its userdata holds through every history.
use flake.Common.{
  ℕ, ◌≤◌, ◌<◌, ◌≡◌, refl, ◌∙◌, sym, ap, Option, none, some, String, arith, ◌==◌, ==_iff,
  if◌then◌else◌, Bool-cases, inl, inr,
}
use flake.Xlua.{Field, Store, set_field, create_table, new_mt, new_object, full, get_metatable}
use flake.Xlua.Typed.{
  Types, no_types, with_type, initial, History, start, sets, creates, makes_type, makes_object,
  makes_plain, makes_foreign, named, type_of, Agrees,
}

module _ (size_of : ℕ → ℕ) where
  initial-Agrees :
      (next : ℕ) (fields : ℕ → String → Option Field)
      → Agrees size_of (initial next fields) no_types
  unfolding type_of get_metatable
  initial-Agrees next fields = record {
    registry_new = λ t h. refl;
    udatas_new = λ u h. refl;
    metatable_old = λ u mt h. ground arith;
    types_eq = λ u. refl;
    sizes = λ u tptr h. ground arith;
  }

  -- A change that leaves the registry and the userdata.
  kept :
      (s t : Store) (types : Types)
      → t.registry ≡ s.registry
      → t.udatas ≡ s.udatas
      → s.next ≤ t.next
      → Agrees size_of s types
      → Agrees size_of t types
  unfolding type_of get_metatable
  kept s t types same_registry same_udatas grows a = record {
    registry_new = λ m h. rw same_registry (a.registry_new m (omega arith));
    udatas_new = λ u h. rw same_udatas (a.udatas_new u (omega arith));
    metatable_old =
        λ u mt h. let old : mt < s.next = a.metatable_old u mt (rw same_udatas at h) in omega arith;
    types_eq = λ u. rw (same_registry, same_udatas) (a.types_eq u);
    sizes = λ u tptr h. rw same_udatas (a.sizes u tptr h);
  }

  set_field-Agrees :
      (s : Store) (types : Types) (t : ℕ) (name : String) (v : Field)
      → Agrees size_of s types
      → Agrees size_of (set_field s t name v) types
  unfolding set_field
  set_field-Agrees s types t name v a =
      kept s (set_field s t name v) types refl refl (omega arith) a

  create_table-Agrees :
      (s : Store) (types : Types) → Agrees size_of s types → Agrees size_of (create_table s) types
  unfolding create_table
  create_table-Agrees s types a = kept s (create_table s) types refl refl (omega arith) a

  new_mt-type :
      (s : Store) (types : Types) (tptr : ℕ) (m : Option ℕ)
      → ((mt : ℕ) → m ≡ some mt → mt < s.next)
      → named (new_mt s tptr).registry m ≡ named s.registry m
  unfolding new_mt create_table set_field
  new_mt-type s types tptr none old = refl
  new_mt-type s types tptr (some mt) old = let older : mt < s.next = old mt refl in ground arith

  get_metatable-new_mt :
      (s : Store) (tptr u : ℕ) → get_metatable (new_mt s tptr) (full u) ≡ get_metatable s (full u)
  unfolding new_mt create_table set_field get_metatable
  get_metatable-new_mt s tptr u = refl

  new_mt-Agrees :
      (s : Store) (types : Types) (tptr : ℕ)
      → Agrees size_of s types
      → Agrees size_of (new_mt s tptr) types
  unfolding new_mt create_table set_field type_of
  new_mt-Agrees s types tptr a = record {
    registry_new = λ t h. ground (arith, a.registry_new t (omega arith));
    udatas_new = λ u h. a.udatas_new u (omega arith);
    metatable_old = λ u mt h.
        let old : mt < s.next = a.metatable_old u mt (sym (get_metatable-new_mt s tptr u) ∙ h) in
        omega arith;
    types_eq = λ u.
        ap (named (new_mt s tptr).registry) (get_metatable-new_mt s tptr u)
        ∙ new_mt-type s types tptr (get_metatable s (full u)) (a.metatable_old u)
        ∙ a.types_eq u;
    sizes = a.sizes;
  }

  get_metatable-new_object :
      (s : Store) (mt : Option ℕ) (size u : ℕ)
      → get_metatable (new_object s mt size) (full u)
        ≡ (if u == s.next then mt else get_metatable s (full u))
  unfolding new_object get_metatable
  get_metatable-new_object s mt size u = ground arith

  new_object-type :
      (s : Store) (types : Types) (mt : Option ℕ) (size u : ℕ)
      → Agrees size_of s types
      → type_of (new_object s mt size) u ≡ (if u == s.next then named s.registry mt else types u)
  unfolding type_of new_object get_metatable
  new_object-type s types mt size u a =
      ap (named s.registry) (get_metatable-new_object s mt size u)
      ∙ elim (Bool-cases (u == s.next)) [ inl e ↦ rw e refl | inr e ↦ rw e (a.types_eq u) ]

  new_object_old :
      (s : Store) (types : Types) (mt : Option ℕ) (size u m : ℕ)
      → Agrees size_of s types
      → ((m : ℕ) → mt ≡ some m → m < s.next)
      → get_metatable (new_object s mt size) (full u) ≡ some m
      → m < (new_object s mt size).next
  unfolding new_object
  new_object_old s types mt size u m a old h =
      let found : (if u == s.next then mt else get_metatable s (full u)) ≡ some m =
        sym (get_metatable-new_object s mt size u) ∙ h in
      elim (Bool-cases (u == s.next)) [
        | inl e ↦ let older : m < s.next = old m (rw e at found) in omega arith
        | inr e ↦ let older : m < s.next = a.metatable_old u m (rw e at found) in omega arith
      ]

  makes_object-Agrees :
      (s : Store) (types : Types) (mt tptr : ℕ)
      → s.registry mt ≡ some tptr
      → Agrees size_of s types
      → Agrees size_of (new_object s (some mt) (size_of tptr)) (with_type types s.next tptr)
  unfolding new_object
  makes_object-Agrees s types mt tptr typed a =
      let made : Store = new_object s (some mt) (size_of tptr) in
      record {
        registry_new = λ t h. a.registry_new t (omega arith);
        udatas_new = λ u h. ground (arith, a.udatas_new u (omega arith));
        metatable_old = λ u m h.
            new_object_old s types (some mt) (size_of tptr) u m a
              (λ n e. ground (arith, a.registry_new mt)) h;
        types_eq = λ u.
            new_object-type s types (some mt) (size_of tptr) u a
            ∙ ap (λ x. if u == s.next then x else types u) typed;
        sizes = λ u t h. elim (Bool-cases (u == s.next)) [
          | inl e ↦ (
            record { metatable = some mt; size = size_of tptr },
            rw e refl,
            ground (arith, rw e at h),
          )
          | inr e ↦ let (d, found, fits) = a.sizes u t (rw e at h) in (d, rw e found, fits)
        ];
      }

  -- A userdata without a type of ours.
  types_new : (s : Store) (types : Types) → Agrees size_of s types → types s.next ≡ none
  unfolding type_of get_metatable
  types_new s types a =
      sym (a.types_eq s.next) ∙ rw (a.udatas_new s.next (omega arith), type_of, get_metatable) refl

  makes_other-Agrees :
      (s : Store) (types : Types) (mt : Option ℕ) (size : ℕ)
      → ((m : ℕ) → mt ≡ some m → m < s.next)
      → named s.registry mt ≡ none
      → Agrees size_of s types
      → Agrees size_of (new_object s mt size) types
  unfolding new_object
  makes_other-Agrees s types mt size old untyped a = record {
    registry_new = λ t h. a.registry_new t (omega arith);
    udatas_new = λ u h. ground (arith, a.udatas_new u (omega arith));
    metatable_old = λ u m h. new_object_old s types mt size u m a old h;
    types_eq = λ u. new_object-type s types mt size u a ∙ elim (Bool-cases (u == s.next)) [
      | inl e ↦ rw e (untyped ∙ sym (types_new s types a) ∙ ap types (sym ((==_iff u s.next).0 e)))
      | inr e ↦ rw e refl
    ];
    sizes = λ u t h. elim (Bool-cases (u == s.next)) [
      | inl e ↦ absurd (ground (arith, types_new s types a, ap types ((==_iff u s.next).0 e)))
      | inr e ↦ let (d, found, fits) = a.sizes u t h in (d, rw e found, fits)
    ];
  }

  -- The relation holds through every history.
  pub History-Agrees :
      (s : Store) (types : Types) → History size_of s types → Agrees size_of s types
  History-Agrees _ _ (start next fields) = initial-Agrees next fields
  History-Agrees _ _ (sets s types t name v h) =
      set_field-Agrees s types t name v (History-Agrees s types h)
  History-Agrees _ _ (creates s types h) = create_table-Agrees s types (History-Agrees s types h)
  History-Agrees _ _ (makes_type s types tptr h) =
      new_mt-Agrees s types tptr (History-Agrees s types h)
  History-Agrees _ _ (makes_object s types mt tptr typed h) =
      makes_object-Agrees s types mt tptr typed (History-Agrees s types h)
  History-Agrees _ _ (makes_plain s types size h) =
      makes_other-Agrees s types none size (λ m e. ground arith) refl (History-Agrees s types h)
  History-Agrees _ _ (makes_foreign s types mt size old untyped h) =
      makes_other-Agrees s types (some mt) size (λ m e. ground arith) untyped
        (History-Agrees s types h)
