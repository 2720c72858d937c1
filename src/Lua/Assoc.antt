-- ===== src/Lua/Assoc.antt =====
-- A list of pairs as a table: it shows that the interface of Lua/Table.antt can be filled, and the
-- tests run on it. It models no code.
use flake.Common.{
  ℕ, ◌≡◌, refl, ◌∙◌, false, Option, none, some, [], ◌∷◌, arith, if◌then◌else◌, Bool-cases, inl, inr,
}
use flake.Lua.Table.{Key, key_eq, key_eq_iff, Entries, find, DistinctKeys, TableApi}

abbrev remove : Key → Entries → Entries
remove k [] = []
remove k ((j, t) ∷ es) = let rest = remove k es in if key_eq j k then rest else (j, t) ∷ rest

abbrev write : Entries → Key → Option ℕ → Entries
write es k none = remove k es
write es k (some t) = (k, t) ∷ es

-- A later pair with the same key does not count.
abbrev first_pairs : Entries → Entries
first_pairs [] = []
first_pairs ((k, t) ∷ es) = (k, t) ∷ remove k (first_pairs es)

find-remove_self : (k : Key) (es : Entries) → find k (remove k es) ≡ none
find-remove_self k [] = refl
find-remove_self k ((j, t) ∷ es) = ground (arith, find-remove_self k es)

find-remove_ne : (k j : Key) (es : Entries) → key_eq k j ≡ false → find j (remove k es) ≡ find j es
find-remove_ne k j [] h = refl
find-remove_ne k j ((i, t) ∷ es) h =
    ground (arith, find-remove_ne k j es, (key_eq_iff i k).0, (key_eq_iff i j).0)

pub write_self : (es : Entries) (k : Key) (v : Option ℕ) → find k (write es k v) ≡ v
write_self es k none = find-remove_self k es
write_self es k (some t) = ground (arith, (key_eq_iff k k).1)

pub write_ne :
    (es : Entries) (k j : Key) (v : Option ℕ)
    → key_eq k j ≡ false
    → find j (write es k v) ≡ find j es
write_ne es k j none h = find-remove_ne k j es h
write_ne es k j (some t) h = ground arith

pub find-first_pairs : (es : Entries) (k : Key) → find k (first_pairs es) ≡ find k es
find-first_pairs [] k = refl
find-first_pairs ((j, t) ∷ es) k = elim (Bool-cases (key_eq j k)) [
  | inl e ↦ ground arith
  | inr e ↦ ground (arith, find-remove_ne j k (first_pairs es), find-first_pairs es k)
]

remove-DistinctKeys : (k : Key) (es : Entries) → DistinctKeys es → DistinctKeys (remove k es)
remove-DistinctKeys k [] d = tt
remove-DistinctKeys k ((j, t) ∷ es) (new, d) = elim (Bool-cases (key_eq j k)) [
  | inl e ↦ rw e (remove-DistinctKeys k es d)
  | inr e ↦ rw e (
    find-remove_ne k j es (ground (arith, (key_eq_iff k j).0, (key_eq_iff j j).1)) ∙ new,
    remove-DistinctKeys k es d,
  )
]

pub first_pairs-DistinctKeys : (es : Entries) → DistinctKeys (first_pairs es)
first_pairs-DistinctKeys [] = tt
first_pairs-DistinctKeys ((k, t) ∷ es) = (
  find-remove_self k (first_pairs es),
  remove-DistinctKeys k (first_pairs es) (first_pairs-DistinctKeys es),
)

abbrev pub assoc : TableApi
assoc = record {
  Table = Entries;
  empty = [];
  get = λ t k. find k t;
  put = write;
  entries = first_pairs;
  get-empty = λ k. refl;
  get-put_self = write_self;
  get-put_ne = write_ne;
  find-entries = find-first_pairs;
  entries_distinct = first_pairs-DistinctKeys;
}
