-- ===== src/Xpio/Spawn/Sample.antt =====
-- A table of descriptors that fills the interface of Xpio/Spawn.antt, for the tests.
use flake.Common.{
  ℕ, ◌≡◌, ◌≢◌, refl, Bool, true, false, Option, none, some, arith, ltb, ◌==◌, if◌then◌else◌, ℤ, pos,
  negsuc, eq_ℤ, ==_iff,
}
use flake.Xpio.Spawn.{Flags, FileApi, is_open}

-- A table as a function, which fills the interface. F_SETFL is refused for some files.
pub record Tables : Type 0 where
  pub file : ℤ → Option ℕ
  pub flags : ℕ → Flags
  pub refuses : ℕ → Bool

abbrev pub table_getfl : Tables → ℤ → Option Flags
table_getfl k fd = elim (k.file fd) [ none ↦ none | some i ↦ some (k.flags i) ]

abbrev pub table_setfl : Tables → ℤ → Flags → Tables × Bool
table_setfl k fd f = elim (k.file fd) [
  | none ↦ (k, true)
  | some i ↦
      if k.refuses i
      then (k, true)
      else (record k { flags = λ j. if i == j then f else k.flags j }, false)
]

-- The limit of descriptors is 1024.
abbrev pub in_range : ℤ → Bool
in_range (pos n) = ltb n 1024
in_range (negsuc n) = false

abbrev pub table_dup2 : Tables → (old new : ℤ) → Tables × Bool
table_dup2 k old new =
    if is_open (k.file old)
    then (if in_range new
        then (record k { file = λ g. if eq_ℤ new g then k.file old else k.file g }, false)
        else (k, true))
    else (k, true)

pub file-table_dup2 :
    (k : Tables) (old new g : ℤ)
    → (table_dup2 k old new).1 ≡ false
    → (table_dup2 k old new).0.file g ≡ (if eq_ℤ new g then k.file old else k.file g)
file-table_dup2 k old new g h = ground arith

pub flags-table_dup2 :
    (k : Tables) (old new : ℤ) (i : ℕ) → (table_dup2 k old new).0.flags i ≡ k.flags i
flags-table_dup2 k old new i = ground arith

pub file-table_setfl :
    (k : Tables) (fd g : ℤ) (f : Flags) → (table_setfl k fd f).0.file g ≡ k.file g
file-table_setfl k fd g f = ground arith

pub flags-table_setfl_self :
    (k : Tables) (fd : ℤ) (f : Flags) (i : ℕ)
    → k.file fd ≡ some i
    → (table_setfl k fd f).1 ≡ false
    → ((table_setfl k fd f).0.flags i).nonblock ≡ f.nonblock
flags-table_setfl_self k fd f i e done = ground (arith, (==_iff i i).1)

pub flags-table_setfl_ne :
    (k : Tables) (fd : ℤ) (f : Flags) (i j : ℕ)
    → k.file fd ≡ some i
    → i ≢ j
    → (table_setfl k fd f).0.flags j ≡ k.flags j
flags-table_setfl_ne k fd f i j e ne = ground (arith, (==_iff i j).0)

pub flags-table_setfl_fails :
    (k : Tables) (fd : ℤ) (f : Flags) (i : ℕ)
    → (table_setfl k fd f).1 ≡ true
    → (table_setfl k fd f).0.flags i ≡ k.flags i
flags-table_setfl_fails k fd f i h = ground arith

abbrev pub tables : FileApi
tables = record {
  Kernel = Tables;
  file = λ k. k.file;
  flags = λ k. k.flags;
  dup2 = table_dup2;
  close = λ k fd. record k { file = λ g. if eq_ℤ fd g then none else k.file g };
  getfl = table_getfl;
  setfl = table_setfl;
  file-dup2 = file-table_dup2;
  flags-dup2 = flags-table_dup2;
  file-close = λ k fd g. refl;
  flags-close = λ k fd i. refl;
  getfl-file = λ k fd. refl;
  file-setfl = file-table_setfl;
  flags-setfl_self = flags-table_setfl_self;
  flags-setfl_ne = flags-table_setfl_ne;
  flags-setfl_fails = flags-table_setfl_fails;
}

-- The descriptors 0, 5, 6 and 8 are open, all in non-blocking mode, in which the last stays.
abbrev pub four_open : Tables
four_open = record {
  file = λ fd. elim fd [
    | pos n ↦
        if n == 0
        then some 10
        else if n == 5
        then some 11
        else if n == 6
        then some 12
        else if n == 8
        then some 13
        else none
    | _ ↦ none
  ];
  flags = λ i. record { nonblock = true; others = 2 };
  refuses = λ i. i == 13;
}
