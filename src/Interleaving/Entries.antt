-- ===== src/Interleaving/Entries.antt =====
-- What becomes of the entries of a list of plugins when one is appended or removed.
use Prim.Native.Nat.{zero, suc}
use observability_ui_operato.Base.{
  ℕ, String, ◌==◌, eq_iff, ◌≡◌, ◌≢◌, refl, arith, Option-cases, inl, inr, true, false, some, none,
  List, [], ◌∷◌, ◌++◌, contains, index_of, ◌||◌,
}
use observability_ui_operato.Patches.Laws.{remove_at}

-- No entry stands in the list twice.
abbrev pub NoDuplicates : List String → Type 0
NoDuplicates [] = Unit
NoDuplicates (x ∷ xs) = (contains xs x ≡ false) × NoDuplicates xs

pub contains-last :
    (xs : List String) (y x : String) → contains (xs ++ y ∷ []) x ≡ (contains xs x || y == x)
unfolding contains
contains-last [] y x = ground arith
contains-last (z ∷ xs) y x = ground (arith, contains-last xs y x)

pub contains-append :
    (xs : List String) (y x : String) → contains xs x ≡ true → contains (xs ++ y ∷ []) x ≡ true
contains-append xs y x h = rw (contains-last xs y x, h)

pub NoDuplicates-append :
    (xs : List String) (y : String)
    → contains xs y ≡ false
    → NoDuplicates xs
    → NoDuplicates (xs ++ y ∷ [])
unfolding contains
NoDuplicates-append [] y h d = (refl, tt)
NoDuplicates-append (x ∷ xs) y h d =
    ground (arith, contains-last xs y x, eq_iff x y, eq_iff y x, NoDuplicates-append xs y)

contains-remove_at-false :
    (xs : List String) (i : ℕ) (x : String)
    → contains xs x ≡ false
    → contains (remove_at xs i) x ≡ false
unfolding contains
contains-remove_at-false [] i x h = h
contains-remove_at-false (y ∷ xs) zero x h = ground arith
contains-remove_at-false (y ∷ xs) (suc i) x h = ground (arith, contains-remove_at-false xs i x)

pub NoDuplicates-remove_at :
    (xs : List String) (i : ℕ) → NoDuplicates xs → NoDuplicates (remove_at xs i)
NoDuplicates-remove_at [] i d = d
NoDuplicates-remove_at (x ∷ xs) zero (_, d) = d
NoDuplicates-remove_at (x ∷ xs) (suc i) (h, d) =
    (contains-remove_at-false xs i x h, NoDuplicates-remove_at xs i d)

-- The removal of an entry leaves the entries with another name.
pub contains-remove_other :
    (xs : List String) (name : String) (i : ℕ) (x : String)
    → index_of xs name ≡ some i
    → name ≢ x
    → contains xs x ≡ true
    → contains (remove_at xs i) x ≡ true
unfolding contains index_of
contains-remove_other [] name i x found other h = cc h
contains-remove_other (y ∷ xs) name zero x found other h = elim (Option-cases (index_of xs name)) [
  | inl nowhere ↦ ground (arith, nowhere, eq_iff y name, eq_iff y x)
  | inr (j, later) ↦ ground (arith, later, eq_iff y name, eq_iff y x)
]
contains-remove_other (y ∷ xs) name (suc i) x found other h =
    elim (Option-cases (index_of xs name)) [
      | inl nowhere ↦ ground (arith, nowhere)
      | inr (j, later) ↦ ground (arith, later, contains-remove_other xs name i x)
    ]

pub not_contains-of_nowhere :
    (xs : List String) (name : String) → index_of xs name ≡ none → contains xs name ≡ false
unfolding contains index_of
not_contains-of_nowhere [] name h = refl
not_contains-of_nowhere (x ∷ xs) name h = elim (Option-cases (index_of xs name)) [
  | inl nowhere ↦ ground (arith, nowhere, not_contains-of_nowhere xs name)
  | inr (i, found) ↦ ground (arith, found)
]

-- In a list without duplicates the removal of the first entry with a name leaves none with it.
pub not_contains-remove_first :
    (xs : List String) (name : String) (i : ℕ)
    → NoDuplicates xs
    → index_of xs name ≡ some i
    → contains (remove_at xs i) name ≡ false
unfolding contains index_of
not_contains-remove_first [] name i d h = refl
not_contains-remove_first (x ∷ xs) name zero (alone, d) h = elim (Option-cases (index_of xs name)) [
  | inl nowhere ↦ not_contains-of_nowhere xs name nowhere
  | inr (j, found) ↦ ground (arith, found, eq_iff x name, alone)
]
not_contains-remove_first (x ∷ xs) name (suc i) (alone, d) h =
    elim (Option-cases (index_of xs name)) [
      | inl nowhere ↦ ground (arith, nowhere)
      | inr (j, found) ↦ ground (arith, found, not_contains-remove_first xs name i d, eq_iff x name)
    ]
