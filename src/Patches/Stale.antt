-- ===== src/Patches/Stale.antt =====
-- What the patch that removes a plugin does to a list that is no longer the one that was read: it
-- names the plugin by an index alone.
use Prim.Native.Nat.{zero, suc}
use observability_ui_operato.Base.{
  ℕ, ◌<◌, String, ◌==◌, ◌≡◌, ◌≢◌, refl, arith, Bool-cases, inl, inr, true, Option-cases, some, List,
  [], ◌∷◌, length, contains, index_of,
}
use observability_ui_operato.Patches.{disable_patches}
use observability_ui_operato.Patches.Laws.{Patches, remove, remove_at}

contains-found :
    (xs : List String) (name : String) (i : ℕ) → index_of xs name ≡ some i → contains xs name ≡ true
unfolding index_of contains
contains-found [] name i h = cc h
contains-found (x ∷ xs) name i h = elim (Bool-cases (x == name)) [
  | inl same ↦ rw same
  | inr other ↦ elim (Option-cases (index_of xs name)) [
    | inl nowhere ↦ ground (arith, nowhere)
    | inr (j, found) ↦ rw other (contains-found xs name j found)
  ]
]

-- A list still has a name after the removal at an index other than that of its first occurrence.
contains-remove_at :
    (xs : List String) (name : String) (i j : ℕ)
    → index_of xs name ≡ some j
    → i ≢ j
    → contains (remove_at xs i) name ≡ true
unfolding index_of contains
contains-remove_at [] name i j h different = cc h
contains-remove_at (x ∷ xs) name zero j h different = elim (Bool-cases (x == name)) [
  | inl same ↦ absurd (different (ground (arith, same, h)))
  | inr other ↦ elim (Option-cases (index_of xs name)) [
    | inl nowhere ↦ ground (arith, nowhere, other)
    | inr (k, found) ↦ contains-found xs name k found
  ]
]
contains-remove_at (x ∷ xs) name (suc i) j h different = elim (Bool-cases (x == name)) [
  | inl same ↦ rw same
  | inr other ↦ elim (Option-cases (index_of xs name)) [
    | inl nowhere ↦ ground (arith, nowhere, other)
    | inr (k, found) ↦
        let next : j ≡ suc k = ground (arith, other, found, h) in
        rw other (contains-remove_at xs name i k found (λ e. different (omega (arith, e, next))))
  ]
]

-- Where the list of plugins has changed between the read in which a plugin was found at an index and
-- the patch, so that the plugin now stands at another index, the patch still applies if the list is
-- long enough: it takes out what stands at the old index, and the plugin is still in the list.
pub stale_index_keeps_plugin :
    (seen now : List String) (name : String) (i j : ℕ)
    → index_of seen name ≡ some i
    → index_of now name ≡ some j
    → i ≢ j
    → i < length now
    → Patches
        (some now)
        (disable_patches (record { plugins = some seen }) i)
        (some (remove_at now i))
      × (contains (remove_at now i) name ≡ true)
unfolding disable_patches
stale_index_keeps_plugin seen now name i j was is different inside =
    (remove now i refl inside, contains-remove_at now name i j is different)
