-- ===== src/Interleaving/Listed.antt =====
-- The list of the console's plugins as a bag: which entries it has and how often, whatever their
-- order, with `nil` as the empty list.
use mathlib.Core.Quot
use mathlib.Core.Quot.{Quot}
use observability_ui_operato.Base.{
  ℕ, String, ◌+◌, ◌==◌, ◌≡◌, arith, eq_iff, List, [], ◌∷◌, ◌++◌, Slice, elements, if◌then◌else◌,
}
use observability_ui_operato.Reliable.Registered.{with_plugin}
use observability_ui_operato.Interleaving.Entries.{contains-last}

abbrev pub count : String → List String → ℕ
count a [] = 0
count a (x ∷ xs) = (if x == a then 1 else 0) + count a xs

-- Two lists have the same entries, as often.
abbrev pub SameEntries : List String → List String → Type 0
SameEntries xs ys = (a : String) → count a xs ≡ count a ys

abbrev pub Entries : Type 0
Entries = Quot SameEntries

abbrev pub listed : Slice String → Entries
listed ps = Quot.mk (elements ps)

count-last :
    (a y : String) (xs : List String)
    → count a (xs ++ y ∷ []) ≡ count a xs + (if y == a then 1 else 0)
count-last a y [] = ground arith
count-last a y (x ∷ xs) = ground (arith, count-last a y xs)

-- The order in which two plugins are registered is forgotten.
with_plugin_comm :
    (ps : Slice String) (m n : String)
    → SameEntries
        (elements (with_plugin (with_plugin ps m) n))
        (elements (with_plugin (with_plugin ps n) m))
with_plugin_comm ps m n a =
    let xs = elements ps in
    ground (
      arith,
      contains-last xs m n,
      contains-last xs n m,
      eq_iff m n,
      eq_iff n m,
      count-last a m xs,
      count-last a n xs,
      count-last a n (xs ++ m ∷ []),
      count-last a m (xs ++ n ∷ []),
    )

pub listed_comm :
    (ps : Slice String) (m n : String)
    → listed (with_plugin (with_plugin ps m) n) ≡ listed (with_plugin (with_plugin ps n) m)
listed_comm ps m n = Quot.sound (with_plugin_comm ps m n)
