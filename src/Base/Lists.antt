-- ===== src/Base/Lists.antt =====
-- Slices of the program: a list, or `nil` where the program tells the two apart.
use Prim.Native.Nat.{ℕ, suc}
use Prim.Native.String.{String}
use mathlib.Core.Path.{◌≡◌, refl}
use mathlib.Core.Bool.{Bool, false, ◌||◌}
use mathlib.Core.Option
use mathlib.Core.Option.{Option, none, some}
use native.Mathlib.Omega.{arith}
use mathlib.Core.List.{List, [], ◌∷◌, ◌++◌}
use text.Mathlib.Text.{◌==◌}
use observability_ui_operato.Base.Tests.{if◌then◌else◌}

-- A slice whose `nil` matters.
abbrev pub Slice {ℓ} : Type ℓ → Type ℓ
Slice A = Option (List A)

module _ {ℓ} {A : Type ℓ} where
  abbrev pub length : List A → ℕ
  length [] = 0
  length (_ ∷ xs) = suc (length xs)

  -- What a `range` over the slice sees.
  abbrev pub elements : Slice A → List A
  elements none = []
  elements (some xs) = xs

  -- `append(s, x)`
  abbrev pub append : Slice A → A → Slice A
  append s x = some (elements s ++ x ∷ [])

-- `slices.Contains`
unfoldable pub contains : List String → String → Bool
contains [] s = false
contains (x ∷ xs) s = x == s || contains xs s

-- `slices.Index`, with `none` for -1.
unfoldable pub index_of : List String → String → Option ℕ
index_of [] s = none
index_of (x ∷ xs) s = if x == s then some 0 else Option.map suc (index_of xs s)

-- `slices.Index` finds nothing where `slices.Contains` says no.
pub index_of-contains :
    (xs : List String) (s : String) → contains xs s ≡ false → index_of xs s ≡ none
unfolding contains index_of
index_of-contains [] s h = refl
index_of-contains (x ∷ xs) s h = ground (arith, index_of-contains xs s)
