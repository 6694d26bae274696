-- ===== src/Patches/Laws.antt =====
-- What the patches of the console do to the list of its plugins, by RFC 6902.
use Prim.Native.Nat.{zero, suc}
use mathlib.Core.Option
use observability_ui_operato.Base.{
  ℕ, ◌<◌, String, ◌<>◌, ◌==◌, eq_iff, eq_refl, ◌≡◌, refl, ap, subst, arith, Bool-cases, inl, inr,
  false, none, some, List, [], ◌∷◌, ◌++◌, Slice, elements, length, contains, index_of, Option-cases,
}
use observability_ui_operato.Base.Format.{decimal}
use observability_ui_operato.Base.Format.Decimal.{value, value-decimal, after, after-append}
use observability_ui_operato.Client.{JsonPatch, text, texts}
use observability_ui_operato.Patches.{enable_patches, disable_patches}

-- The list without the element at an index.
abbrev pub remove_at : List String → ℕ → List String
remove_at [] i = []
remove_at (x ∷ xs) zero = xs
remove_at (x ∷ xs) (suc i) = x ∷ remove_at xs i

-- The patches that apply to a list of plugins, and the list that they leave: "add" replaces the list
-- at its path or appends to it at "-", and "remove" takes out the element at an index.
pub data Patches (plugins : Slice String) : Slice JsonPatch → Slice String → Type 0 where
  add_list :
      (xs : List String)
      → Patches plugins
          (some (record { op = "add"; path = "/spec/plugins"; value = some (texts xs) } ∷ []))
          (some xs)
  add_last :
      (ys : List String) (x : String)
      → plugins ≡ some ys
      → Patches plugins
          (some (record { op = "add"; path = "/spec/plugins/-"; value = some (text x) } ∷ []))
          (some (ys ++ x ∷ []))
  remove :
      (ys : List String) (i : ℕ)
      → plugins ≡ some ys
      → i < length ys
      → Patches plugins
          (some (record { op = "remove"; path = "/spec/plugins/" <> decimal i; value = none } ∷ []))
          (some (remove_at ys i))

-- The patch that enables a plugin applies to every list, and adds the plugin to its end.
pub enable_patches-Patches :
    (plugins : Slice String) (name : String)
    → Patches plugins
        (enable_patches (record { plugins = plugins }) name)
        (some (elements plugins ++ name ∷ []))
unfolding enable_patches
enable_patches-Patches none name = add_list (name ∷ [])
enable_patches-Patches (some xs) name = add_last xs name refl

-- Where a list has a name for the first time.
pub record FirstAt (xs : List String) (name : String) (i : ℕ) : Type 0 where
  pub before : List String
  pub behind : List String
  pub split : xs ≡ before ++ name ∷ behind
  pub first : contains before name ≡ false
  pub inside : i < length xs
  pub removed : remove_at xs i ≡ before ++ behind

pub index_of-FirstAt :
    (xs : List String) (name : String) (i : ℕ) → index_of xs name ≡ some i → FirstAt xs name i
unfolding index_of contains
index_of-FirstAt [] name i h = cc h
index_of-FirstAt (x ∷ xs) name i h = elim (Bool-cases (x == name)) [
  | inl same ↦
      let e : 0 ≡ i = ground (arith, rw same at h) in
      record {
        before = [];
        behind = xs;
        split = cc ((eq_iff x name).0 same);
        first = refl;
        inside = omega (arith, e);
        removed = rw (← e);
      }
  | inr other ↦ elim (Option-cases (index_of xs name)) [
    | inl nowhere ↦ ground (arith, nowhere)
    | inr (j, found) ↦
        let p = index_of-FirstAt xs name j found in
        let e : suc j ≡ i = ground (arith, other, found) in
        record {
          before = x ∷ p.before;
          behind = p.behind;
          split = ap (λ ys. x ∷ ys) p.split;
          first = rw other p.first;
          inside = omega (arith, e, p.inside);
          removed = rw (← e) (ap (λ ys. x ∷ ys) p.removed);
        }
  ]
]

-- The patch that disables a plugin, by the index at which the list has it first, applies to the list
-- and takes out that one element.
pub disable_patches-Patches :
    (xs : List String) (name : String) (i : ℕ)
    → index_of xs name ≡ some i
    → Patches (some xs) (disable_patches (record { plugins = some xs }) i) (some (remove_at xs i))
unfolding disable_patches
disable_patches-Patches xs name i h = remove xs i refl (index_of-FirstAt xs name i h).inside

pub disable_patches-apply :
    (plugins : Slice String) (name : String) (i : ℕ)
    → index_of (elements plugins) name ≡ some i
    → Patches plugins
        (disable_patches (record { plugins = plugins }) i)
        (some (remove_at (elements plugins) i))
unfolding index_of
disable_patches-apply none name i found = cc found
disable_patches-apply (some xs) name i found = disable_patches-Patches xs name i found

-- Where a plugin is found in a list at an index, the patch for that index applies to the list, so that
-- the index is within its bounds, and it takes out the first occurrence of the plugin and nothing else.
pub disable_patches_removes_first :
    (xs : List String) (name : String) (i : ℕ)
    → index_of xs name ≡ some i
    → (before : List String) × (behind : List String) × (xs ≡ before ++ name ∷ behind)
      × (contains before name ≡ false)
      × Patches
          (some xs)
          (disable_patches (record { plugins = some xs }) i)
          (some (before ++ behind))
disable_patches_removes_first xs name i h =
    let p = index_of-FirstAt xs name i h in
    (
      p.before,
      p.behind,
      p.split,
      p.first,
      subst
          (λ (ys : List String).
            Patches (some xs) (disable_patches (record { plugins = some xs }) i) (some ys))
          p.removed (disable_patches-Patches xs name i h),
    )

index_of-last :
    (xs : List String) (name : String)
    → contains xs name ≡ false
    → index_of (xs ++ name ∷ []) name ≡ some (length xs)
unfolding index_of contains
index_of-last [] name h = rw (eq_refl name)
index_of-last (x ∷ xs) name h = ground (arith, index_of-last xs name)

remove_at-last : (xs : List String) (name : String) → remove_at (xs ++ name ∷ []) (length xs) ≡ xs
remove_at-last [] name = refl
remove_at-last (x ∷ xs) name = ap (λ ys. x ∷ ys) (remove_at-last xs name)

-- Enabling a plugin that a list does not have and disabling it again restores the list: the first
-- patch leaves a list in which the plugin is found, and the patch for the index where it is found
-- leaves the list that there was.
pub enable_disable :
    (xs : List String) (name : String)
    → contains xs name ≡ false
    → Patches
        (some xs)
        (enable_patches (record { plugins = some xs }) name)
        (some (xs ++ name ∷ []))
      × (i : ℕ) × (index_of (xs ++ name ∷ []) name ≡ some i)
      × Patches
          (some (xs ++ name ∷ []))
          (disable_patches (record { plugins = some (xs ++ name ∷ []) }) i)
          (some xs)
enable_disable xs name h =
    let found = index_of-last xs name h in
    (
      enable_patches-Patches (some xs) name,
      length xs,
      found,
      subst
          (λ (ys : List String).
            Patches (some (xs ++ name ∷ []))
              (disable_patches (record { plugins = some (xs ++ name ∷ []) }) (length xs)) (some ys))
          (remove_at-last xs name)
          (disable_patches-Patches (xs ++ name ∷ []) name (length xs) found),
    )

-- The path of the patch that disables a plugin gives the index back: behind its fixed part stand the
-- digits of the index and nothing else.
pub disable_patches-path :
    (xs : List String) (i : ℕ)
    → (p : JsonPatch) × (disable_patches (record { plugins = some xs }) i ≡ some (p ∷ []))
      × (Option.map (value 0) (after "/spec/plugins/" p.path) ≡ some i)
unfolding disable_patches
disable_patches-path xs i =
    (_, refl, rw (after-append "/spec/plugins/" (decimal i), value-decimal i))
