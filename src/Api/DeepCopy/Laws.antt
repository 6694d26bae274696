-- ===== src/Api/DeepCopy/Laws.antt =====
-- What is documented of the copies of the library, and the copy of a slice or map: a deep copy if the
-- copy of its elements is one.
use observability_ui_operato.Base.{
  ℕ, ◌≡◌, refl, Option, Option-cases, inl, inr, none, some, List, [], ◌∷◌, ◌++◌, length, Slice,
}
use observability_ui_operato.Api.{Condition}
use observability_ui_operato.Api.Heap.{
  at, at-last, Extends, Extends-refl, Extends-trans, Extends-last, IsDeepCopy, copy_all, AllShow,
  Agrees, copy_all-IsDeepCopy,
}
use observability_ui_operato.Api.DeepCopy.{Cell, Library, Heap, copy_value, copy_slice}

-- What is documented of the library's copies: they are deep copies.
pub record CopiesDeeply (L : Library) : Type 1 where
  pub MetaView : Type 0
  pub ListView : Type 0
  pub ShowsMeta : Heap L → L.Meta → MetaView → Type 0
  pub ShowsListMeta : Heap L → L.ListMeta → ListView → Type 0
  pub meta : IsDeepCopy ShowsMeta L.copy_meta
  pub list_meta : IsDeepCopy ShowsListMeta L.copy_list_meta
  pub condition : IsDeepCopy (λ h (x y : Condition). x ≡ y) L.copy_condition

module _ (L : Library) where
  pub copy_value-IsDeepCopy :
      {A : Type 0} → IsDeepCopy (λ (h : Heap L) (x y : A). x ≡ y) (copy_value L)
  copy_value-IsDeepCopy = record {
    stays = λ h g x v e s. s;
    extends = λ x h. Extends-refl h;
    apart = λ x h v g s e. s;
  }

  module _ {A V : Type 0} (elements_of : Cell L.Meta L.Other → Option (List A))
      (Shows : Heap L → A → V → Type 0) where
    abbrev pub SliceShows : Heap L → Option ℕ → Slice V → Type 0
    SliceShows h none none = Unit
    SliceShows h none (some vs) = ⊥
    SliceShows h (some a) none = ⊥
    SliceShows h (some a) (some vs) =
        (c : Cell L.Meta L.Other) × (xs : List A) × (at h a ≡ some c)
        × (elements_of c ≡ some xs)
        × AllShow Shows h xs vs

    module _ (cell : List A → Cell L.Meta L.Other) (copy : A → Heap L → A × Heap L)
        (of_cell : (xs : List A) → elements_of (cell xs) ≡ some xs)
        (D : IsDeepCopy Shows copy) where
      slice_stays :
          (h g : Heap L) (p : Option ℕ) (v : Slice V)
          → Extends h g
          → SliceShows h p v
          → SliceShows g p v
      slice_stays h g none none e s = s
      slice_stays h g none (some vs) e s = absurd s
      slice_stays h g (some a) none e s = absurd s
      slice_stays h g (some a) (some vs) e (c, xs, here, elements, s) = (
        c,
        xs,
        e.keeps a c here,
        elements,
        (copy_all-IsDeepCopy Shows copy D).stays h g xs vs e s,
      )

      copied :
          (xs : List A) (h : Heap L)
          → Extends h ((copy_all copy xs h).1 ++ cell (copy_all copy xs h).0 ∷ [])
      copied xs h =
          Extends-trans ((copy_all-IsDeepCopy Shows copy D).extends xs h)
            (Extends-last (copy_all copy xs h).1 (cell (copy_all copy xs h).0))

      slice-Extends :
          (p : Option ℕ) (h : Heap L) → Extends h (copy_slice L elements_of cell copy p h).1
      slice-Extends none h = Extends-refl h
      slice-Extends (some a) h = elim (Option-cases (at h a)) [
        | inl dangling ↦ rw (copy_slice, dangling) (Extends-refl h)
        | inr (c, here) ↦ elim (Option-cases (elements_of c)) [
          | inl foreign ↦ rw (copy_slice, here, foreign) (Extends-refl h)
          | inr (xs, elements) ↦ rw (copy_slice, here, elements) (copied xs h)
        ]
      ]

      copy_slice_lem :
          (a : ℕ) (h : Heap L) (c : Cell L.Meta L.Other) (xs : List A)
          → at h a ≡ some c
          → elements_of c ≡ some xs
          → copy_slice L elements_of cell copy (some a) h ≡ (
            some (length (copy_all copy xs h).1),
            (copy_all copy xs h).1 ++ cell (copy_all copy xs h).0 ∷ [],
          )
      copy_slice_lem a h c xs here elements = rw (copy_slice, here, elements) refl

      slice_apart :
          (p : Option ℕ) (h : Heap L) (v : Slice V) (g : Heap L)
          → SliceShows h p v
          → Agrees (length h) (copy_slice L elements_of cell copy p h).1 g
          → SliceShows g (copy_slice L elements_of cell copy p h).0 v
      slice_apart none h none g s e = s
      slice_apart none h (some vs) g s e = absurd s
      slice_apart (some a) h none g s e = absurd s
      slice_apart (some a) h (some vs) g (c, xs, here, elements, s) e =
          let ys = (copy_all copy xs h).0 in
          let k = (copy_all copy xs h).1 in
          let A = copy_all-IsDeepCopy Shows copy D in
          let longer = (A.extends xs h).longer in
          let done = copy_slice_lem a h c xs here elements in
          let e' : Agrees (length h) (k ++ cell ys ∷ []) g = rw done at e in
          rw done (
            cell ys,
            ys,
            e' (length k) (cell ys) longer (at-last k (cell ys)),
            of_cell ys,
            A.apart xs h vs g s
                (λ a c le found. e' a c le ((Extends-last k (cell ys)).keeps a c found)),
          )

      pub copy_slice-IsDeepCopy : IsDeepCopy SliceShows (copy_slice L elements_of cell copy)
      copy_slice-IsDeepCopy = record {
        stays = slice_stays;
        extends = slice-Extends;
        apart = slice_apart;
      }
