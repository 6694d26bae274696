-- ===== src/Api/Heap.antt =====
-- A heap of cells, for the slices and maps that a value refers to, and what a deep copy is.
use observability_ui_operato.Base.{
  ℕ, ◌≤◌, ◌≡◌, refl, ap, arith, Option, none, some, List, [], ◌∷◌, ◌++◌, length,
}
use Prim.Native.Nat.{zero, suc}

abbrev pub at : {X : Type 0} → List X → ℕ → Option X
at [] a = none
at (x ∷ xs) zero = some x
at (x ∷ xs) (suc a) = at xs a

module _ {X : Type 0} where
  -- The second heap has all that the first one has.
  pub record Extends (h g : List X) : Type 0 where
    pub longer : length h ≤ length g
    pub keeps : (a : ℕ) (c : X) → at h a ≡ some c → at g a ≡ some c

  -- The second heap has all that the first one has from an address on.
  abbrev pub Agrees : ℕ → List X → List X → Type 0
  Agrees n h g = (a : ℕ) (c : X) → n ≤ a → at h a ≡ some c → at g a ≡ some c

  pub Extends-refl : (h : List X) → Extends h h
  Extends-refl h = record { longer = omega arith; keeps = λ a c e. e }

  pub Extends-trans : {h g k : List X} → Extends h g → Extends g k → Extends h k
  Extends-trans p q = record {
    longer = omega (arith, p.longer, q.longer);
    keeps = λ a c e. q.keeps a c (p.keeps a c e);
  }

  at-append : (h e : List X) (a : ℕ) (c : X) → at h a ≡ some c → at (h ++ e) a ≡ some c
  at-append [] e a c p = cc p
  at-append (x ∷ h) e zero c p = p
  at-append (x ∷ h) e (suc a) c p = at-append h e a c p

  pub at-last : (h : List X) (c : X) → at (h ++ c ∷ []) (length h) ≡ some c
  at-last [] c = refl
  at-last (x ∷ h) c = at-last h c

  length-last : (h : List X) (c : X) → length (h ++ c ∷ []) ≡ suc (length h)
  length-last [] c = refl
  length-last (x ∷ h) c = ap suc (length-last h c)

  pub Extends-last : (h : List X) (c : X) → Extends h (h ++ c ∷ [])
  Extends-last h c = record {
    longer = omega (arith, length-last h c);
    keeps = λ a d e. at-append h (c ∷ []) a d e;
  }

  -- A value of type `A` in a heap shows a value of type `V`. A deep copy extends the heap, and the
  -- copy shows what the original shows, in every heap that has the cells that the copy added:
  -- whatever happens to the cells that were there before.
  pub record IsDeepCopy {A V : Type 0} (Shows : List X → A → V → Type 0)
      (copy : A → List X → A × List X) : Type 0 where
    pub stays : (h g : List X) (x : A) (v : V) → Extends h g → Shows h x v → Shows g x v
    pub extends : (x : A) (h : List X) → Extends h (copy x h).1
    pub apart :
        (x : A) (h : List X) (v : V) (g : List X)
        → Shows h x v
        → Agrees (length h) (copy x h).1 g
        → Shows g (copy x h).0 v

  -- The elements of a list, one after the other.
  module _ {A : Type 0} (copy : A → List X → A × List X) where
    abbrev pub copy_all : List A → List X → List A × List X
    copy_all [] h = ([], h)
    copy_all (x ∷ xs) h = let (y, g) = copy x h in let (ys, k) = copy_all xs g in (y ∷ ys, k)

  module _ {A V : Type 0} (Shows : List X → A → V → Type 0) where
    abbrev pub AllShow : List X → List A → List V → Type 0
    AllShow h [] [] = Unit
    AllShow h [] (v ∷ vs) = ⊥
    AllShow h (x ∷ xs) [] = ⊥
    AllShow h (x ∷ xs) (v ∷ vs) = Shows h x v × AllShow h xs vs

    module _ (copy : A → List X → A × List X) (D : IsDeepCopy Shows copy) where
      all_stay :
          (h g : List X) (xs : List A) (vs : List V)
          → Extends h g
          → AllShow h xs vs
          → AllShow g xs vs
      all_stay h g [] [] e s = s
      all_stay h g [] (v ∷ vs) e s = absurd s
      all_stay h g (x ∷ xs) [] e s = absurd s
      all_stay h g (x ∷ xs) (v ∷ vs) e (s, ss) = (D.stays h g x v e s, all_stay h g xs vs e ss)

      all_extend : (xs : List A) (h : List X) → Extends h (copy_all copy xs h).1
      all_extend [] h = Extends-refl h
      all_extend (x ∷ xs) h = Extends-trans (D.extends x h) (all_extend xs (copy x h).1)

      all_apart :
          (xs : List A) (h : List X) (vs : List V) (g : List X)
          → AllShow h xs vs
          → Agrees (length h) (copy_all copy xs h).1 g
          → AllShow g (copy_all copy xs h).0 vs
      all_apart [] h [] g s e = s
      all_apart [] h (v ∷ vs) g s e = absurd s
      all_apart (x ∷ xs) h [] g s e = absurd s
      all_apart (x ∷ xs) h (v ∷ vs) g (s, ss) e =
          let p = D.extends x h in
          let q = all_extend xs (copy x h).1 in
          (
            D.apart x h v g s (λ a c le found. e a c le (q.keeps a c found)),
            all_apart xs (copy x h).1 vs g (all_stay h _ xs vs p ss)
                (λ a c le found. e a c (omega (arith, p.longer, le)) found),
          )

      pub copy_all-IsDeepCopy : IsDeepCopy AllShow (copy_all copy)
      copy_all-IsDeepCopy = record { stays = all_stay; extends = all_extend; apart = all_apart }

  -- One part after another.
  module _ {A B : Type 0} (copyA : A → List X → A × List X) (copyB : B → List X → B × List X) where
    abbrev pub copy_both : A × B → List X → (A × B) × List X
    copy_both (x, y) h = let (x', g) = copyA x h in let (y', k) = copyB y g in ((x', y'), k)

  module _ {A B V W : Type 0} (ShowsA : List X → A → V → Type 0)
      (ShowsB : List X → B → W → Type 0) where
    abbrev pub BothShow : List X → A × B → V × W → Type 0
    BothShow h (x, y) (v, w) = ShowsA h x v × ShowsB h y w

    pub copy_both-IsDeepCopy :
        (copyA : A → List X → A × List X) (copyB : B → List X → B × List X)
        → IsDeepCopy ShowsA copyA
        → IsDeepCopy ShowsB copyB
        → IsDeepCopy BothShow (copy_both copyA copyB)
    copy_both-IsDeepCopy copyA copyB D E = record {
      stays = λ h g (x, y) (v, w) e (s, t). (D.stays h g x v e s, E.stays h g y w e t);
      extends = λ (x, y) h. Extends-trans (D.extends x h) (E.extends y (copyA x h).1);
      apart = λ (x, y) h (v, w) g (s, t) e.
          let p = D.extends x h in
          let q = E.extends y (copyA x h).1 in
          (
            D.apart x h v g s (λ a c le found. e a c le (q.keeps a c found)),
            E.apart y (copyA x h).1 w g (E.stays h _ y w p t)
                (λ a c le found. e a c (omega (arith, p.longer, le)) found),
          );
    }
