-- ===== src/Reliable/Ensures.antt =====
-- What it takes for a sub-reconciler to leave its resource in place in a reliable cluster.
use observability_ui_operato.Base.{◌≡◌, ◌≢◌, refl, arith, inl, inr, some, none, Option-cases}
use observability_ui_operato.Attempt.{ok}
use observability_ui_operato.Api.{NamespacedName}
use observability_ui_operato.Api.Objects.{Kind, Object, kind_of, meta_of, with_meta}
use observability_ui_operato.Subreconciler.{SubResult, continue_reconciling}
use observability_ui_operato.Client.{Client, Owner}
use observability_ui_operato.Reliable.{IsReliable, key_of}

module _ (C : Client) (R : IsReliable C) where
  -- What a sub-reconciler for a resource leaves alone.
  pub record Step (s t : C.State) : Type 0 where
    pub obs_uis : R.obs_uis t ≡ R.obs_uis s
    pub plugins : R.plugins t ≡ R.plugins s
    pub console : R.console t ≡ R.console s
    pub objects : (k : Kind) (n : NamespacedName) → R.objects s k n ≢ none → R.objects t k n ≢ none

  -- It goes on, and leaves an object of the kind in place; if there was one, it leaves all as it is.
  pub record Ensures (k : Kind) (n : NamespacedName) (s : C.State) (r : SubResult × C.State)
      : Type 0 where
    pub continues : r.0 ≡ continue_reconciling
    pub step : Step s r.1
    pub present : R.objects r.1 k n ≢ none
    pub settled : R.objects s k n ≢ none → r.1 ≡ s

  Ensures-of_present :
      (k : Kind) (n : NamespacedName) (s : C.State)
      → R.objects s k n ≢ none
      → Ensures k n s (continue_reconciling, s)
  Ensures-of_present k n s h = record {
    continues = refl;
    step = record { obs_uis = refl; plugins = refl; console = refl; objects = λ k n p. p };
    present = h;
    settled = λ _. refl;
  }

  Ensures-of_create :
      (x : Object) (s : C.State)
      → R.objects s (kind_of x) (key_of (meta_of x)) ≡ none
      → Ensures (kind_of x) (key_of (meta_of x)) s (continue_reconciling, (C.create x s).1)
  Ensures-of_create x s h = record {
    continues = refl;
    step = record {
      obs_uis = R.create_obs_uis s x;
      plugins = R.create_plugins s x;
      console = R.create_console s x;
      objects = R.create_objects s x;
    };
    present = λ e. cc ((R.create s x h).1);
    settled = λ there. absurd (there h);
  }

  -- The object as it is created: the template with its owner.
  abbrev pub owned_object : Owner → Object → Object
  owned_object w x = with_meta x (R.owned (w) (meta_of x))

  kind_of-owned_object : (w : Owner) (x : Object) → kind_of (owned_object w x) ≡ kind_of x
  kind_of-owned_object w x = ground arith

  key_of-owned_object :
      (w : Owner) (x : Object) → key_of (meta_of (owned_object w x)) ≡ key_of (meta_of x)
  key_of-owned_object w x = ground (arith, R.key-owned (w) (meta_of x))

  owned_absent :
      (w : Owner) (x : Object) (s : C.State)
      → R.objects s (kind_of x) (key_of (meta_of x)) ≡ none
      → R.objects s (kind_of (owned_object w x)) (key_of (meta_of (owned_object w x))) ≡ none
  owned_absent w x s e = rw (kind_of-owned_object w x, key_of-owned_object w x) e

  created_ok :
      (w : Owner) (x : Object) (s : C.State)
      → R.objects s (kind_of x) (key_of (meta_of x)) ≡ none
      → (C.create (owned_object w x) s).0 ≡ ok (R.created (owned_object w x))
  created_ok w x s e = (R.create s (owned_object w x) (owned_absent w x s e)).0

  -- A sub-reconciler that does nothing where the object is there, and creates it where it is not.
  pub Ensures-of_cases :
      (f : C.State → SubResult × C.State) (w : Owner) (x : Object) (n : NamespacedName)
      (s : C.State)
      → key_of (meta_of x) ≡ n
      → ((y : Object) → R.objects s (kind_of x) n ≡ some y → f s ≡ (continue_reconciling, s))
      → (R.objects s (kind_of x) n ≡ none
          → (C.create (owned_object w x) s).0 ≡ ok (R.created (owned_object w x))
          → f s ≡ (continue_reconciling, (C.create (owned_object w x) s).1))
      → Ensures (kind_of x) n s (f s)
  Ensures-of_cases f w x n s key there absent = elim (Option-cases (R.objects s (kind_of x) n)) [
    | inl none_there ↦
        let none_of_key : R.objects s (kind_of x) (key_of (meta_of x)) ≡ none = rw key none_there in
        rw (absent none_there (created_ok w x s none_of_key)) (
          rw (← key, ← kind_of-owned_object w x, ← key_of-owned_object w x)
            (Ensures-of_create (owned_object w x) s (owned_absent w x s none_of_key)))
    | inr (y, e) ↦ rw (there y e) (Ensures-of_present _ _ s (λ h. cc (h, e)))
  ]
