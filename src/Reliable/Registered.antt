-- ===== src/Reliable/Registered.antt =====
-- The list of the console's plugins after a plugin has been registered in a reliable cluster.
use observability_ui_operato.Base.{
  String, ◌≡◌, arith, Bool-cases, inl, inr, some, [], ◌∷◌, ◌++◌, contains, eq_refl, List, true,
  elements, Slice, if◌then◌else◌,
}
use observability_ui_operato.Client.{Client}
use observability_ui_operato.Patches.Laws.{enable_patches-Patches}
use observability_ui_operato.Patches.{enable_patches}
use observability_ui_operato.Reliable.{IsReliable}

-- The list of the console's plugins with a plugin in it, at the end if it was not there.
abbrev pub with_plugin : Slice String → String → Slice String
with_plugin plugins name =
    if contains (elements plugins) name then plugins else some (elements plugins ++ name ∷ [])

contains-last : (xs : List String) (name : String) → contains (xs ++ name ∷ []) name ≡ true
unfolding contains
contains-last [] name = rw (eq_refl name)
contains-last (x ∷ xs) name = ground (arith, contains-last xs name)

pub contains-with_plugin :
    (plugins : Slice String) (name : String)
    → contains (elements (with_plugin plugins name)) name ≡ true
contains-with_plugin plugins name = elim (Bool-cases (contains (elements plugins) name)) [
  | inl there ↦ rw (there, there)
  | inr absent ↦ rw (absent, contains-last (elements plugins) name)
]

module _ (C : Client) (R : IsReliable C) where
  pub record Registered (name : String) (s t : C.State) : Type 0 where
    pub obs_uis : R.obs_uis t ≡ R.obs_uis s
    pub plugins : R.plugins t ≡ R.plugins s
    pub objects : R.objects t ≡ R.objects s
    pub console : R.console t ≡ with_plugin (R.console s) name

  -- The state that the registration of a plugin leaves: the same if it was there.
  abbrev pub registered : String → C.State → C.State
  registered name s =
      if contains (elements (R.console s)) name
      then s
      else R.patched s (enable_patches (record { plugins = R.console s }) name)

  pub registered-Registered : (name : String) (s : C.State) → Registered name s (registered name s)
  registered-Registered name s =
      let ps = enable_patches (record { plugins = R.console s }) name in
      elim (Bool-cases (contains (elements (R.console s)) name)) [
        | inl there ↦ record {
          obs_uis = rw there;
          plugins = rw there;
          objects = rw there;
          console = rw there;
        }
        | inr absent ↦ record {
          obs_uis = rw absent (R.patched_obs_uis s ps);
          plugins = rw absent (R.patched_plugins s ps);
          objects = rw absent (R.patched_objects s ps);
          console =
              rw absent ((R.patch_console s ps _ (enable_patches-Patches (R.console s) name)).2);
        }
      ]
