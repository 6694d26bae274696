-- ===== src/Api/DeepCopy/Resources.antt =====
-- The generated copies of the custom resources are deep copies, if those of the library are.
use observability_ui_operato.Base.{String, ℕ, ◌≡◌, refl, Option, none, some, Slice, length}
use observability_ui_operato.Api.{Condition, ObservabilityUiSpec, ObservabilityUiPluginService}
use observability_ui_operato.Api.Heap.{
  Extends, Extends-refl, Agrees, IsDeepCopy, BothShow, copy_both-IsDeepCopy,
}
use observability_ui_operato.Api.DeepCopy.{
  TypeMeta, StatusValue, PluginSpecValue, UiValue, PluginValue, ListValue, conditions_cell,
  services_cell, config_cell, uis_cell, plugins_cell, Library, Heap, conditions_of, services_of,
  config_of, uis_of, plugins_of, copy_value, copy_slice, status_into, plugin_spec_into, ui_into,
  plugin_into, ui_list_into, plugin_list_into, deep_copy,
}
use observability_ui_operato.Api.DeepCopy.Copies.{
  copy_ui, copy_plugin, copy_ui_list, copy_plugin_list, copy_ui_status, copy_plugin_status,
  copy_plugin_spec,
}
use observability_ui_operato.Api.DeepCopy.Laws.{
  CopiesDeeply, copy_value-IsDeepCopy, SliceShows, copy_slice-IsDeepCopy,
}

-- What the structs show: their values with the contents of their slices and maps, `none` for `nil`.
pub record PluginSpecView : Type 0 where
  pub display_name : String
  pub version : String
  pub type : String
  pub references : Slice ObservabilityUiPluginService × Slice (String × String)

module _ (M : Type 0) where
  pub record UiView : Type 0 where
    pub type_meta : TypeMeta
    pub spec : ObservabilityUiSpec
    pub references : M × Slice Condition

  pub record PluginView : Type 0 where
    pub type_meta : TypeMeta
    pub references : M × (PluginSpecView × Slice Condition)

module _ (L W : Type 0) where
  pub record ListView : Type 0 where
    pub type_meta : TypeMeta
    pub references : L × Slice W

module _ (L : Library) (D : CopiesDeeply L) where
  abbrev ConditionsShow : Heap L → Option ℕ → Slice Condition → Type 0
  ConditionsShow = SliceShows L (conditions_of L) (λ h (x y : Condition). x ≡ y)

  abbrev ServicesShow : Heap L → Option ℕ → Slice ObservabilityUiPluginService → Type 0
  ServicesShow = SliceShows L (services_of L) (λ h (x y : ObservabilityUiPluginService). x ≡ y)

  abbrev ConfigShows : Heap L → Option ℕ → Slice (String × String) → Type 0
  ConfigShows = SliceShows L (config_of L) (λ h (x y : String × String). x ≡ y)

  abbrev StatusShows : Heap L → StatusValue → Slice Condition → Type 0
  StatusShows h x v = ConditionsShow h x.conditions v

  abbrev SpecShows : Heap L → PluginSpecValue → PluginSpecView → Type 0
  SpecShows h x v =
      (x.display_name ≡ v.display_name)
      × (x.version ≡ v.version)
      × (x.type ≡ v.type)
      × BothShow ServicesShow ConfigShows h (x.services, x.config) v.references

  abbrev pub UiShows : Heap L → UiValue L.Meta → UiView D.MetaView → Type 0
  UiShows h x v =
      (x.type_meta ≡ v.type_meta)
      × (x.spec ≡ v.spec)
      × BothShow D.ShowsMeta StatusShows h (x.meta, x.status) v.references

  abbrev pub PluginShows : Heap L → PluginValue L.Meta → PluginView D.MetaView → Type 0
  PluginShows h x v =
      (x.type_meta ≡ v.type_meta)
      × BothShow D.ShowsMeta (BothShow SpecShows StatusShows) h (x.meta, (x.spec, x.status))
          v.references

  abbrev pub UiListShows :
      Heap L → ListValue L.Meta L.ListMeta → ListView D.ListView (UiView D.MetaView) → Type 0
  UiListShows h x v =
      (x.type_meta ≡ v.type_meta)
      × BothShow D.ShowsListMeta (SliceShows L (uis_of L) UiShows) h (x.meta, x.items) v.references

  abbrev pub PluginListShows :
      Heap L → ListValue L.Meta L.ListMeta → ListView D.ListView (PluginView D.MetaView) → Type 0
  PluginListShows h x v =
      (x.type_meta ≡ v.type_meta)
      × BothShow D.ShowsListMeta (SliceShows L (plugins_of L) PluginShows) h (x.meta, x.items)
          v.references

  conditions-IsDeepCopy :
      IsDeepCopy ConditionsShow (copy_slice L (conditions_of L) conditions_cell L.copy_condition)
  conditions-IsDeepCopy =
      copy_slice-IsDeepCopy L (conditions_of L) _ conditions_cell L.copy_condition (λ xs. refl)
        D.condition

  services-IsDeepCopy :
      IsDeepCopy ServicesShow (copy_slice L (services_of L) services_cell (copy_value L))
  services-IsDeepCopy =
      copy_slice-IsDeepCopy L (services_of L) _ services_cell (copy_value L) (λ xs. refl)
        (copy_value-IsDeepCopy L)

  config-IsDeepCopy : IsDeepCopy ConfigShows (copy_slice L (config_of L) config_cell (copy_value L))
  config-IsDeepCopy =
      copy_slice-IsDeepCopy L (config_of L) _ config_cell (copy_value L) (λ xs. refl)
        (copy_value-IsDeepCopy L)

  status_into-IsDeepCopy : IsDeepCopy StatusShows (status_into L)
  unfolding status_into
  status_into-IsDeepCopy =
      let S = conditions-IsDeepCopy in
      record {
        stays = λ h g x v e s. S.stays h g x.conditions v e s;
        extends = λ x h. S.extends x.conditions h;
        apart = λ x h v g s e. S.apart x.conditions h v g s e;
      }

  plugin_spec_into-IsDeepCopy : IsDeepCopy SpecShows (plugin_spec_into L)
  unfolding plugin_spec_into
  plugin_spec_into-IsDeepCopy =
      let S =
        copy_both-IsDeepCopy ServicesShow ConfigShows _ _ services-IsDeepCopy config-IsDeepCopy in
      record {
        stays = λ h g x v e (a, b, c, s).
            (a, b, c, S.stays h g (x.services, x.config) v.references e s);
        extends = λ x h. S.extends (x.services, x.config) h;
        apart = λ x h v g (a, b, c, s) e.
            (a, b, c, S.apart (x.services, x.config) h v.references g s e);
      }

  ui_into-IsDeepCopy : IsDeepCopy UiShows (ui_into L)
  unfolding ui_into
  ui_into-IsDeepCopy =
      let S = copy_both-IsDeepCopy D.ShowsMeta StatusShows _ _ D.meta status_into-IsDeepCopy in
      record {
        stays = λ h g x v e (a, b, s). (a, b, S.stays h g (x.meta, x.status) v.references e s);
        extends = λ x h. S.extends (x.meta, x.status) h;
        apart = λ x h v g (a, b, s) e. (a, b, S.apart (x.meta, x.status) h v.references g s e);
      }

  plugin_into-IsDeepCopy : IsDeepCopy PluginShows (plugin_into L)
  unfolding plugin_into
  plugin_into-IsDeepCopy =
      let S = copy_both-IsDeepCopy D.ShowsMeta (BothShow SpecShows StatusShows) _ _ D.meta (
        copy_both-IsDeepCopy SpecShows StatusShows _ _ plugin_spec_into-IsDeepCopy
          status_into-IsDeepCopy) in
      record {
        stays = λ h g x v e (a, s). (a, S.stays h g (x.meta, (x.spec, x.status)) v.references e s);
        extends = λ x h. S.extends (x.meta, (x.spec, x.status)) h;
        apart = λ x h v g (a, s) e. (a, S.apart (x.meta, (x.spec, x.status)) h v.references g s e);
      }

  ui_list_into-IsDeepCopy : IsDeepCopy UiListShows (ui_list_into L)
  unfolding ui_list_into
  ui_list_into-IsDeepCopy =
      let S =
        copy_both-IsDeepCopy D.ShowsListMeta (SliceShows L (uis_of L) UiShows) _ _ D.list_meta (
          copy_slice-IsDeepCopy L (uis_of L) UiShows uis_cell (ui_into L) (λ xs. refl)
            ui_into-IsDeepCopy) in
      record {
        stays = λ h g x v e (a, s). (a, S.stays h g (x.meta, x.items) v.references e s);
        extends = λ x h. S.extends (x.meta, x.items) h;
        apart = λ x h v g (a, s) e. (a, S.apart (x.meta, x.items) h v.references g s e);
      }

  plugin_list_into-IsDeepCopy : IsDeepCopy PluginListShows (plugin_list_into L)
  unfolding plugin_list_into
  plugin_list_into-IsDeepCopy =
      let S =
        copy_both-IsDeepCopy D.ShowsListMeta (SliceShows L (plugins_of L) PluginShows) _ _
          D.list_meta
          (copy_slice-IsDeepCopy L (plugins_of L) PluginShows plugins_cell (plugin_into L)
            (λ xs. refl) plugin_into-IsDeepCopy) in
      record {
        stays = λ h g x v e (a, s). (a, S.stays h g (x.meta, x.items) v.references e s);
        extends = λ x h. S.extends (x.meta, x.items) h;
        apart = λ x h v g (a, s) e. (a, S.apart (x.meta, x.items) h v.references g s e);
      }

  -- What a pointer shows: what the struct does, or that it is `nil`.
  abbrev pub PointerShows :
      {A V : Type 0} → (Heap L → A → V → Type 0) → Heap L → Option A → Option V → Type 0
  PointerShows Shows h none none = Unit
  PointerShows Shows h none (some v) = ⊥
  PointerShows Shows h (some x) none = ⊥
  PointerShows Shows h (some x) (some v) = Shows h x v

  module _ {A V : Type 0} (Shows : Heap L → A → V → Type 0) (into : A → Heap L → A × Heap L)
      (S : IsDeepCopy Shows into) where
    pointer_stays :
        (h g : Heap L) (x : Option A) (v : Option V)
        → Extends h g
        → PointerShows Shows h x v
        → PointerShows Shows g x v
    pointer_stays h g none none e s = s
    pointer_stays h g none (some v) e s = absurd s
    pointer_stays h g (some x) none e s = absurd s
    pointer_stays h g (some x) (some v) e s = S.stays h g x v e s

    pointer-Extends : (x : Option A) (h : Heap L) → Extends h (deep_copy L into x h).1
    unfolding deep_copy
    pointer-Extends none h = Extends-refl h
    pointer-Extends (some x) h = S.extends x h

    pointer_apart :
        (x : Option A) (h : Heap L) (v : Option V) (g : Heap L)
        → PointerShows Shows h x v
        → Agrees (length h) (deep_copy L into x h).1 g
        → PointerShows Shows g (deep_copy L into x h).0 v
    unfolding deep_copy
    pointer_apart none h none g s e = s
    pointer_apart none h (some v) g s e = absurd s
    pointer_apart (some x) h none g s e = absurd s
    pointer_apart (some x) h (some v) g s e = S.apart x h v g s e

    deep_copy-IsDeepCopy : IsDeepCopy (PointerShows Shows) (deep_copy L into)
    deep_copy-IsDeepCopy = record {
      stays = pointer_stays;
      extends = pointer-Extends;
      apart = pointer_apart;
    }

  -- If the copies of the metadata and of conditions are deep, so are the copies of both resources and
  -- of both lists of resources: they change nothing that was in the heap, and the copy shows what the
  -- original showed, `nil` slices and maps included, in every heap that still has the cells that the
  -- copy added, whatever has become of the cells of the original.
  pub deep_copies :
      IsDeepCopy (PointerShows UiShows) (copy_ui L)
      × IsDeepCopy (PointerShows PluginShows) (copy_plugin L)
      × IsDeepCopy (PointerShows UiListShows) (copy_ui_list L)
      × IsDeepCopy (PointerShows PluginListShows) (copy_plugin_list L)
  deep_copies = (
    deep_copy-IsDeepCopy UiShows (ui_into L) ui_into-IsDeepCopy,
    deep_copy-IsDeepCopy PluginShows (plugin_into L) plugin_into-IsDeepCopy,
    deep_copy-IsDeepCopy UiListShows (ui_list_into L) ui_list_into-IsDeepCopy,
    deep_copy-IsDeepCopy PluginListShows (plugin_list_into L) plugin_list_into-IsDeepCopy,
  )

  -- The copies of the parts are deep too.
  deep_copies_of_parts :
      IsDeepCopy (PointerShows StatusShows) (copy_ui_status L)
      × IsDeepCopy (PointerShows StatusShows) (copy_plugin_status L)
      × IsDeepCopy (PointerShows SpecShows) (copy_plugin_spec L)
  deep_copies_of_parts =
      let of_status = deep_copy-IsDeepCopy StatusShows (status_into L) status_into-IsDeepCopy in
      (
        of_status,
        of_status,
        deep_copy-IsDeepCopy SpecShows (plugin_spec_into L) plugin_spec_into-IsDeepCopy,
      )
