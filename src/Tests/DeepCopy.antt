-- ===== src/Tests/DeepCopy.antt =====
-- A deep copy with a library whose metadata holds no references.
use observability_ui_operato.Base.{String, ◌≡◌, refl, none, some, [], ◌∷◌}
use observability_ui_operato.Api.{ObjectMeta, object_meta}
use observability_ui_operato.Api.Heap.{IsDeepCopy}
use observability_ui_operato.Api.DeepCopy.{
  PluginValue, ListValue, Library, Heap, services_cell, config_cell, plugins_cell, plugin_list_into,
  plugin_into, plugin_spec_into, status_into, deep_copy,
}
use observability_ui_operato.Api.DeepCopy.Copies.{
  copy_ui, copy_plugin, copy_ui_list, copy_plugin_list,
}
use observability_ui_operato.Api.DeepCopy.Laws.{CopiesDeeply, copy_value-IsDeepCopy}
use observability_ui_operato.Api.DeepCopy.Resources.{
  PointerShows, UiShows, PluginShows, UiListShows, PluginListShows, deep_copies,
}

abbrev flat : Library
flat = record {
  Meta = ObjectMeta;
  ListMeta = String;
  Other = Unit;
  copy_meta = λ x h. (x, h);
  copy_list_meta = λ x h. (x, h);
  copy_condition = λ x h. (x, h);
}

abbrev flat_deep : CopiesDeeply flat
flat_deep = record {
  MetaView = ObjectMeta;
  ListView = String;
  ShowsMeta = λ h x y. x ≡ y;
  ShowsListMeta = λ h x y. x ≡ y;
  meta = copy_value-IsDeepCopy flat;
  list_meta = copy_value-IsDeepCopy flat;
  condition = copy_value-IsDeepCopy flat;
}

deep_copies_example :
    IsDeepCopy (PointerShows flat flat_deep (UiShows flat flat_deep)) (copy_ui flat)
    × IsDeepCopy (PointerShows flat flat_deep (PluginShows flat flat_deep)) (copy_plugin flat)
    × IsDeepCopy (PointerShows flat flat_deep (UiListShows flat flat_deep)) (copy_ui_list flat)
    × IsDeepCopy
        (PointerShows flat flat_deep (PluginListShows flat flat_deep))
        (copy_plugin_list flat)
deep_copies_example = deep_copies flat flat_deep

-- A list of one plugin, and where its copy is: the services, the settings and the items of the copy
-- have addresses of their own.
abbrev one_plugin : PluginValue ObjectMeta
one_plugin = record {
  type_meta = record { kind = "ObservabilityUIPlugin"; api_version = "v1alpha1" };
  meta = object_meta "logging" "";
  spec = record {
    display_name = "Logging";
    version = "v1";
    type = "logs";
    services = some 0;
    config = some 1;
  };
  status = record { conditions = none };
}

abbrev one_heap : Heap flat
one_heap = services_cell [] ∷ config_cell (("a", "b") ∷ []) ∷ plugins_cell (one_plugin ∷ []) ∷ []

abbrev one_list : ListValue ObjectMeta String
one_list = record {
  type_meta = record { kind = "ObservabilityUIPluginList"; api_version = "v1alpha1" };
  meta = "1";
  items = some 2;
}

abbrev copied_plugin : PluginValue ObjectMeta
copied_plugin = record one_plugin {
  spec = record one_plugin.spec { services = some 3; config = some 4 };
}

copied_list : copy_plugin_list flat (some one_list) one_heap ≡ (
  some (record one_list { items = some 5 }),
  services_cell []
      ∷ config_cell (("a", "b") ∷ [])
      ∷ plugins_cell (one_plugin ∷ [])
      ∷ services_cell []
      ∷ config_cell (("a", "b") ∷ [])
      ∷ plugins_cell (copied_plugin ∷ [])
      ∷ [],
)
unfolding deep_copy plugin_list_into plugin_into plugin_spec_into status_into
copied_list = refl
