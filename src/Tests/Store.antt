-- ===== src/Tests/Store.antt =====
-- A cluster in memory that stores all that it is given. Its lists hold the newest version of a
-- resource first.
use observability_ui_operato.Base.{
  String, ◌==◌, Bool, true, false, ◌&&◌, Option, none, some, List, [], ◌∷◌, ◌++◌, Slice, elements,
  if◌then◌else◌, is_some,
}
use observability_ui_operato.Attempt.{ok}
use observability_ui_operato.Base.Time.{nat_eq}
use observability_ui_operato.Api.{
  NamespacedName, ObjectMeta, ObservabilityUi, ObservabilityUiPlugin,
}
use observability_ui_operato.Api.Objects.{Kind, Object, kind_of, meta_of}
use observability_ui_operato.Client.{Client, JsonPatch, text, texts}
use observability_ui_operato.Common.{observability_ui_finalizer}
use observability_ui_operato.Reliable.{key_of, answer}
use observability_ui_operato.Tests.Cluster.{
  cluster, setting, set_status_condition, kind_number, not_found, removed_at, owner_reference, hub,
  logging,
}

pub record Store : Type 0 where
  pub obs_uis : List ObservabilityUi
  pub plugins : List ObservabilityUiPlugin
  pub objects : List Object
  pub console : Slice String

abbrev pub same_key : NamespacedName → NamespacedName → Bool
same_key m n = m.name == n.name && m.namespace == n.namespace

abbrev pub same_kind : Kind → Kind → Bool
same_kind j k = nat_eq (kind_number j) (kind_number k)

module _ {A : Type 0} (meta : A → ObjectMeta) where
  abbrev pub find : List A → NamespacedName → Option A
  find [] n = none
  find (o ∷ os) n = let rest = find os n in if same_key (key_of (meta o)) n then some o else rest

  abbrev pub without_key : List A → NamespacedName → List A
  without_key [] n = []
  without_key (o ∷ os) n =
      let rest = without_key os n in if same_key (key_of (meta o)) n then rest else o ∷ rest

abbrev pub ui_meta : ObservabilityUi → ObjectMeta
ui_meta o = o.meta

abbrev pub plugin_meta : ObservabilityUiPlugin → ObjectMeta
plugin_meta o = o.meta

abbrev pub find_object : List Object → Kind → NamespacedName → Option Object
find_object [] k n = none
find_object (x ∷ xs) k n =
    let rest = find_object xs k n in
    if same_kind (kind_of x) k && same_key (key_of (meta_of x)) n then some x else rest

-- What is stored for an object: its status, or all else.
abbrev pub ui_with_status : Option ObservabilityUi → ObservabilityUi → ObservabilityUi
ui_with_status none o = o
ui_with_status (some p) o = record p { status = o.status }

abbrev pub plugin_with_status :
    Option ObservabilityUiPlugin → ObservabilityUiPlugin → ObservabilityUiPlugin
plugin_with_status none o = o
plugin_with_status (some p) o = record p { status = o.status }

abbrev pub plugin_with_rest :
    Option ObservabilityUiPlugin → ObservabilityUiPlugin → ObservabilityUiPlugin
plugin_with_rest none o = o
plugin_with_rest (some p) o = record o {
  status = p.status;
  meta = record o.meta { deletion_timestamp = p.meta.deletion_timestamp };
}

abbrev pub stored_ui : Store → ObservabilityUi → ObservabilityUi
stored_ui s o = ui_with_status (find ui_meta s.obs_uis (key_of o.meta)) o

abbrev pub stored_plugin_status : Store → ObservabilityUiPlugin → ObservabilityUiPlugin
stored_plugin_status s o = plugin_with_status (find plugin_meta s.plugins (key_of o.meta)) o

abbrev pub stored_plugin : Store → ObservabilityUiPlugin → ObservabilityUiPlugin
stored_plugin s o = plugin_with_rest (find plugin_meta s.plugins (key_of o.meta)) o

abbrev pub has_none : List String → Bool
has_none [] = true
has_none (f ∷ fs) = false

-- A resource that is marked for deletion and has no finalizer is removed.
abbrev pub updated_plugins : Store → ObservabilityUiPlugin → List ObservabilityUiPlugin
updated_plugins s o =
    if is_some (stored_plugin s o).meta.deletion_timestamp && has_none o.meta.finalizers
    then without_key plugin_meta s.plugins (key_of o.meta)
    else stored_plugin s o ∷ s.plugins

abbrev pub patched_one : JsonPatch → Slice String → Slice String
patched_one p plugins = elim p.value [
  | some (texts xs) ↦ some xs
  | some (text x) ↦ some (elements plugins ++ x ∷ [])
  | none ↦ some (removed_at p.path 0 (elements plugins))
]

abbrev pub patched_list : List JsonPatch → Slice String → Slice String
patched_list [] plugins = plugins
patched_list (p ∷ ps) plugins = patched_list ps (patched_one p plugins)

abbrev pub store_client : Client
store_client = record {
  State = Store;
  Bytes = Slice JsonPatch;
  new_for_config = λ s. (ok tt, s);
  get_obs_ui = λ n s. (answer not_found (find ui_meta s.obs_uis n), s);
  get_obs_ui_plugin = λ n s. (answer not_found (find plugin_meta s.plugins n), s);
  update_obs_ui_status =
      λ o s. (ok (stored_ui s o), record s { obs_uis = stored_ui s o ∷ s.obs_uis });
  update_obs_ui_plugin_status = λ o s.
      (ok (stored_plugin_status s o), record s { plugins = stored_plugin_status s o ∷ s.plugins });
  update_obs_ui_plugin =
      λ o s. (ok (stored_plugin s o), record s { plugins = updated_plugins s o });
  get = λ k n s. (answer not_found (find_object s.objects k n), s);
  create = λ x s. (ok x, record s { objects = x ∷ s.objects });
  get_console = λ n s. (ok (record { plugins = s.console }), s);
  patch_console = λ n bytes s. (
    ok (record { plugins = patched_list (elements bytes) s.console }),
    record s { console = patched_list (elements bytes) s.console },
  );
  recorder = none;
  marshal = λ ps. ok ps;
  set_status_condition = λ cs c s. set_status_condition cs c;
  set_controller_reference =
      λ w m. ok (record m { owner_references = owner_reference w ∷ m.owner_references });
  contains_finalizer = (cluster setting).contains_finalizer;
  add_finalizer = (cluster setting).add_finalizer;
  remove_finalizer = (cluster setting).remove_finalizer;
}

abbrev pub hub_store : Store
hub_store = record {
  obs_uis = hub ∷ [];
  plugins = logging ∷ [];
  objects = [];
  console = some ("other" ∷ []);
}

-- A console that has no list of plugins.
abbrev pub unlisted_store : Store
unlisted_store = record hub_store { console = none }

-- The plugin resource as it is marked for deletion, with the finalizer of the operator.
abbrev pub finalized_logging : ObservabilityUiPlugin
finalized_logging = record logging {
  meta = record logging.meta {
    deletion_timestamp = some 1700000000;
    finalizers = observability_ui_finalizer ∷ [];
  };
}

abbrev pub deleting_store : Store
deleting_store = record {
  obs_uis = hub ∷ [];
  plugins = finalized_logging ∷ [];
  objects = [];
  console = some ("other" ∷ "logging-view-plugin" ∷ "last" ∷ []);
}

abbrev pub logging_request : NamespacedName
logging_request = record { namespace = ""; name = "logging" }

-- The plugin resource with another version.
abbrev pub newer_logging : ObservabilityUiPlugin
newer_logging = record logging { spec = record logging.spec { version = "v2" } }
