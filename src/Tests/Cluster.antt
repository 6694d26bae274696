-- ===== src/Tests/Cluster.antt =====
-- A cluster in memory, as a client.
use observability_ui_operato.Base.{
  ℕ, suc, String, ◌<>◌, ◌==◌, Bool, true, false, ◌&&◌, Option, none, some, List, [], ◌∷◌, ◌++◌,
  Slice, elements, if◌then◌else◌,
}
use observability_ui_operato.Base.Format.{decimal, pos}
use observability_ui_operato.Base.Time.{nat_eq}
use observability_ui_operato.Attempt.{Error, ok, err}
use observability_ui_operato.Api.{
  NamespacedName, Condition, ObservabilityUi, ObservabilityUiPlugin, object_meta, OwnerReference,
}
use observability_ui_operato.Api.Objects.{
  Kind, Object, kind_of, meta_of, service_account_kind, cluster_role_kind,
  cluster_role_binding_kind, service_kind, deployment_kind, console_plugin_kind,
}
use observability_ui_operato.Reliable.{without}
use observability_ui_operato.Client.{
  Client, Owner, owner_ui, owner_ui_plugin, JsonPatch, text, texts,
}

pub record Memory : Type 0 where
  pub objects : List Object
  pub console : Slice String

abbrev pub empty_memory : Memory
empty_memory = record { objects = []; console = none }

-- What is given of a cluster: its custom resources, and whether it refuses console plugins.
pub record Setting : Type 0 where
  pub obs_ui : ObservabilityUi
  pub plugin : ObservabilityUiPlugin
  pub refuses_console_plugins : Bool

abbrev pub kind_number : Kind → ℕ
kind_number service_account_kind = 0
kind_number cluster_role_kind = 1
kind_number cluster_role_binding_kind = 2
kind_number service_kind = 3
kind_number deployment_kind = 4
kind_number console_plugin_kind = 5

abbrev pub not_found : Error
not_found = record { message = "not found"; not_found = true }

abbrev refused : Error
refused = record { message = "refused"; not_found = false }

abbrev find : Kind → NamespacedName → List Object → Option Object
find k n [] = none
find k n (o ∷ os) =
    let rest = find k n os in
    if nat_eq (kind_number k) (kind_number (kind_of o))
      && ((meta_of o).name == n.name && (meta_of o).namespace == n.namespace)
    then some o
    else rest

abbrev pub set_status_condition : List Condition → Condition → List Condition
set_status_condition [] c = c ∷ []
set_status_condition (x ∷ xs) c =
    let rest = set_status_condition xs c in if x.type == c.type then c ∷ xs else x ∷ rest

-- The list without its element at the path, where the head has the path of `i`.
abbrev pub removed_at : String → ℕ → List String → List String
removed_at path i [] = []
removed_at path i (x ∷ xs) =
    let rest = removed_at path (suc i) xs in
    if path == "/spec/plugins/" <> decimal i then xs else x ∷ rest

abbrev pub patched : List JsonPatch → Slice String → Slice String
patched [] plugins = plugins
patched (p ∷ ps) plugins = patched ps (elim p.value [
  | some (texts xs) ↦ some xs
  | some (text x) ↦ some (elements plugins ++ x ∷ [])
  | none ↦ some (removed_at p.path 0 (elements plugins))
])

abbrev pub owner_reference : Owner → OwnerReference
owner_reference (owner_ui o) = record {
  kind = "ObservabilityUi";
  name = o.meta.name;
  controller = true;
}
owner_reference (owner_ui_plugin o) = record {
  kind = "ObservabilityUiPlugin";
  name = o.meta.name;
  controller = true;
}

abbrev pub has_finalizer : List String → String → Bool
has_finalizer [] f = false
has_finalizer (x ∷ xs) f = if x == f then true else has_finalizer xs f

abbrev pub cluster : Setting → Client
cluster setting = record {
  State = Memory;
  Bytes = Slice JsonPatch;
  new_for_config = λ s. (ok tt, s);
  get_obs_ui = λ n s. (ok setting.obs_ui, s);
  get_obs_ui_plugin = λ n s. (ok setting.plugin, s);
  update_obs_ui_status = λ o s. (ok o, s);
  update_obs_ui_plugin_status = λ o s. (ok o, s);
  update_obs_ui_plugin = λ o s. (ok o, s);
  get = λ k n s. (elim (find k n s.objects) [ none ↦ err not_found | some o ↦ ok o ], s);
  create = λ o s.
      if setting.refuses_console_plugins && nat_eq (kind_number (kind_of o)) 5
      then (err refused, s)
      else (ok o, record s { objects = o ∷ s.objects });
  get_console = λ n s. (ok (record { plugins = s.console }), s);
  patch_console = λ n bytes s.
      let plugins = patched (elements bytes) s.console in
      (ok (record { plugins = plugins }), record s { console = plugins });
  recorder = none;
  marshal = λ ps. ok ps;
  set_status_condition = λ cs c s. set_status_condition cs c;
  set_controller_reference =
      λ w m. ok (record m { owner_references = owner_reference w ∷ m.owner_references });
  contains_finalizer = has_finalizer;
  add_finalizer = λ fs f. if has_finalizer fs f then (fs, false) else (fs ++ f ∷ [], true);
  remove_finalizer = λ fs f. if has_finalizer fs f then (without fs f, true) else (fs, false);
}

abbrev pub hub : ObservabilityUi
hub = record {
  meta = object_meta "hub" "";
  spec = record { deployment = record { port = pos 9001 } };
  status = record { conditions = [] };
}

abbrev pub logging : ObservabilityUiPlugin
logging = record {
  meta = object_meta "logging" "";
  spec = record {
    display_name = "Logging";
    version = "v1";
    type = "logs";
    services =
        record { alias = "loki"; name = "gateway"; namespace = "logs"; port = pos 8080 } ∷ [];
    config = [];
  };
  status = record { conditions = [] };
}

abbrev pub setting : Setting
setting = record { obs_ui = hub; plugin = logging; refuses_console_plugins = false }

-- Both custom resources are marked for deletion.
abbrev pub deleting : Setting
deleting = record {
  obs_ui = record hub { meta = record hub.meta { deletion_timestamp = some 1700000000 } };
  plugin = record logging { meta = record logging.meta { deletion_timestamp = some 1700000000 } };
  refuses_console_plugins = false;
}

abbrev pub refusing : Setting
refusing = record setting { refuses_console_plugins = true }

abbrev pub request : NamespacedName
request = record { namespace = ""; name = "hub" }
