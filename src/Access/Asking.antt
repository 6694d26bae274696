-- ===== src/Access/Asking.antt =====
-- A client that notes what each call asks of the API server, newest first, whatever the answer. It
-- answers as the client that it wraps.
use observability_ui_operato.Base.{
  String, none, some, List, [], ◌∷◌, ◌++◌, ◌≡◌, ap, sym, ◌==◌, if◌then◌else◌,
}
use observability_ui_operato.Api.{ObservabilityUiPlugin}
use observability_ui_operato.Api.Objects.{
  Kind, Object, kind_of, service_account_kind, cluster_role_kind, cluster_role_binding_kind,
  service_kind, deployment_kind, console_plugin_kind, PolicyRule, service_account, cluster_role,
  cluster_role_binding, service, deployment, console_plugin_v1, console_plugin_v1_alpha1,
}
use observability_ui_operato.Body.{Call}
use observability_ui_operato.Client.{Client}
use observability_ui_operato.Trace.Carried.{Events}
use observability_ui_operato.Operator.Resources.{plugin_role}
use observability_ui_operato.Interleaving.Calls.{plugin_editor}
use observability_ui_operato.Access.{Ask}

-- A resource of the API, with its group.
abbrev pub Resource : Type 0
Resource = String × String

abbrev pub obs_uis : Resource
obs_uis = ("observability-ui.openshift.io", "observabilityuis")

abbrev pub obs_uis_status : Resource
obs_uis_status = ("observability-ui.openshift.io", "observabilityuis/status")

abbrev pub obs_ui_plugins : Resource
obs_ui_plugins = ("observability-ui.openshift.io", "observabilityuiplugins")

abbrev pub obs_ui_plugins_status : Resource
obs_ui_plugins_status = ("observability-ui.openshift.io", "observabilityuiplugins/status")

abbrev pub resource_of : Kind → Resource
resource_of service_account_kind = ("", "serviceaccounts")
resource_of cluster_role_kind = ("rbac.authorization.k8s.io", "clusterroles")
resource_of cluster_role_binding_kind = ("rbac.authorization.k8s.io", "clusterrolebindings")
resource_of service_kind = ("", "services")
resource_of deployment_kind = ("apps", "deployments")
resource_of console_plugin_kind = ("console.openshift.io", "consoleplugins")

abbrev pub ask : Resource → String → Ask
ask r verb = record { group = r.0; resource = r.1; verb = verb }

-- `r.Get`: the client of the manager reads from a cache, which lists and watches.
abbrev pub read : Resource → List Ask
read r = ask r "get" ∷ ask r "list" ∷ ask r "watch" ∷ []

abbrev for_each : List String → (String → List Ask) → List Ask
for_each [] f = []
for_each (x ∷ xs) f = f x ++ for_each xs f

-- The requests that a rule grants.
abbrev asks_of : PolicyRule → List Ask
asks_of rule = for_each rule.api_groups λ group.
    for_each rule.resources λ resource. for_each rule.verbs λ verb. ask (group, resource) verb ∷ []

abbrev pub all_asks_of : List PolicyRule → List Ask
all_asks_of [] = []
all_asks_of (rule ∷ rules) = asks_of rule ++ all_asks_of rules

-- What an object confers, which Kubernetes wants its creator to have: a role its rules, and a binding
-- the role that it names. The hub's role has the rules that the hub controller gives it; of another
-- nothing is known, and it may be one that grants everything.
abbrev pub conferred : Object → List Ask
conferred (cluster_role r) = all_asks_of r.rules
conferred (cluster_role_binding b) =
    if b.role_ref.name == plugin_role then all_asks_of plugin_editor else ask ("*", "*") "*" ∷ []
conferred (service_account _) = []
conferred (service _) = []
conferred (deployment _) = []
conferred (console_plugin_v1_alpha1 _) = []
conferred (console_plugin_v1 _) = []

-- `r.Create`
abbrev pub creation : Object → List Ask
creation x = ask (resource_of (kind_of x)) "create" ∷ conferred x

-- `r.Recorder.Event`: a new event, or one more of a series.
abbrev pub event_asks : List Ask
event_asks = ask ("", "events") "create" ∷ ask ("", "events") "patch" ∷ []

abbrev pub consoles : Resource
consoles = ("operator.openshift.io", "consoles")

abbrev pub Asked : Type 0 → Type 0
Asked S = S × List Ask

module _ {S : Type 0} where
  abbrev pub asking_for : {A : Type 0} → List Ask → Call S A → Call (Asked S) A
  asking_for asks c (s, log) = let (a, t) = c s in (a, (t, asks ++ log))

  abbrev pub asking_events : Events S → Events (Asked S)
  asking_events none = none
  asking_events (some event) =
      some (λ o kind reason message (s, log). (event o kind reason message s, event_asks ++ log))

  pub asking_event :
      (events : Events S)
      (event : ObservabilityUiPlugin → String → String → String → Asked S → Asked S)
      → asking_events events ≡ some event
      → (o : ObservabilityUiPlugin) (kind reason message : String) (s : Asked S)
      → (event o kind reason message s).1 ≡ event_asks ++ s.1
  asking_event none event e o kind reason message s = cc e
  asking_event (some event₀) event e o kind reason message s =
      let same : (λ o kind reason message (s : Asked S).
        (event₀ o kind reason message s.0, event_asks ++ s.1))
          ≡ event =
        cc e in
      ap (λ f. (f o kind reason message s).1) (sym same)

abbrev pub asking : Client → Client
asking C = record {
  State = Asked C.State;
  Bytes = C.Bytes;
  new_for_config = asking_for [] C.new_for_config;
  get_obs_ui = λ n. asking_for (read obs_uis) (C.get_obs_ui n);
  get_obs_ui_plugin = λ n. asking_for (read obs_ui_plugins) (C.get_obs_ui_plugin n);
  update_obs_ui_status =
      λ o. asking_for (ask obs_uis_status "update" ∷ []) (C.update_obs_ui_status o);
  update_obs_ui_plugin_status =
      λ o. asking_for (ask obs_ui_plugins_status "update" ∷ []) (C.update_obs_ui_plugin_status o);
  update_obs_ui_plugin =
      λ o. asking_for (ask obs_ui_plugins "update" ∷ []) (C.update_obs_ui_plugin o);
  get = λ k n. asking_for (read (resource_of k)) (C.get k n);
  create = λ x. asking_for (creation x) (C.create x);
  get_console = λ n. asking_for (ask consoles "get" ∷ []) (C.get_console n);
  patch_console = λ n bytes. asking_for (ask consoles "patch" ∷ []) (C.patch_console n bytes);
  recorder = asking_events C.recorder;
  marshal = C.marshal;
  set_status_condition = λ conditions c (s, log). C.set_status_condition conditions c s;
  set_controller_reference = C.set_controller_reference;
  contains_finalizer = C.contains_finalizer;
  add_finalizer = C.add_finalizer;
  remove_finalizer = C.remove_finalizer;
}
