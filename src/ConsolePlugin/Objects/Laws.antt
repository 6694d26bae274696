-- ===== src/ConsolePlugin/Objects/Laws.antt =====
-- The objects of one builder fit together.
use mathlib.Core.List.{append-nil, append_assoc}
use observability_ui_operato.Base.{
  String, ◌≡◌, ◌≢◌, ◌↔◌, refl, ◌∙◌, List, [], ◌∷◌, ◌++◌, map, Slice, none, some, elements, append,
  if◌then◌else◌, Option,
}
use observability_ui_operato.Api.{ObservabilityUiPluginService}
use observability_ui_operato.Api.Objects.{
  Service, Deployment, ProxyV1Alpha1, ProxyV1, ProxyService, Container, Volume, ServicePort,
  ContainerPort,
}
use observability_ui_operato.ConsolePlugin.{ConsolePluginBuilder}
use observability_ui_operato.ConsolePlugin.Objects.{
  get_service, get_deployment, get_console_plugin_v1, get_console_plugin_v1_alpha1, proxies_v1,
  proxies_v1_alpha1, proxy_v1, proxy_v1_alpha1, is_empty,
}

-- The service reaches the pods of the deployment: it lies in their namespace, selects their labels,
-- which are also those that the deployment owns, and each of its ports is one of their container's.
pub record Routes (ser : Service) (dep : Deployment) : Type 0 where
  pub namespace : ser.meta.namespace ≡ dep.meta.namespace
  pub owns : dep.match_labels ≡ dep.template.labels
  pub selects : ser.selector ≡ dep.template.labels
  pub ports :
      (c : Container) × (dep.template.spec.containers ≡ c ∷ [])
      × (map (λ (p : ServicePort). p.target_port) ser.ports
          ≡ map (λ (p : ContainerPort). p.container_port) c.ports)

-- The service of a builder reaches the pods of its deployment: it lies in their namespace and selects
-- their labels, which are those that the deployment owns, and the ports that it sends to are the ports
-- of the deployment's one container.
pub get_service-Routes : (b : ConsolePluginBuilder) → Routes (get_service b) (get_deployment b)
unfolding get_service get_deployment
get_service-Routes b = record {
  namespace = refl;
  owns = refl;
  selects = refl;
  ports = (_, refl, refl);
}

-- The pods mount the secret that the service asks the cluster to fill with a certificate.
pub secret_mounted :
    (b : ConsolePluginBuilder)
    → (v : Volume) × ((get_deployment b).template.spec.volumes ≡ v ∷ [])
      × ((get_service b).meta.annotations
          ≡ ("service.alpha.openshift.io/serving-cert-secret-name", v.secret_name) ∷ [])
unfolding get_service get_deployment
secret_mounted b = (_, refl, refl)

-- A service of the custom resource as the alias and the target of a proxy.
abbrev pub target : ObservabilityUiPluginService → String × ProxyService
target s = (s.alias, record { name = s.name; namespace = s.namespace; port = s.port })

proxies_v1_alpha1_lem :
    (proxies : Slice ProxyV1Alpha1) (services : List ObservabilityUiPluginService)
    → elements (proxies_v1_alpha1 proxies services)
      ≡ elements proxies ++ map proxy_v1_alpha1 services
unfolding proxies_v1_alpha1
proxies_v1_alpha1_lem proxies [] = rw append-nil
proxies_v1_alpha1_lem proxies (s ∷ services) =
    proxies_v1_alpha1_lem (append proxies (proxy_v1_alpha1 s)) services ∙ rw append_assoc

proxies_v1_lem :
    (proxies : Slice ProxyV1) (services : List ObservabilityUiPluginService)
    → elements (proxies_v1 proxies services) ≡ elements proxies ++ map proxy_v1 services
unfolding proxies_v1
proxies_v1_lem proxies [] = rw append-nil
proxies_v1_lem proxies (s ∷ services) =
    proxies_v1_lem (append proxies (proxy_v1 s)) services ∙ rw append_assoc

-- The aliases and targets of the proxies of either version.
abbrev pub targets_v1_alpha1 : Slice ProxyV1Alpha1 → List (String × ProxyService)
targets_v1_alpha1 proxies = map (λ (p : ProxyV1Alpha1). (p.alias, p.service)) (elements proxies)

abbrev pub targets_v1 : Slice ProxyV1 → List (String × Option ProxyService)
targets_v1 proxies = map (λ (p : ProxyV1). (p.alias, p.endpoint.service)) (elements proxies)

targets-map_v1_alpha1 :
    (services : List ObservabilityUiPluginService)
    → targets_v1_alpha1 (some (map proxy_v1_alpha1 services)) ≡ map target services
targets-map_v1_alpha1 [] = refl
targets-map_v1_alpha1 (s ∷ services) = cc (targets-map_v1_alpha1 services)

abbrev pub some_target : String × ProxyService → String × Option ProxyService
some_target t = (t.0, some t.1)

targets-map_v1 :
    (services : List ObservabilityUiPluginService)
    → targets_v1 (some (map proxy_v1 services)) ≡ map some_target (map target services)
targets-map_v1 [] = refl
targets-map_v1 (s ∷ services) = cc (targets-map_v1 services)

guarded_v1 :
    (services : List ObservabilityUiPluginService)
    → elements (if is_empty services then none else proxies_v1 none services)
      ≡ map proxy_v1 services
unfolding proxies_v1 is_empty
guarded_v1 [] = refl
guarded_v1 (s ∷ services) = proxies_v1_lem none (s ∷ services)

elements_v1 :
    (b : ConsolePluginBuilder) → elements (get_console_plugin_v1 b).proxy ≡ map proxy_v1 b.services
unfolding get_console_plugin_v1
elements_v1 b = guarded_v1 b.services

-- Either version of the console plugin has one proxy for each service of the builder, in their
-- order, with the service's alias, name, namespace and port.
pub proxies_target_services :
    (b : ConsolePluginBuilder)
    → (targets_v1_alpha1 (get_console_plugin_v1_alpha1 b).proxy ≡ map target b.services)
      × (targets_v1 (get_console_plugin_v1 b).proxy ≡ map some_target (map target b.services))
unfolding get_console_plugin_v1_alpha1
proxies_target_services b = (
  rw (proxies_v1_alpha1_lem none b.services) (targets-map_v1_alpha1 b.services),
  rw (elements_v1 b) (targets-map_v1 b.services),
)

nonempty_v1_alpha1 :
    (proxies : List ProxyV1Alpha1) (services : List ObservabilityUiPluginService)
    → proxies_v1_alpha1 (some proxies) services ≢ none
unfolding proxies_v1_alpha1
nonempty_v1_alpha1 proxies [] h = cc
nonempty_v1_alpha1 proxies (s ∷ services) h = nonempty_v1_alpha1 _ services h

nonempty_v1 :
    (proxies : List ProxyV1) (services : List ObservabilityUiPluginService)
    → proxies_v1 (some proxies) services ≢ none
unfolding proxies_v1
nonempty_v1 proxies [] h = cc
nonempty_v1 proxies (s ∷ services) h = nonempty_v1 _ services h

nil_v1_alpha1_iff :
    (services : List ObservabilityUiPluginService)
    → (proxies_v1_alpha1 none services ≡ none) ↔ (services ≡ [])
unfolding proxies_v1_alpha1
nil_v1_alpha1_iff [] = (λ _. refl, λ _. refl)
nil_v1_alpha1_iff (s ∷ services) = (λ h. absurd (nonempty_v1_alpha1 _ services h), λ h. cc)

nil_v1_iff :
    (services : List ObservabilityUiPluginService)
    → ((if is_empty services then none else proxies_v1 none services) ≡ none) ↔ (services ≡ [])
unfolding proxies_v1 is_empty
nil_v1_iff [] = (λ _. refl, λ _. refl)
nil_v1_iff (s ∷ services) = (λ h. absurd (nonempty_v1 _ services h), λ h. cc)

-- The list of proxies is `nil` in version v1alpha1 exactly where it is in version v1, and that is
-- where the builder has no services.
pub proxy_nil_iff :
    (b : ConsolePluginBuilder)
    → (((get_console_plugin_v1_alpha1 b).proxy ≡ none) ↔ (b.services ≡ []))
      × (((get_console_plugin_v1 b).proxy ≡ none) ↔ (b.services ≡ []))
unfolding get_console_plugin_v1_alpha1 get_console_plugin_v1
proxy_nil_iff b = (nil_v1_alpha1_iff b.services, nil_v1_iff b.services)
