-- ===== src/Interleaving/Overtaken.antt =====
-- The registration of a plugin in the console by one controller, overtaken by another writer between
-- its read of the console and its patch: `registerPluginInConsole` of both controllers.
use observability_ui_operato.Base.{
  String, ◌≡◌, ◌∙◌, ap, arith, some, none, false, List, [], ◌∷◌, ◌++◌, Slice, elements, contains,
  inl, inr,
}
use observability_ui_operato.Api.{
  Request, ObservabilityUi, ObservabilityUiPlugin, empty_obs_ui, empty_obs_ui_plugin,
}
use observability_ui_operato.Body.{proceed}
use observability_ui_operato.ConsolePlugin.{ConsolePluginBuilder, console_plugin_name}
use observability_ui_operato.Subreconciler.{SubResult, continue_reconciling, should_halt_or_requeue}
use observability_ui_operato.Client.{Client}
use observability_ui_operato.Patches.{enable_patches}
use observability_ui_operato.Patches.Laws.{Patches, add_list, add_last}
use observability_ui_operato.Operator
use observability_ui_operato.Operator.Register as HubRegister
use observability_ui_operato.Operator.Converge.Hub.{hub_name, hub_builder}
use observability_ui_operato.Plugins
use observability_ui_operato.Plugins.Register as PluginRegister
use observability_ui_operato.Plugins.Converge.{Built}
use observability_ui_operato.Operator.Converge.Registration.{
  register_plugin_in_console_lem as hub_registered,
}
use observability_ui_operato.Plugins.Converge.Registration.{
  register_plugin_in_console_lem as plugin_registered,
}
use observability_ui_operato.Reliable.{IsReliable}
use observability_ui_operato.Reliable.Registered.{with_plugin, registered-Registered}
use observability_ui_operato.Interleaving.Cluster.{builder-IsPluginName}

-- A client whose reads of the console are each followed by a change that somebody else makes.
abbrev pub overtaken : (C : Client) → (C.State → C.State) → Client
overtaken C other = record C {
  get_console = λ name s. let (answer, t) = C.get_console name s in (answer, other t);
}

module _ (C : Client) (R : IsReliable C) (other : C.State → C.State) where
  hub_latest :
      (req : Request) (o p : ObservabilityUi) (s : C.State)
      → R.obs_uis s req ≡ some o
      → Operator.latest (overtaken C other) req p s ≡ (proceed o, s)
  unfolding Operator.latest should_halt_or_requeue continue_reconciling
  hub_latest req o p s h = ground (arith, R.get_obs_ui req s)

  plugin_latest :
      (req : Request) (o p : ObservabilityUiPlugin) (s : C.State)
      → R.plugins s req ≡ some o
      → Plugins.latest (overtaken C other) req p s ≡ (proceed o, s)
  unfolding Plugins.latest should_halt_or_requeue continue_reconciling
  plugin_latest req o p s h = ground (arith, R.get_obs_ui_plugin req s)

  -- The patch that was made for the list that was read meets the list that the other writer left.
  hub_overtaken :
      (req : Request) (o : ObservabilityUi) (s : C.State) (after : Slice String)
      → R.obs_uis s req ≡ some o
      → contains (elements (R.console s)) hub_name ≡ false
      → Patches
          (R.console (other s))
          (enable_patches (record { plugins = R.console s }) hub_name)
          after
      → let (r, t) = HubRegister.register_plugin_in_console (overtaken C other) req s in
        (r ≡ continue_reconciling) × (R.console t ≡ after)
  unfolding HubRegister.register_plugin_in_console
  hub_overtaken req o s after here absent applies =
      let B = hub_builder o in
      let read = hub_latest req o empty_obs_ui s here in
      let ps = enable_patches (record { plugins = R.console s }) hub_name in
      let (c, done, left) = R.patch_console (other s) ps after applies in
      ground (arith, read, B.built, B.name, R.get_console s, absent, R.marshal ps, done, left)

  plugin_overtaken :
      (req : Request) (o : ObservabilityUiPlugin) (b : ConsolePluginBuilder) (s : C.State)
      (after : Slice String)
      → R.plugins s req ≡ some o
      → Built o b
      → contains (elements (R.console s)) b.plugin_name ≡ false
      → Patches
          (R.console (other s))
          (enable_patches (record { plugins = R.console s }) b.plugin_name)
          after
      → let (r, t) = PluginRegister.register_plugin_in_console (overtaken C other) req s in
        (r ≡ continue_reconciling) × (R.console t ≡ after)
  unfolding PluginRegister.register_plugin_in_console console_plugin_name
  plugin_overtaken req o b s after here built absent applies =
      let read = plugin_latest req o empty_obs_ui_plugin s here in
      let ps = enable_patches (record { plugins = R.console s }) b.plugin_name in
      let (c, done, left) = R.patch_console (other s) ps after applies in
      ground (arith, read, built, R.get_console s, absent, R.marshal ps, done, left)

module _ (C : Client) (R : IsReliable C) (hub_req plugin_req : Request) where
  abbrev pub register_hub : C.State → C.State
  register_hub s = (HubRegister.register_plugin_in_console C hub_req s).1

  abbrev pub register_plugin : C.State → C.State
  register_plugin s = (PluginRegister.register_plugin_in_console C plugin_req s).1

  -- Each registration, with the whole of the other one between its read and its patch.
  abbrev pub hub_after_plugin : C.State → SubResult × C.State
  hub_after_plugin = HubRegister.register_plugin_in_console (overtaken C register_plugin) hub_req

  abbrev pub plugin_after_hub : C.State → SubResult × C.State
  plugin_after_hub = PluginRegister.register_plugin_in_console (overtaken C register_hub) plugin_req

  -- The registration goes on, and the console has just these plugins.
  abbrev pub Leaves : SubResult × C.State → List String → Type 0
  Leaves (r, t) names = (r ≡ continue_reconciling) × (R.console t ≡ some names)

  module _ (u : ObservabilityUi) (o : ObservabilityUiPlugin) (b : ConsolePluginBuilder)
      (s : C.State) (hub_there : R.obs_uis s hub_req ≡ some u)
      (plugin_there : R.plugins s plugin_req ≡ some o) (built : Built o b) where
    console-register_hub : R.console (register_hub s) ≡ with_plugin (R.console s) hub_name
    console-register_hub =
        ap (λ r. R.console r.1) (hub_registered C R hub_req u s hub_there)
        ∙ (registered-Registered C R hub_name s).console

    console-register_plugin :
        R.console (register_plugin s) ≡ with_plugin (R.console s) b.plugin_name
    console-register_plugin =
        ap (λ r. R.console r.1) (plugin_registered C R plugin_req o b s built plugin_there)
        ∙ (registered-Registered C R b.plugin_name s).console

    -- In a reliable cluster whose console has no list of plugins, each of the two registrations, where
    -- the whole of the other one takes place between its read of the console and its patch, goes on
    -- without an error and leaves a list of its own plugin alone: the plugin that the other controller
    -- has just registered is lost. The hub resource and the plugin resource are there, and the plugin
    -- resource is of a type that has a builder.
    pub overtaken_registration_lost :
        R.console s ≡ none
        → (R.console (register_hub s) ≡ some (hub_name ∷ []))
          × Leaves (plugin_after_hub s) (b.plugin_name ∷ [])
          × (contains (b.plugin_name ∷ []) hub_name ≡ false)
          × (R.console (register_plugin s) ≡ some (b.plugin_name ∷ []))
          × Leaves (hub_after_plugin s) (hub_name ∷ [])
          × (contains (hub_name ∷ []) b.plugin_name ≡ false)
    unfolding contains enable_patches
    overtaken_registration_lost nothing = (
      rw (console-register_hub, nothing),
      plugin_overtaken C R register_hub plugin_req o b s _ plugin_there built (rw nothing)
          (rw nothing (add_list (b.plugin_name ∷ []))),
      apart.0,
      rw (console-register_plugin, nothing),
      hub_overtaken C R register_plugin hub_req u s _ hub_there (rw nothing)
          (rw nothing (add_list (hub_name ∷ []))),
      apart.1,
    )
      where
        apart :
            (contains (b.plugin_name ∷ []) hub_name ≡ false)
            × (contains (hub_name ∷ []) b.plugin_name ≡ false)
        apart = elim (builder-IsPluginName o b built) [
          | inl e ↦ (rw e, rw e)
          | inr e ↦ (rw e, rw e)
        ]

    -- In a reliable cluster whose console has a list of plugins with neither the hub nor the plugin,
    -- each of the two registrations, where the whole of the other one takes place between its read of
    -- the console and its patch, goes on without an error and leaves that list with both at its end,
    -- its own plugin last. The hub resource and the plugin resource are there, and the plugin resource
    -- is of a type that has a builder.
    pub overtaken_registration_kept :
        (ps : List String)
        → R.console s ≡ some ps
        → contains ps hub_name ≡ false
        → contains ps b.plugin_name ≡ false
        → Leaves (plugin_after_hub s) ((ps ++ hub_name ∷ []) ++ b.plugin_name ∷ [])
          × Leaves (hub_after_plugin s) ((ps ++ b.plugin_name ∷ []) ++ hub_name ∷ [])
    unfolding enable_patches
    overtaken_registration_kept ps list no_hub no_plugin = (
      plugin_overtaken C R register_hub plugin_req o b s _ plugin_there built (rw list no_plugin) (
          rw list (
            add_last (ps ++ hub_name ∷ []) b.plugin_name
              (rw (console-register_hub, list, no_hub)))),
      hub_overtaken C R register_plugin hub_req u s _ hub_there (rw list no_hub) (
          rw list (
            add_last (ps ++ b.plugin_name ∷ []) hub_name
              (rw (console-register_plugin, list, no_plugin)))),
    )
