-- ===== src/Interleaving/Laws.antt =====
-- What no interleaving of the two controllers breaks in a reliable cluster.
use Prim.Native.Nat.{zero, suc}
use observability_ui_operato.Base.{
  ℕ, String, ◌≡◌, ◌≢◌, subst, some, none, true, List, [], ◌∷◌, ◌++◌, elements, index_of, is_some,
  false, eq_iff, contains, inl, inr, Slice,
}
use observability_ui_operato.Api.{Request, NamespacedName, ObservabilityUi}
use observability_ui_operato.Api.Heap.{at}
use observability_ui_operato.Api.Objects.{Kind, Object}
use observability_ui_operato.Subreconciler.{FnWithRequest}
use observability_ui_operato.Subreconciler.Keeps.{Keeps, AllKeep, done, ◌▹◌}
use observability_ui_operato.Client.{Client}
use observability_ui_operato.Patches.Laws.{remove_at}
use observability_ui_operato.Operator.Reconcile.{reconcile}
use observability_ui_operato.Operator.Converge.Hub.{hub_name}
use observability_ui_operato.Operator.Converge.Whole.{hub_keys, reconcile_converges}
use observability_ui_operato.Reliable.Registered.{contains-with_plugin}
use observability_ui_operato.Reliable.Stages.{Present}
use observability_ui_operato.Reliable.{IsReliable}
use observability_ui_operato.Interleaving.{
  Step, hub_step, plugins_step, edited, Reaches, here, next,
}
use observability_ui_operato.Interleaving.Calls.{CallsKeep}
use observability_ui_operato.Interleaving.Hub.{hub_keeps}
use observability_ui_operato.Interleaving.Plugins.{plugins_keep}
use observability_ui_operato.Interleaving.Cluster.{IsPluginName, Objects, cluster_keeps}
use observability_ui_operato.Interleaving.Entries.{
  NoDuplicates, NoDuplicates-append, NoDuplicates-remove_at, contains-append, contains-remove_other,
}

AllKeep-at :
    {S : Type 0} {P : S → Type 0} {fs : List (FnWithRequest S)} (i : ℕ) (f : FnWithRequest S)
    → AllKeep P fs
    → at fs i ≡ some f
    → Keeps P f
AllKeep-at i f done e = cc e
AllKeep-at {P} zero f (◌▹◌ {f = g} k ks) e =
    let same : g ≡ f = cc e in λ req s p. subst (λ h. P (h req s).1) same (k req s p)
AllKeep-at {P} (suc i) f (k ▹ ks) e = AllKeep-at {P = P} i f ks e

hub-not_plugin : ¬ IsPluginName hub_name
hub-not_plugin = elim [
  | inl e ↦ cc ((eq_iff hub_name "logging-view-plugin").1 e)
  | inr e ↦ cc ((eq_iff hub_name "dashboards-console-plugin").1 e)
]

module _ (C : Client) (R : IsReliable C) where
  Step-keeps :
      (P : C.State → Type 0)
      → CallsKeep C P
      → ((s t : C.State) → R.objects t ≡ R.objects s → R.console t ≡ R.console s → P s → P t)
      → (s t : C.State) → Step C R s t
      → P s
      → P t
  Step-keeps P K edits s t (hub_step i f req there e) p =
      rw e (AllKeep-at {P = P} i f (hub_keeps C P K.hub) there req s p)
  Step-keeps P K edits s t (plugins_step i f req there e) p =
      rw e (AllKeep-at {P = P} i f (plugins_keep C P K.plugins) there req s p)
  Step-keeps P K edits s t (edited objects console) p = edits s t objects console p

  Reaches-keeps :
      (P : C.State → Type 0)
      → CallsKeep C P
      → ((s t : C.State) → R.objects t ≡ R.objects s → R.console t ≡ R.console s → P s → P t)
      → {s t : C.State} → Reaches C R s t
      → P s
      → P t
  Reaches-keeps P K edits here p = p
  Reaches-keeps P K edits (next {t = u} {u = t} r step) p =
      Step-keeps P K edits u t step (Reaches-keeps P K edits r p)

  -- What is kept of the list of the console's plugins and of the objects is kept by every sequence.
  module _ (Q : Slice String → Objects → Type 0)
      (enters : (ps : Slice String) (os : Objects) (name : String)
        → contains (elements ps) name ≡ false
        → Q ps os
        → Q (some (elements ps ++ name ∷ [])) os)
      (leaves : (ps : Slice String) (os : Objects) (name : String) (i : ℕ)
        → IsPluginName name
        → index_of (elements ps) name ≡ some i
        → Q ps os
        → Q (some (remove_at (elements ps) i)) os)
      (creates : (x : Object) (s : C.State)
        → Q (R.console s) (R.objects s)
        → Q (R.console s) (R.objects (C.create x s).1)) where
    kept :
        {s t : C.State}
        → Reaches C R s t
        → Q (R.console s) (R.objects s)
        → Q (R.console t) (R.objects t)
    kept =
        Reaches-keeps (λ s. Q (R.console s) (R.objects s))
          (cluster_keeps C R Q enters leaves creates)
          (λ s t objects console q. rw (console, objects) q)

  -- In a reliable cluster, whatever sub-reconcilers of the two controllers run for whatever requests
  -- and in whatever order, with whatever changes of the custom resources in between, a list of the
  -- console's plugins without duplicates stays one without duplicates.
  pub interleaved-NoDuplicates :
      (s t : C.State)
      → Reaches C R s t
      → NoDuplicates (elements (R.console s))
      → NoDuplicates (elements (R.console t))
  interleaved-NoDuplicates s t =
      kept (λ ps os. NoDuplicates (elements ps))
        (λ ps os name absent d. NoDuplicates-append (elements ps) name absent d)
        (λ ps os name i plugin found d. NoDuplicates-remove_at (elements ps) i d) (λ x s d. d)

  -- In a reliable cluster, whatever sub-reconcilers of the two controllers run for whatever requests
  -- and in whatever order, with whatever changes of the custom resources in between, a plugin that the
  -- controller of plugins does not build, such as the hub or one that the user has put there, never
  -- leaves the list of the console's plugins.
  pub interleaved_keeps_entries :
      (s t : C.State) (x : String)
      → Reaches C R s t
      → ¬ IsPluginName x
      → contains (elements (R.console s)) x ≡ true
      → contains (elements (R.console t)) x ≡ true
  interleaved_keeps_entries s t x r foreign =
      kept (λ ps os. contains (elements ps) x ≡ true)
        (λ ps os name absent h. contains-append (elements ps) name x h)
        (λ ps os name i plugin found h.
          contains-remove_other (elements ps) name i x found
            (λ e. foreign (subst IsPluginName e plugin)) h)
        (λ x s h. h) r

  -- In a sequence of such runs and changes no object that is there is ever removed.
  pub interleaved_keeps_objects :
      (s t : C.State) (k : Kind) (n : NamespacedName)
      → Reaches C R s t
      → R.objects s k n ≢ none
      → R.objects t k n ≢ none
  interleaved_keeps_objects s t k n =
      kept (λ ps os. os k n ≢ none) (λ ps os name absent h. h) (λ ps os name i plugin found h. h)
        (λ x s h. R.create_objects s x k n h)

  Present-Reaches :
      (ks : List (Kind × NamespacedName)) (s t : C.State)
      → Reaches C R s t
      → Present C R ks s
      → Present C R ks t
  Present-Reaches [] s t r p = tt
  Present-Reaches ((k, n) ∷ ks) s t r (p, ps) =
      (interleaved_keeps_objects s t k n r p, Present-Reaches ks s t r ps)

  -- In a reliable cluster, after one run for a hub resource that is there and not marked for deletion,
  -- the six resources of the hub and its entry in the list of the console's plugins stay, whatever
  -- sub-reconcilers of the two controllers run after it and whatever becomes of the custom resources,
  -- the deletion of the hub resource included, as long as nobody else writes.
  pub hub_stays_installed :
      (req : Request) (o : ObservabilityUi) (s t : C.State)
      → R.obs_uis s req ≡ some o
      → is_some o.meta.deletion_timestamp ≡ false
      → Reaches C R (reconcile C req s).1 t
      → Present C R hub_keys t × (contains (elements (R.console t)) hub_name ≡ true)
  hub_stays_installed req o s t found alive r =
      let u = (reconcile C req s).1 in
      let (_, converged) = reconcile_converges C R req o s found alive in
      (
        Present-Reaches hub_keys u t r converged.present,
        interleaved_keeps_entries u t hub_name r hub-not_plugin
            (rw (converged.console, contains-with_plugin (R.console s) hub_name)),
      )
