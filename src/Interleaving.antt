-- ===== src/Interleaving.antt =====
-- Runs of both controllers at the same time, as sequences of sub-reconcilers of either of them, for
-- any requests and in any order, with changes of the custom resources by their users in between.
pub mod Calls
pub mod Hub
pub mod Install
pub mod Plugins
pub mod Cluster
pub mod Entries
pub mod Listed
pub mod Apart
pub mod Both
pub mod Laws
pub mod Overtaken
use observability_ui_operato.Base.{ℕ, ◌≡◌, some, List}
use observability_ui_operato.Api.{Request}
use observability_ui_operato.Api.Heap.{at}
use observability_ui_operato.Subreconciler.{FnWithRequest}
use observability_ui_operato.Client.{Client}
use observability_ui_operato.Operator.Reconcile
use observability_ui_operato.Plugins.Reconcile as PluginsReconcile
use observability_ui_operato.Reliable.{IsReliable}

module _ (C : Client) (R : IsReliable C) where
  -- A sub-reconciler of a controller runs for a request, or a user changes custom resources, and with
  -- them neither the objects nor the console.
  pub data Step (s t : C.State) : Type 0 where
    hub_step :
        (i : ℕ) (f : FnWithRequest C.State) (req : Request)
        → at (Reconcile.subreconcilers C) i ≡ some f
        → t ≡ (f req s).1
        → Step s t
    plugins_step :
        (i : ℕ) (f : FnWithRequest C.State) (req : Request)
        → at (PluginsReconcile.subreconcilers C) i ≡ some f
        → t ≡ (f req s).1
        → Step s t
    edited : R.objects t ≡ R.objects s → R.console t ≡ R.console s → Step s t

  pub data Reaches (s : C.State) : C.State → Type 0 where
    here : Reaches s s
    next : {t u : C.State} → Reaches s t → Step t u → Reaches s u
