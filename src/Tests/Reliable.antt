-- ===== src/Tests/Reliable.antt =====
-- The cluster that stores all is reliable.
use observability_ui_operato.Base.{
  ℕ, zero, suc, ◌+◌, String, ◌<>◌, ◌≡◌, ◌≢◌, refl, ap, subst, arith, ◌==◌, eq_iff, eq_refl,
  Bool-cases, Option-cases, sym, ◌∙◌, true, none, some, List, [], ◌∷◌, Slice, elements, inl, inr,
  ◌⊎◌,
}
use observability_ui_operato.Base.Format.{decimal}
use observability_ui_operato.Base.Format.Decimal.{decimal_inj}
use observability_ui_operato.Api.{
  NamespacedName, ObjectMeta, Condition, ObservabilityUi, ObservabilityUiPlugin,
}
use observability_ui_operato.Api.Objects.{Kind, Object, kind_of, meta_of}
use observability_ui_operato.Client.{JsonPatch}
use observability_ui_operato.Patches.Laws.{Patches, add_list, add_last, remove, remove_at}
use observability_ui_operato.Interleaving.{Step, edited}
use observability_ui_operato.Interleaving.Entries.{NoDuplicates}
use observability_ui_operato.Base.{contains}
use observability_ui_operato.Reliable.{IsReliable, key_of, status_of}
use observability_ui_operato.Tests.Cluster.{
  logging, hub, request, set_status_condition, not_found, owner_reference, removed_at,
}
use observability_ui_operato.Tests.Store.{
  Store, store_client, hub_store, unlisted_store, deleting_store, finalized_logging, newer_logging,
  logging_request, same_key, find, without_key, ui_meta, plugin_meta, find_object, stored_ui,
  stored_plugin, stored_plugin_status, patched_list,
}

same_key_refl : (n : NamespacedName) → same_key n n ≡ true
same_key_refl n = rw (eq_refl n.name, eq_refl n.namespace)

same_key-eq : (m n : NamespacedName) → same_key m n ≡ true → m ≡ n
same_key-eq m n h = ground (arith, eq_iff m.name n.name, eq_iff m.namespace n.namespace)

module _ {A : Type 0} (meta : A → ObjectMeta) where
  find-key_of :
      (os : List A) (n : NamespacedName) (o : A) → find meta os n ≡ some o → key_of (meta o) ≡ n
  find-key_of [] n o h = cc h
  find-key_of (x ∷ os) n o h = elim (Bool-cases (same_key (key_of (meta x)) n)) [
    | inl e ↦ cc (same_key-eq (key_of (meta x)) n e, rw e at h)
    | inr e ↦ find-key_of os n o (rw e at h)
  ]

  find-newest :
      (o : A) (os : List A) (n : NamespacedName)
      → key_of (meta o) ≡ n
      → find meta (o ∷ os) n ≡ some o
  find-newest o os n h =
      subst (λ m. find meta (o ∷ os) m ≡ some o) h (rw (same_key_refl (key_of (meta o))))

  find-without_key : (os : List A) (n : NamespacedName) → find meta (without_key meta os n) n ≡ none
  find-without_key [] n = refl
  find-without_key (x ∷ os) n = elim (Bool-cases (same_key (key_of (meta x)) n)) [
    | inl e ↦ rw e (find-without_key os n)
    | inr e ↦ rw (e, e) (find-without_key os n)
  ]

find_object-newest :
    (x : Object) (xs : List Object) → find_object (x ∷ xs) (kind_of x) (key_of (meta_of x)) ≡ some x
find_object-newest x xs = ground (arith, same_key_refl (key_of (meta_of x)))

find_object-older :
    (x : Object) (xs : List Object) (k : Kind) (n : NamespacedName)
    → find_object xs k n ≢ none
    → find_object (x ∷ xs) k n ≢ none
find_object-older x xs k n h = ground (arith)

status_of-set_status_condition :
    (cs : List Condition) (c : Condition)
    → status_of c.type (set_status_condition cs c) ≡ some c.status
status_of-set_status_condition [] c = rw (eq_refl c.type)
status_of-set_status_condition (x ∷ xs) c = elim (Bool-cases (x.type == c.type)) [
  | inl e ↦ rw (e, eq_refl c.type)
  | inr e ↦ rw (e, e) (status_of-set_status_condition xs c)
]

other_path :
    (i k : ℕ) → ("/spec/plugins/" <> decimal i == "/spec/plugins/" <> decimal k) ≡ true → i ≡ k
other_path i k h = decimal_inj "/spec/plugins/" i k ((eq_iff _ _).0 h)

removed_at_eq :
    (xs : List String) (i k j : ℕ)
    → j ≡ k + i
    → removed_at ("/spec/plugins/" <> decimal j) k xs ≡ remove_at xs i
removed_at_eq [] i k j e = refl
removed_at_eq (x ∷ xs) zero k j e =
    let here : j ≡ k = omega (arith, e) in rw (here, eq_refl ("/spec/plugins/" <> decimal k))
removed_at_eq (x ∷ xs) (suc i) k j e =
    elim (Bool-cases ("/spec/plugins/" <> decimal j == "/spec/plugins/" <> decimal k)) [
      | inl same ↦ absurd (omega (arith, e, other_path j k same))
      | inr other ↦ rw other (ap (λ ys. x ∷ ys) (removed_at_eq xs i (suc k) j (omega (arith, e))))
    ]

patched_list-Patches :
    (s : Store) (ps : Slice JsonPatch) (after : Slice String)
    → Patches s.console ps after
    → patched_list (elements ps) s.console ≡ after
patched_list-Patches s _ _ (add_list xs) = refl
patched_list-Patches s _ _ (add_last ys x e) = rw e
patched_list-Patches s _ _ (remove ys i e h) = rw e (ap some (removed_at_eq ys i 0 i (omega arith)))

same_key_of : {m n : NamespacedName} → m ≡ n → same_key m n ≡ true
same_key_of {m} e = subst (λ n. same_key m n ≡ true) e (same_key_refl m)

-- The newest of a key hides the others.
find-newer :
    {A : Type 0} (meta : A → ObjectMeta) (x : A) (os : List A) (n : NamespacedName) (p : A)
    → find meta os n ≡ some p
    → (find meta (x ∷ os) n ≡ some p) ⊎ ((key_of (meta x) ≡ n) × (find meta (x ∷ os) n ≡ some x))
find-newer meta x os n p h = elim (Bool-cases (same_key (key_of (meta x)) n)) [
  | inl same ↦ inr (same_key-eq (key_of (meta x)) n same, rw same refl)
  | inr other ↦ inl (rw (other, h))
]

find-stored_ui :
    (s : Store) (o p : ObservabilityUi) (n : NamespacedName)
    → find ui_meta s.obs_uis n ≡ some p
    → (q : ObservabilityUi) × (find ui_meta (stored_ui s o ∷ s.obs_uis) n ≡ some q)
      × (q.meta.deletion_timestamp ≡ p.meta.deletion_timestamp)
find-stored_ui s o p n h = elim (find-newer ui_meta (stored_ui s o) s.obs_uis n p h) [
  | inl older ↦ (p, older, refl)
  | inr (key, newest) ↦ elim (Option-cases (find ui_meta s.obs_uis (key_of o.meta))) [
    | inl none_there ↦ cc (none_there, h, ap (find ui_meta s.obs_uis) (rw none_there at key))
    | inr (q, there) ↦
        let same = find-key_of ui_meta s.obs_uis (key_of o.meta) q there in
        let eq : q ≡ p = cc (there, h, ap (find ui_meta s.obs_uis) (sym same ∙ rw there at key)) in
        (stored_ui s o, newest, rw there (ap (λ x. x.meta.deletion_timestamp) eq))
  ]
]

find-stored_status :
    (s : Store) (o p : ObservabilityUiPlugin) (n : NamespacedName)
    → find plugin_meta s.plugins n ≡ some p
    → (q : ObservabilityUiPlugin) × (find plugin_meta (stored_plugin_status s o ∷ s.plugins) n
        ≡ some q)
      × (q.meta.deletion_timestamp ≡ p.meta.deletion_timestamp)
      × (q.spec ≡ p.spec)
find-stored_status s o p n h =
    elim (find-newer plugin_meta (stored_plugin_status s o) s.plugins n p h) [
      | inl older ↦ (p, older, refl, refl)
      | inr (key, newest) ↦ elim (Option-cases (find plugin_meta s.plugins (key_of o.meta))) [
        | inl none_there ↦
            cc (none_there, h, ap (find plugin_meta s.plugins) (rw none_there at key))
        | inr (q, there) ↦
            let same = find-key_of plugin_meta s.plugins (key_of o.meta) q there in
            let eq : q ≡ p =
              cc (there, h, ap (find plugin_meta s.plugins) (sym same ∙ rw there at key)) in
            (
              stored_plugin_status s o,
              newest,
              rw there (ap (λ x. x.meta.deletion_timestamp) eq),
              rw there (ap (λ x. x.spec) eq),
            )
      ]
    ]

pub reliable_store : IsReliable store_client
reliable_store = record {
  obs_uis = λ s. find ui_meta s.obs_uis;
  plugins = λ s. find plugin_meta s.plugins;
  objects = λ s. find_object s.objects;
  console = λ s. s.console;
  missing = not_found;
  missing_not_found = refl;
  new_for_config = λ s. refl;
  get_obs_ui = λ n s. refl;
  get_obs_ui_plugin = λ n s. refl;
  get = λ k n s. refl;
  get_console = λ s. refl;
  keyed_obs_ui = λ n s o h. find-key_of ui_meta s.obs_uis n o h;
  stored = stored_ui;
  update_obs_ui_status = λ s o p here version.
      let same = same_key_of (find-key_of ui_meta s.obs_uis (key_of o.meta) p here) in
      rw here (refl, rw same, refl, refl);
  update_obs_ui_status_stays = λ s o p n h. find-stored_ui s o p n h;
  update_obs_ui_status_objects = λ s o. refl;
  update_obs_ui_status_console = λ s o. refl;
  update_obs_ui_status_plugins = λ s o. refl;
  keyed_plugin = λ n s o h. find-key_of plugin_meta s.plugins n o h;
  stored_status = stored_plugin_status;
  update_obs_ui_plugin_status = λ s o p here version.
      let same = same_key_of (find-key_of plugin_meta s.plugins (key_of o.meta) p here) in
      rw here (refl, rw same, refl, refl, refl, refl);
  update_obs_ui_plugin_status_stays = λ s o p n h. find-stored_status s o p n h;
  update_obs_ui_plugin_status_objects = λ s o. refl;
  update_obs_ui_plugin_status_console = λ s o. refl;
  update_obs_ui_plugin_status_obs_uis = λ s o. refl;
  stored_resource = stored_plugin;
  update_obs_ui_plugin = λ s o p here version. rw here (
    refl,
    λ alive. (rw (alive, same_key_refl (key_of o.meta)), refl, refl, refl, refl),
    λ marked bare. rw (marked, bare) (find-without_key plugin_meta s.plugins (key_of o.meta)),
  );
  update_obs_ui_plugin_objects = λ s o. refl;
  update_obs_ui_plugin_console = λ s o. refl;
  update_obs_ui_plugin_obs_uis = λ s o. refl;
  created = λ x. x;
  create = λ s x h. (refl, find_object-newest x s.objects);
  create_objects = λ s x k n h. find_object-older x s.objects k n h;
  create_obs_uis = λ s x. refl;
  create_plugins = λ s x. refl;
  create_console = λ s x. refl;
  owned = λ w m. record m { owner_references = owner_reference w ∷ m.owner_references };
  set_controller_reference = λ w m. refl;
  key-owned = λ w m. refl;
  status_of-set = λ cs c s. status_of-set_status_condition cs c;
  add_finalizer = λ fs f h. rw h;
  remove_finalizer = λ fs f h. rw h;
  bytes = λ ps. ps;
  marshal = λ ps. refl;
  patched = λ s ps. record s { console = patched_list (elements ps) s.console };
  patch_console = λ s ps after h. (_, refl, patched_list-Patches s ps after h);
  patched_obs_uis = λ s ps. refl;
  patched_plugins = λ s ps. refl;
  patched_objects = λ s ps. refl;
  recorded = λ event h. cc h;
  recorded_obs_uis = λ event h. cc h;
}

pub hub_stored : reliable_store.obs_uis hub_store request ≡ some hub
unfolding reliable_store
hub_stored = refl

pub logging_stored : reliable_store.plugins hub_store logging_request ≡ some logging
unfolding reliable_store
logging_stored = refl

pub hub_store-console : reliable_store.console hub_store ≡ some ("other" ∷ [])
unfolding reliable_store
hub_store-console = refl

-- What the store holds where the console has no list of plugins.
pub unlisted_hub : reliable_store.obs_uis unlisted_store request ≡ some hub
unfolding reliable_store
unlisted_hub = refl

pub unlisted_logging : reliable_store.plugins unlisted_store logging_request ≡ some logging
unfolding reliable_store
unlisted_logging = refl

pub unlisted_console : reliable_store.console unlisted_store ≡ none
unfolding reliable_store
unlisted_console = refl

pub finalized_stored :
    reliable_store.plugins deleting_store logging_request ≡ some finalized_logging
unfolding reliable_store
finalized_stored = refl

-- The list of the console's plugins in the store: one plugin of somebody else's.
pub hub_store-NoDuplicates : NoDuplicates (elements (reliable_store.console hub_store))
unfolding reliable_store contains
hub_store-NoDuplicates = (refl, tt)

pub hub_store-contains : contains (elements (reliable_store.console hub_store)) "other" ≡ true
unfolding reliable_store contains
hub_store-contains = refl

-- The user may remove the hub resources.
pub without_hub_resources :
    (s : Store) → Step store_client reliable_store s (record s { obs_uis = [] })
unfolding reliable_store
without_hub_resources s = edited refl refl

-- The user may change the plugin resource.
pub newer_stored :
    (s : Store)
    → (reliable_store.objects (record s { plugins = newer_logging ∷ [] })
        ≡ reliable_store.objects s)
      × (reliable_store.plugins (record s { plugins = newer_logging ∷ [] }) logging_request
          ≡ some newer_logging)
unfolding reliable_store
newer_stored s = (refl, refl)

pub deleting_store-NoDuplicates : NoDuplicates (elements (reliable_store.console deleting_store))
unfolding reliable_store contains
deleting_store-NoDuplicates = (refl, (refl, (refl, tt)))
