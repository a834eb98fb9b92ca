-- ===== src/Plugins/Routing.antt =====
-- Which plugin serves a project where several backends are enabled.
use barbican.Shared.{
  Option-cases, Bool-cases, eq_iff, ℕ, String, ◌≡◌, refl, ◌∙◌, inl, inr, Bool, true, false, Option,
  none, some, List, [], ◌∷◌, arith, str_eq, ◌==◌, if◌then◌else◌,
}
use barbican.Shared.Result.{Result, ok, raised, some_or, ◌>>=◌}
use barbican.Plugins.{
  PluginError, supported_plugin_not_found, generate_supported_plugin_not_found,
  preferred_plugin_missing, SecretStore, ProjectSecretStore, Db, Extension, Manager, PluginOps,
  first_such, passing_or, first_passing, dict_set, lookup_name, dict_from, plugin_dict,
  rows_of_project, store_of, get_secret_store_for_project, get_global_default_secret_store,
  default_store, store_data, plugins_named, get_applicable_plugins_for_type, PluginType,
  store_plugin_field, plugin_name_in, applicable_in,
}
use barbican.Plugins.Managers.{
  can_store, choose_passing, choose_store, on_plugins, get_plugin_store, get_plugin_generate,
}

abbrev or_else : {A : Type 0} → Option A → Option A → Option A
or_else none y = y
or_else (some x) y = some x

module _ {P : Type 0} where
  -- The last extension with this name whose plugin could be created.
  unfoldable pub plugin_called : String → List (Extension P) → Option P
  plugin_called k [] = none
  plugin_called k (e ∷ es) = or_else (plugin_called k es) (if str_eq e.name k then e.obj else none)

  lookup_name-dict_set :
      (k j : String) (v : P) (d : List (String × P))
      → lookup_name k (dict_set j v d) ≡ (if str_eq j k then some v else lookup_name k d)
  unfolding lookup_name dict_set
  lookup_name-dict_set k j v [] = refl
  lookup_name-dict_set k j v ((i, u) ∷ d) =
      ground (arith, eq_iff i j, eq_iff i k, eq_iff j k, lookup_name-dict_set k j v d)

  lookup_name-dict_from :
      (k : String) (es : List (Extension P)) (d : List (String × P))
      → lookup_name k (dict_from d es) ≡ or_else (plugin_called k es) (lookup_name k d)
  unfolding dict_from plugin_called
  lookup_name-dict_from k [] d = refl
  lookup_name-dict_from k (e ∷ es) d = elim (Option-cases e.obj) [
    | inl h ↦ ground (arith, lookup_name-dict_from k es d)
    | inr (p, h) ↦
        ground (
          arith,
          lookup_name-dict_from k es (dict_set e.name p d),
          lookup_name-dict_set k e.name p d,
        )
  ]

  or_else-none : (x : Option P) → or_else x none ≡ x
  or_else-none none = refl
  or_else-none (some p) = refl

  pub lookup_name-plugin_dict :
      (k : String) (es : List (Extension P)) → lookup_name k (plugin_dict es) ≡ plugin_called k es
  unfolding lookup_name plugin_called
  lookup_name-plugin_dict k es = lookup_name-dict_from k es [] ∙ or_else-none (plugin_called k es)

-- The store that new secrets of a project go to, of which the default may be cached.
pub data Chosen {P : Type 0} (db : Db) (m : Manager P) (i : ℕ) (s : SecretStore) : Type 0 where
  preferred :
      (r : ProjectSecretStore)
      → rows_of_project i db.project_stores ≡ r ∷ []
      → first_such (λ (x : SecretStore). x.id == r.secret_store_id) db.secret_stores ≡ some s
      → Chosen db m i s
  cached :
      rows_of_project i db.project_stores ≡ []
      → m.global_default_store_dict ≡ some s
      → Chosen db m i s
  defaulted :
      rows_of_project i db.project_stores ≡ []
      → m.global_default_store_dict ≡ none
      → first_such (λ (x : SecretStore). x.global_default) db.secret_stores ≡ some s
      → Chosen db m i s

module _ {P K : Type 0} (ops : PluginOps P K) where
  preferred_store :
      (db : Db) (i : ℕ) (r : ProjectSecretStore) (s : SecretStore)
      → rows_of_project i db.project_stores ≡ r ∷ []
      → first_such (λ (x : SecretStore). x.id == r.secret_store_id) db.secret_stores ≡ some s
      → get_secret_store_for_project i db ≡ ok (some s)
  unfolding get_secret_store_for_project
  preferred_store db i r s one is = rw (one, store_of, is)

  no_preferred_store :
      (db : Db) (i : ℕ)
      → rows_of_project i db.project_stores ≡ []
      → get_secret_store_for_project i db ≡ ok none
  unfolding get_secret_store_for_project
  no_preferred_store db i zero = rw zero

  store_data-Chosen :
      (db : Db) (m : Manager P) (i : ℕ) (s : SecretStore)
      → Chosen db m i s
      → (store_data i db m).0 ≡ ok s
  unfolding store_data default_store get_global_default_secret_store
  store_data-Chosen db m i s (preferred r one is) = rw (preferred_store db i r s one is, store_data)
  store_data-Chosen db m i s (cached zero is) = rw (no_preferred_store db i zero, store_data, is)
  store_data-Chosen db m i s (defaulted zero empty is) =
      rw (no_preferred_store db i zero, store_data, empty, default_store, is)

  -- What the only applicable plugin comes to.
  abbrev passed : PluginError → P → Result PluginError Bool → Result PluginError P
  passed x p (raised y) = raised y
  passed x p (ok b) = if b then ok p else raised x

  abbrev routed :
      (P → Result PluginError Bool) → PluginError → String → Option P → Result PluginError P
  routed f x n none = if str_eq n "" then raised x else raised (preferred_plugin_missing n)
  routed f x n (some p) = passed x p (f p)

  one_passing :
      (x : PluginError) (p : P) (r : Result PluginError Bool)
      → (passing_or p r (ok none) >>= λ found. some_or found x) ≡ passed x p r
  one_passing x p (raised y) = refl
  one_passing x p (ok true) = refl
  one_passing x p (ok false) = refl

  routed_lem :
      (f : P → Result PluginError Bool) (x : PluginError) (n : String) (es : List (Extension P))
      → (plugins_named (some n) (plugin_dict es) >>= choose_passing ops f x)
        ≡ routed f x n (plugin_called n es)
  unfolding plugins_named first_passing
  routed_lem f x n es = elim (Option-cases (plugin_called n es)) [
    | inl h ↦
        rw (lookup_name-plugin_dict n es, h, plugins_named)
          (elim (Bool-cases (str_eq n "")) [ inl e ↦ rw e | inr e ↦ rw e ])
    | inr (p, h) ↦ rw (lookup_name-plugin_dict n es, h, plugins_named) (one_passing x p (f p))
  ]

  on_plugins-applicable_in :
      (field : PluginType) (choose : List P → Result PluginError P) (d : List (String × P))
      (out : Result PluginError SecretStore × Manager P) (s : SecretStore)
      → out.0 ≡ ok s
      → (on_plugins ops choose (applicable_in field d out)).0
        ≡ (plugins_named (plugin_name_in field s) d >>= choose)
  on_plugins-applicable_in field choose d (r, m) s e = rw e

  -- With several backends and a chosen store, the store alone decides: a new secret is stored by
  -- the plugin that the store names (the last extension of that name that could be created) if that
  -- plugin can store it, and a new key is generated by the same plugin if it can generate it. An
  -- error tells a plugin that is not there from one that does not support the request, and what the
  -- plugin itself raises when it is asked comes out.
  pub get_plugin_store_routes :
      (db : Db) (key_spec : K) (transport : Bool) (i : ℕ) (e : Extension P)
      (es : List (Extension P)) (cache : Option SecretStore) (s : SecretStore)
      → let m : Manager P = record { extensions = e ∷ es; global_default_store_dict = cache } in
        Chosen db m i s
        → ((get_plugin_store ops true db key_spec none transport i m).0
            ≡ routed
                (can_store ops transport key_spec)
                supported_plugin_not_found
                s.store_plugin
                (plugin_called s.store_plugin (e ∷ es)))
          × ((get_plugin_generate ops true db key_spec i m).0
              ≡ routed
                  (λ p. ops.generate_supports p key_spec)
                  generate_supported_plugin_not_found
                  s.store_plugin
                  (plugin_called s.store_plugin (e ∷ es)))
  unfolding get_plugin_store get_plugin_generate get_applicable_plugins_for_type choose_store
  get_plugin_store_routes db key_spec transport i e es cache s c =
      let out : Result PluginError SecretStore × Manager P =
        store_data i db (record { extensions = e ∷ es; global_default_store_dict = cache }) in
      let found = store_data-Chosen db _ i s c in
      (
        on_plugins-applicable_in store_plugin_field (choose_store ops key_spec none transport) _ out
              s found
            ∙ routed_lem (can_store ops transport key_spec) supported_plugin_not_found
                s.store_plugin (e ∷ es),
        on_plugins-applicable_in store_plugin_field _ _ out s found
            ∙ routed_lem (λ p. ops.generate_supports p key_spec) generate_supported_plugin_not_found
                s.store_plugin (e ∷ es),
      )
