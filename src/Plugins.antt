-- ===== src/Plugins.antt =====
-- Which plugin serves a secret: barbican/plugin/util/multiple_backends.py and utils.py, the
-- managers of barbican/plugin/interface/secret_store.py and barbican/plugin/crypto/manager.py, and
-- the secret store rows of barbican/model. Python's dicts keep the order of insertion.
pub mod Config
pub mod Managers
pub mod Routing
pub mod RoundTrip
pub mod Kept
pub mod Sync
pub mod Distinct
pub mod Splits
pub mod Synced
pub mod Preferred
pub mod Preference
pub mod SyncTests
mod Tests
use barbican.Shared.{
  ℕ, String, Bool, true, false, not, ◌&&◌, Option, none, some, List, [], ◌∷◌, ◌++◌, str_eq, ◌==◌,
  if◌then◌else◌,
}
use barbican.Shared.Result.{Result, ok, raised}
use barbican.Shared.Exec.{Exec, pure, raise, lift, ◌>>=◌, ◌>>◌}

pub data PluginError : Type 0 where
  -- SecretStorePluginsNotConfigured, CryptoPluginNotFound
  plugins_not_configured crypto_plugin_not_found : PluginError
  -- SecretStorePluginNotFound, StorePluginNotAvailableOrMisconfigured
  plugin_not_found not_available_or_misconfigured : String → PluginError
  -- SecretStoreSupportedPluginNotFound, SecretGenerateSupportedPluginNotFound
  supported_plugin_not_found generate_supported_plugin_not_found : PluginError
  -- CryptoPluginUnsupportedOperation
  unsupported_operation : PluginError
  -- MultipleStorePreferredPluginMissing
  preferred_plugin_missing : String → PluginError
  -- MultipleStorePluginStillInUse
  still_in_use : String → PluginError
  -- MissingArgumentError, ConstraintCheck
  missing_argument constraint_check : PluginError
  -- an attribute of None, or several rows where one is asked for
  attribute_error multiple_results : PluginError

-- models.SecretStores
pub record SecretStore : Type 0 where
  pub id : ℕ
  pub name : String
  pub store_plugin : String
  pub crypto_plugin : Option String
  pub global_default : Bool

-- models.ProjectSecretStore
pub record ProjectSecretStore : Type 0 where
  pub project_id : ℕ
  pub secret_store_id : ℕ

pub record Db : Type 0 where
  pub secret_stores : List SecretStore
  pub project_stores : List ProjectSecretStore

-- A stevedore extension; its object is missing where the plugin could not be created.
pub record Extension (P : Type 0) : Type 0 where
  pub name : String
  pub obj : Option P

pub record Manager (P : Type 0) : Type 0 where
  pub extensions : List (Extension P)
  pub global_default_store_dict : Option SecretStore

-- What the managers ask of a plugin.
pub record PluginOps (P K : Type 0) : Type 0 where
  pub fullname : P → String
  pub get_transport_key : P → Result PluginError (Option String)
  pub store_secret_supports : P → K → Bool
  pub generate_supports : P → K → Result PluginError Bool

module _ {A : Type 0} where
  -- `for x in xs: if f(x): return x`
  unfoldable pub first_such : (A → Bool) → List A → Option A
  first_such f [] = none
  first_such f (x ∷ xs) = if f x then some x else first_such f xs

  abbrev pub passing_or :
      A → Result PluginError Bool → Result PluginError (Option A) → Result PluginError (Option A)
  passing_or x (raised y) rest = raised y
  passing_or x (ok true) rest = ok (some x)
  passing_or x (ok false) rest = rest

  -- The same loop where the test may raise.
  unfoldable pub first_passing :
      (A → Result PluginError Bool) → List A → Result PluginError (Option A)
  first_passing f [] = ok none
  first_passing f (x ∷ xs) = passing_or x (f x) (first_passing f xs)

  unfoldable pub dict_set : String → A → List (String × A) → List (String × A)
  dict_set k v [] = (k, v) ∷ []
  dict_set k v ((j, u) ∷ d) = if str_eq j k then (j, v) ∷ d else (j, u) ∷ dict_set k v d

  unfoldable pub lookup_name : String → List (String × A) → Option A
  lookup_name k [] = none
  lookup_name k ((j, u) ∷ d) = if str_eq j k then some u else lookup_name k d

  unfoldable pub values : List (String × A) → List A
  values [] = []
  values ((j, u) ∷ d) = u ∷ values d

module _ {P : Type 0} where
  unfoldable pub get_active_plugins : List (Extension P) → List P
  get_active_plugins [] = []
  get_active_plugins (e ∷ es) = elim e.obj [
    | none ↦ get_active_plugins es
    | some p ↦ p ∷ get_active_plugins es
  ]

  -- {ext.name: ext.obj for ext in extensions if ext.obj}, on top of what the dict has
  unfoldable pub dict_from : List (String × P) → List (Extension P) → List (String × P)
  unfolding dict_set
  dict_from d [] = d
  dict_from d (e ∷ es) = elim e.obj [
    | none ↦ dict_from d es
    | some p ↦ dict_from (dict_set e.name p d) es
  ]

  abbrev pub plugin_dict : List (Extension P) → List (String × P)
  plugin_dict es = dict_from [] es

-- ProjectSecretStoreRepo.get_secret_store_for_project(project_id, None, True).secret_store
unfoldable pub rows_of_project : ℕ → List ProjectSecretStore → List ProjectSecretStore
rows_of_project i [] = []
rows_of_project i (r ∷ rs) =
    if r.project_id == i then r ∷ rows_of_project i rs else rows_of_project i rs

abbrev pub store_of : Db → List ProjectSecretStore → Result PluginError (Option SecretStore)
store_of db [] = ok none
store_of db (r ∷ []) = elim (first_such (λ s. s.id == r.secret_store_id) db.secret_stores) [
  | none ↦ raised attribute_error
  | some s ↦ ok (some s)
]
store_of db (r ∷ r' ∷ rs) = raised multiple_results

unfoldable pub get_secret_store_for_project : ℕ → Db → Result PluginError (Option SecretStore)
unfolding rows_of_project first_such
get_secret_store_for_project i db = store_of db (rows_of_project i db.project_stores)

unfoldable pub get_global_default_secret_store : Db → Option SecretStore
unfolding first_such
get_global_default_secret_store db = first_such (λ s. s.global_default) db.secret_stores

-- plugin_type_field
pub data PluginType : Type 0 where
  store_plugin_field crypto_plugin_field : PluginType

abbrev pub plugin_name_in : PluginType → SecretStore → Option String
plugin_name_in store_plugin_field s = some s.store_plugin
plugin_name_in crypto_plugin_field s = s.crypto_plugin

abbrev Managed : Type 0 → Type 0 → Type 0
Managed P A = Exec (Manager P) PluginError A

module _ {P : Type 0} where
  -- The cached default; where there is none the row's fields are cached first.
  unfoldable pub default_store : Db → Managed P SecretStore
  default_store db m = elim m.global_default_store_dict [
    | some s ↦ (ok s, m)
    | none ↦ elim (get_global_default_secret_store db) [
      | none ↦ (raised attribute_error, m)
      | some s ↦ (ok s, record m { global_default_store_dict = some s })
    ]
  ]

  -- The store of the project, or else the default one.
  unfoldable pub store_data : ℕ → Db → Managed P SecretStore
  store_data project_id db m = elim (get_secret_store_for_project project_id db) [
    | raised x ↦ (raised x, m)
    | ok none ↦ default_store db m
    | ok (some s) ↦ (ok s, m)
  ]

  unfoldable pub plugins_named : Option String → List (String × P) → Result PluginError (List P)
  plugins_named none d = ok []
  plugins_named (some n) d = elim (lookup_name n d) [
    | some p ↦ ok (p ∷ [])
    | none ↦ if str_eq n "" then ok [] else raised (preferred_plugin_missing n)
  ]

  -- From the store's data, in the dict of the plugins that there are.
  abbrev pub applicable_in :
      PluginType
      → List (String × P)
      → Result PluginError SecretStore × Manager P
      → Result PluginError (List P) × Manager P
  applicable_in field d (raised x, m) = (raised x, m)
  applicable_in field d (ok s, m) = (plugins_named (plugin_name_in field s) d, m)

  -- _get_applicable_plugins_for_type; `enabled` is is_multiple_backends_enabled().
  unfoldable pub get_applicable_plugins_for_type :
      Bool → Db → ℕ → Option String → PluginType → Managed P (List P)
  get_applicable_plugins_for_type false db project_id existing field m =
      (ok (values (plugin_dict m.extensions)), m)
  get_applicable_plugins_for_type true db project_id (some existing) field m =
      (ok (values (plugin_dict m.extensions)), m)
  get_applicable_plugins_for_type true db project_id none field m =
      applicable_in field (plugin_dict m.extensions) (store_data project_id db m)
