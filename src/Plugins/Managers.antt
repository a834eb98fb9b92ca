-- ===== src/Plugins/Managers.antt =====
-- SecretStorePluginManager of barbican/plugin/interface/secret_store.py and _CryptoPluginManager of
-- barbican/plugin/crypto/manager.py: the plugin for a secret.
use barbican.Shared.{ℕ, String, Bool, true, false, ◌&&◌, Option, none, some, List, [], ◌∷◌, str_eq}
use barbican.Shared.Result.{Result, ok, raised, some_or, ◌>>=◌}
use barbican.Plugins.{
  PluginError, plugins_not_configured, crypto_plugin_not_found, plugin_not_found,
  not_available_or_misconfigured, supported_plugin_not_found, generate_supported_plugin_not_found,
  unsupported_operation, Db, Extension, Manager, PluginOps, first_such, first_passing,
  get_active_plugins, get_applicable_plugins_for_type, store_plugin_field, crypto_plugin_field,
}

abbrev is_some : Option String → Bool
is_some none = false
is_some (some s) = true

module _ {P K : Type 0} (ops : PluginOps P K) where
  -- The test of the loop that looks for a plugin to store with.
  abbrev pub can_store : Bool → K → P → Result PluginError Bool
  can_store false key_spec p = ok (ops.store_secret_supports p key_spec)
  can_store true key_spec p =
      ops.get_transport_key p >>= λ key. ok (is_some key && ops.store_secret_supports p key_spec)

  -- A plugin that the loop returns, or the error after it.
  abbrev pub choose_passing :
      (P → Result PluginError Bool) → PluginError → List P → Result PluginError P
  choose_passing f x plugins = first_passing f plugins >>= λ found. some_or found x

  abbrev pub has_name : String → P → Bool
  has_name n p = str_eq (ops.fullname p) n

  unfoldable pub choose_store : K → Option String → Bool → List P → Result PluginError P
  unfolding first_such first_passing
  choose_store key_spec (some n) transport plugins =
      some_or (first_such (has_name n) plugins) (plugin_not_found n)
  choose_store key_spec none transport plugins =
      choose_passing (can_store transport key_spec) supported_plugin_not_found plugins

  -- @_enforce_extensions_configured
  abbrev pub enforce_configured :
      {A : Type 0}
      → List (Extension P)
      → Result PluginError A × Manager P
      → Manager P
      → Result PluginError A × Manager P
  enforce_configured [] out m = (raised plugins_not_configured, m)
  enforce_configured (e ∷ es) out m = out

  abbrev pub on_plugins :
      (List P → Result PluginError P)
      → Result PluginError (List P) × Manager P
      → Result PluginError P × Manager P
  on_plugins choose (r, m) = (r >>= choose, m)

  unfoldable pub get_plugin_store :
      Bool → Db → K → Option String → Bool → ℕ → Manager P → Result PluginError P × Manager P
  get_plugin_store enabled db key_spec plugin_name transport project_id m =
      enforce_configured m.extensions
        (on_plugins (choose_store key_spec plugin_name transport)
          (get_applicable_plugins_for_type enabled db project_id plugin_name store_plugin_field m))
        m

  unfoldable pub get_plugin_retrieve_delete : String → Manager P → Result PluginError P × Manager P
  unfolding first_such
  get_plugin_retrieve_delete n m =
      enforce_configured m.extensions
        (
          some_or (first_such (has_name n) (get_active_plugins m.extensions))
              (not_available_or_misconfigured n),
          m,
        )
        m

  unfoldable pub get_plugin_generate :
      Bool → Db → K → ℕ → Manager P → Result PluginError P × Manager P
  unfolding first_passing
  get_plugin_generate enabled db key_spec project_id m =
      enforce_configured m.extensions
        (on_plugins
          (choose_passing (λ p. ops.generate_supports p key_spec)
            generate_supported_plugin_not_found)
          (get_applicable_plugins_for_type enabled db project_id none store_plugin_field m))
        m

  abbrev pub choose_crypto : (P → Bool) → List P → Result PluginError P
  choose_crypto f [] = raised crypto_plugin_not_found
  choose_crypto f (p ∷ ps) = some_or (first_such f (p ∷ ps)) unsupported_operation

  -- _CryptoPluginManager.get_plugin_store_generate; `supports` is the plugin's answer for the type,
  -- the algorithm, the length and the mode.
  unfoldable pub get_plugin_store_generate :
      Bool → Db → (P → Bool) → ℕ → Manager P → Result PluginError P × Manager P
  get_plugin_store_generate enabled db supports project_id m =
      on_plugins (choose_crypto supports)
        (get_applicable_plugins_for_type enabled db project_id none crypto_plugin_field m)

  -- _CryptoPluginManager.get_plugin_retrieve
  unfoldable pub get_plugin_retrieve : String → Manager P → Result PluginError P × Manager P
  get_plugin_retrieve n m = (choose_crypto (has_name n) (get_active_plugins m.extensions), m)
