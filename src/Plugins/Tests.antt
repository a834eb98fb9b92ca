-- ===== src/Plugins/Tests.antt =====
-- Runs of the plugin managers at concrete inputs, and their theorems applied to them.
use mathlib.Core.List.{}
use barbican.Shared.{ℕ, String, ◌≡◌, refl, true, false, none, some, [], ◌∷◌, str_eq, ◌==◌}
use barbican.Shared.Result.{ok}
use barbican.Plugins.{
  SecretStore, Db, Extension, Manager, PluginOps, first_such, rows_of_project, get_active_plugins,
  store_data, get_secret_store_for_project, plugins_named, lookup_name, dict_from, dict_set,
  get_applicable_plugins_for_type,
}
use barbican.Plugins.Managers.{
  choose_store, get_plugin_store, get_plugin_generate, get_plugin_retrieve_delete,
}
use barbican.Plugins.Config.{
  StoreSection, read_multiple_backends_config, all_named, defaults,
  read_multiple_backends_config_lem,
}
use barbican.Plugins.Routing.{Chosen, preferred, plugin_called, get_plugin_store_routes}
use barbican.Plugins.RoundTrip.{HasOwnNames, get_plugin_retrieve_delete-get_plugin_store}

-- A plugin is its full name, and a key specification its bit length.
abbrev ops : PluginOps String ℕ
ops = record {
  fullname = λ p. p;
  get_transport_key = λ p. ok none;
  store_secret_supports = λ p k. true;
  generate_supports = λ p k. ok (k == 256);
}

abbrev kmip : SecretStore
kmip = record {
  id = 1;
  name = "KMIP";
  store_plugin = "kmip_plugin";
  crypto_plugin = none;
  global_default = true;
}

abbrev crypto : SecretStore
crypto = record {
  id = 2;
  name = "Software";
  store_plugin = "store_crypto";
  crypto_plugin = some "simple_crypto";
  global_default = false;
}

abbrev db : Db
db = record {
  secret_stores = kmip ∷ crypto ∷ [];
  project_stores = record { project_id = 7; secret_store_id = 2 } ∷ [];
}

abbrev kmip_extension : Extension String
kmip_extension = record { name = "kmip_plugin"; obj = some "kmip.KmipPlugin" }

abbrev crypto_extension : Extension String
crypto_extension = record { name = "store_crypto"; obj = some "store.StoreCrypto" }

abbrev manager : Manager String
manager = record {
  extensions = kmip_extension ∷ crypto_extension ∷ [];
  global_default_store_dict = none;
}

crypto-Chosen : Chosen db manager 7 crypto
unfolding rows_of_project first_such
crypto-Chosen = preferred (record { project_id = 7; secret_store_id = 2 }) refl refl

get_plugin_store_routes_example :
    ((get_plugin_store ops true db 256 none false 7 manager).0 ≡ ok "store.StoreCrypto")
    × ((get_plugin_generate ops true db 256 7 manager).0 ≡ ok "store.StoreCrypto")
unfolding plugin_called
get_plugin_store_routes_example =
    get_plugin_store_routes ops db 256 false 7 kmip_extension (crypto_extension ∷ []) none crypto
      crypto-Chosen

manager-HasOwnNames : HasOwnNames ops (get_active_plugins manager.extensions)
manager-HasOwnNames p q m n e = e

project_7_stores :
    (get_plugin_store ops true db 256 none false 7 manager).0 ≡ ok "store.StoreCrypto"
unfolding get_plugin_store get_applicable_plugins_for_type store_data get_secret_store_for_project
    rows_of_project first_such plugins_named lookup_name dict_from dict_set choose_store
project_7_stores = refl

get_plugin_retrieve_delete-get_plugin_store_example :
    (get_plugin_retrieve_delete ops "store.StoreCrypto" manager).0 ≡ ok "store.StoreCrypto"
get_plugin_retrieve_delete-get_plugin_store_example =
    get_plugin_retrieve_delete-get_plugin_store ops true db 256 none false 7 manager manager
      "store.StoreCrypto" refl manager-HasOwnNames project_7_stores

abbrev section : String → StoreSection
section name = record {
  secret_store_plugin = some "store_crypto";
  crypto_plugin = some "simple_crypto";
  global_default = str_eq name "secretstore:software";
}

read_multiple_backends_config_lem_example :
    read_multiple_backends_config true ("software" ∷ []) section
    ≡ ok (
        some (
          record {
            store_plugin = "store_crypto";
            crypto_plugin = some "simple_crypto";
            global_default = true;
          }
          ∷ []))
unfolding all_named defaults
read_multiple_backends_config_lem_example = read_multiple_backends_config_lem "software" [] section
