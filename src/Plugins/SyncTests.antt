-- ===== src/Plugins/SyncTests.antt =====
-- Runs of sync_secret_stores and create_or_update_for_project at concrete tables.
use mathlib.Core.List.{Perm}
use barbican.Shared.{
  ℕ, String, ◌≡◌, ◌≢◌, refl, true, false, Option, none, some, List, [], ◌∷◌, map, arith,
}
use barbican.Shared.Result.{ok, raised}
use barbican.Shared.Exec.{◌>>=◌}
use barbican.Plugins.{
  still_in_use, SecretStore, Db, first_such, rows_of_project, get_secret_store_for_project,
}
use barbican.Plugins.Config.{StoreConf}
use barbican.Plugins.Sync.{
  Tables, get_count_by_secret_store, sync_secret_stores, create_or_update_for_project,
}
use barbican.Plugins.Preferred.{View, view, sync_secret_stores-preferred}
use barbican.Plugins.Splits.{backend, configured, AreKeyed}
use barbican.Plugins.Synced.{sync_secret_stores_lem}
use barbican.Plugins.Preference.{create_or_update_for_project-get_secret_store_for_project}

abbrev kmip : SecretStore
kmip = record {
  id = 1;
  name = "KMIP";
  store_plugin = "kmip_plugin";
  crypto_plugin = none;
  global_default = true;
}

abbrev software : SecretStore
software = record {
  id = 2;
  name = "Software";
  store_plugin = "store_crypto";
  crypto_plugin = some "simple_crypto";
  global_default = false;
}

abbrev rows : Db
rows = record {
  secret_stores = kmip ∷ software ∷ [];
  project_stores = record { project_id = 7; secret_store_id = 2 } ∷ [];
}

abbrev tables : Tables
tables = record { db = rows; committed = rows; next_id = 3 }

abbrev ss_names : List (String × String)
ss_names = ("kmip_plugin", "KMIP") ∷ ("dogtag_plugin", "Dogtag") ∷ []

abbrev crypto_names : List (String × String)
crypto_names = ("simple_crypto", "Software") ∷ []

abbrev conf_of : String → Option String → StoreConf
conf_of s c = record { store_plugin = s; crypto_plugin = c; global_default = false }

-- KMIP and the software store, in the place of which Dogtag comes.
abbrev replaced : List StoreConf
replaced =
    record { store_plugin = "kmip_plugin"; crypto_plugin = some ""; global_default = true }
    ∷ conf_of "dogtag_plugin" none
    ∷ []

abbrev software_view : View
software_view = record {
  name = "Software";
  store_plugin = "store_crypto";
  crypto_plugin = some "simple_crypto";
}

-- Project 7 prefers the store that is to go.
replaced_raises :
    (sync_secret_stores true ss_names crypto_names replaced tables).0
    ≡ raised (still_in_use "Software")
unfolding sync_secret_stores ◌>>=◌
replaced_raises = refl

sync_secret_stores-preferred_example :
    let after : Tables = (sync_secret_stores true ss_names crypto_names replaced tables).1 in
    (view 2 after.db.secret_stores ≡ some software_view)
    × (after.db.project_stores ≡ tables.db.project_stores)
unfolding get_count_by_secret_store view
sync_secret_stores-preferred_example =
    sync_secret_stores-preferred true ss_names crypto_names replaced 2 software_view tables refl
      (omega arith) refl

create_or_update_for_project-get_secret_store_for_project_example :
    let (r, after) = create_or_update_for_project 7 1 tables in
    (r ≡ ok tt)
    × (get_secret_store_for_project 7 after.db ≡ ok (some kmip))
    × ((q : ℕ)
        → q ≢ 7
        → get_secret_store_for_project q after.db ≡ get_secret_store_for_project q tables.db)
unfolding first_such rows_of_project
create_or_update_for_project-get_secret_store_for_project_example =
    create_or_update_for_project-get_secret_store_for_project 7 1 tables kmip refl (omega arith)

-- Project 7 prefers KMIP, and the software store may go.
abbrev moved : Tables
moved =
    let db : Db = record {
      secret_stores = kmip ∷ software ∷ [];
      project_stores = record { project_id = 7; secret_store_id = 1 } ∷ [];
    } in
    record { db = db; committed = db; next_id = 3 }

abbrev after_replaced : Tables
after_replaced =
    let dogtag : SecretStore = record {
      id = 3;
      name = "Dogtag";
      store_plugin = "dogtag_plugin";
      crypto_plugin = none;
      global_default = false;
    } in
    record {
      db = record { secret_stores = kmip ∷ dogtag ∷ []; project_stores = moved.db.project_stores };
      committed = moved.committed;
      next_id = 4;
    }

replaced_returns :
    sync_secret_stores true ss_names crypto_names replaced moved ≡ (ok tt, after_replaced)
unfolding sync_secret_stores ◌>>=◌
replaced_returns = refl

sync_secret_stores_lem_example :
    Perm (map backend after_replaced.db.secret_stores) (map configured replaced)
    × AreKeyed after_replaced
sync_secret_stores_lem_example =
    sync_secret_stores_lem ss_names crypto_names replaced moved after_replaced
      (record { distinct = omega arith; fresh = omega arith }) replaced_returns
