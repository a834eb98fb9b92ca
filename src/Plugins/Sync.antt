-- ===== src/Plugins/Sync.antt =====
-- sync_secret_stores of barbican/plugin/util/multiple_backends.py: the table of the secret stores
-- follows the configuration when the service starts. SecretStoresRepo and ProjectSecretStoreRepo of
-- barbican/model/repositories.py; the order that get_all asks for is not applied to its query, and
-- the rows come as they were made.
use barbican.Shared.{
  ℕ, suc, String, Bool, true, false, not, ◌&&◌, ◌||◌, Option, none, some, List, [], ◌∷◌, ◌++◌,
  str_eq, ◌==◌, keep_if, length, if◌then◌else◌,
}
use barbican.Shared.Result.{Result, ok, raised}
use barbican.Shared.Exec.{Exec, pure, raise, lift, gets, ◌>>=◌, ◌>>◌}
use barbican.Plugins.{
  PluginError, still_in_use, missing_argument, constraint_check, multiple_results, SecretStore,
  ProjectSecretStore, Db, Extension, first_such, dict_set, lookup_name, rows_of_project,
}
use barbican.Plugins.Config.{StoreConf}

-- The session's rows, and those it goes back to on a rollback.
pub record Tables : Type 0 where
  pub db : Db
  pub committed : Db
  pub next_id : ℕ

-- A row before it has an id.
pub record NewStore : Type 0 where
  pub name : String
  pub store_plugin : String
  pub crypto_plugin : Option String
  pub global_default : Bool

abbrev Action : Type 0 → Type 0
Action A = Exec Tables PluginError A

abbrev pub option_eq : Option String → Option String → Bool
option_eq none none = true
option_eq none (some t) = false
option_eq (some s) none = false
option_eq (some s) (some t) = str_eq s t

-- `get_plugin_name` is the friendly name of a plugin that has one.
unfoldable pub get_friendly_name_dict :
    {P : Type 0}
    → (P → Option String)
    → List (String × String)
    → List (Extension P)
    → List (String × String)
unfolding dict_set
get_friendly_name_dict get_plugin_name d [] = d
get_friendly_name_dict get_plugin_name d (e ∷ es) =
    let named : Option String = elim e.obj [ none ↦ none | some p ↦ get_plugin_name p ] in
    get_friendly_name_dict get_plugin_name (elim named [ none ↦ d | some n ↦ dict_set e.name n d ])
      es

abbrev pub crypto_name : Option String → Option String
crypto_name none = none
crypto_name (some s) = if str_eq s "" then none else some s

-- SecretStores(name=..., ...)
abbrev pub new_store : Option String → StoreConf → Result PluginError NewStore
new_store none conf = raised missing_argument
new_store (some n) conf =
    if str_eq n "" || str_eq conf.store_plugin ""
    then raised missing_argument
    else ok (record {
      name = n;
      store_plugin = conf.store_plugin;
      crypto_plugin = crypto_name conf.crypto_plugin;
      global_default = conf.global_default;
    })

abbrev pub friendly_name :
    List (String × String) → List (String × String) → StoreConf → Option String
friendly_name ss_names crypto_names conf = elim (crypto_name conf.crypto_plugin) [
  | some c ↦ lookup_name c crypto_names
  | none ↦ lookup_name conf.store_plugin ss_names
]

abbrev pub cons_ok :
    Result PluginError NewStore
    → Result PluginError (List NewStore)
    → Result PluginError (List NewStore)
cons_ok (raised x) rest = raised x
cons_ok (ok c) (raised x) = raised x
cons_ok (ok c) (ok cs) = ok (c ∷ cs)

unfoldable pub conf_stores :
    List (String × String)
    → List (String × String)
    → List StoreConf
    → Result PluginError (List NewStore)
unfolding lookup_name
conf_stores ss_names crypto_names [] = ok []
conf_stores ss_names crypto_names (c ∷ cs) =
    cons_ok (new_store (friendly_name ss_names crypto_names c) c)
      (conf_stores ss_names crypto_names cs)

abbrev pub fn_match : NewStore → SecretStore → Bool
fn_match c s = str_eq c.store_plugin s.store_plugin && option_eq c.crypto_plugin s.crypto_plugin

abbrev same_pair : NewStore → SecretStore → Bool
same_pair c s = elim c.crypto_plugin [ none ↦ false | some p ↦ fn_match c s ]

abbrev any_such : (SecretStore → Bool) → List SecretStore → Bool
any_such f [] = false
any_such f (s ∷ ss) = f s || any_such f ss

abbrev pub with_stores : List SecretStore → Db → Db
with_stores stores db = record db { secret_stores = stores }

-- The row of a new store, at the end of the table.
abbrev pub store_added : NewStore → Tables → Tables
store_added c w = record w {
  db =
      with_stores
        (w.db.secret_stores
          ++ record {
            id = w.next_id;
            name = c.name;
            store_plugin = c.store_plugin;
            crypto_plugin = c.crypto_plugin;
            global_default = c.global_default;
          }
            ∷ [])
        w.db;
  next_id = suc w.next_id;
}

-- create_from, with the two unique constraints of the table, where a rollback comes before the
-- error; a pair without a crypto plugin is not held to be a duplicate.
unfoldable pub create_store : NewStore → Action Unit
create_store c w =
    if any_such (λ s. str_eq s.name c.name || same_pair c s) w.db.secret_stores
    then (raised constraint_check, record w { db = w.committed })
    else (ok tt, store_added c w)

abbrev pub with_default : ℕ → Bool → SecretStore → SecretStore
with_default i b s = if s.id == i then record s { global_default = b } else s

abbrev pub set_default : ℕ → Bool → List SecretStore → List SecretStore
set_default i b [] = []
set_default i b (s ∷ ss) = with_default i b s ∷ set_default i b ss

unfoldable pub save_default : ℕ → Bool → Action Unit
save_default i b w =
    (ok tt, record w { db = with_stores (set_default i b w.db.secret_stores) w.db })

-- delete_entity_by_id, of a row that was read before and so is found.
unfoldable pub delete_store : ℕ → Action Unit
delete_store i w =
    (ok tt, record w { db = with_stores (keep_if (λ s. not (s.id == i)) w.db.secret_stores) w.db })

unfoldable pub get_count_by_secret_store : ℕ → Tables → ℕ
get_count_by_secret_store i w = length (keep_if (λ r. r.secret_store_id == i) w.db.project_stores)

abbrev pub bool_eq : Bool → Bool → Bool
bool_eq true b = b
bool_eq false b = not b

-- The row that matches, updated if its flag is another; the rows that are left.
abbrev pub sync_match : NewStore → Option SecretStore → List SecretStore → Action (List SecretStore)
sync_match c none rows = do create_store c; pure rows
sync_match c (some s) rows = do
  if bool_eq s.global_default c.global_default then pure tt else save_default s.id c.global_default
  pure (keep_if (λ r. not (r.id == s.id)) rows)

unfoldable pub sync_confs : List NewStore → List SecretStore → Action (List SecretStore)
unfolding create_store save_default first_such
sync_confs [] rows = pure rows
sync_confs (c ∷ cs) rows = do
  rows' ← sync_match c (first_such (fn_match c) rows) rows
  sync_confs cs rows'

abbrev pub remove_unused : SecretStore → ℕ → Action Unit
remove_unused s count = if count == 0 then delete_store s.id else raise (still_in_use s.name)

unfoldable pub remove_stores : List SecretStore → Action Unit
unfolding delete_store get_count_by_secret_store
remove_stores [] = pure tt
remove_stores (s ∷ ss) = do
  count ← gets (get_count_by_secret_store s.id)
  remove_unused s count
  remove_stores ss

unfoldable pub create_stores : List NewStore → Action Unit
unfolding create_store
create_stores [] = pure tt
create_stores (c ∷ cs) = do create_store c; create_stores cs

abbrev pub sync_rows : List SecretStore → List NewStore → Action Unit
sync_rows [] confs = create_stores confs
sync_rows (s ∷ ss) confs = do rest ← sync_confs confs (s ∷ ss); remove_stores rest

-- `ss_names` and `crypto_names` are the dicts of friendly names; `enabled` is
-- is_multiple_backends_enabled().
unfoldable pub sync_secret_stores :
    Bool → List (String × String) → List (String × String) → List StoreConf → Action Unit
unfolding conf_stores sync_confs remove_stores create_stores
sync_secret_stores false ss_names crypto_names parsed_stores = pure tt
sync_secret_stores true ss_names crypto_names parsed_stores = do
  rows ← gets (λ w. w.db.secret_stores)
  confs ← lift (conf_stores ss_names crypto_names parsed_stores)
  sync_rows rows confs

abbrev pub set_store : ℕ → ℕ → List ProjectSecretStore → List ProjectSecretStore
set_store project_id i [] = []
set_store project_id i (r ∷ rs) =
    (if r.project_id == project_id then record r { secret_store_id = i } else r)
    ∷ set_store project_id i rs

abbrev pub with_projects : List ProjectSecretStore → Tables → Tables
with_projects rows w = record w { db = record w.db { project_stores = rows } }

abbrev pub create_or_update : ℕ → ℕ → List ProjectSecretStore → Action Unit
create_or_update project_id i [] w = (
  ok tt,
  with_projects
      (w.db.project_stores ++ record { project_id = project_id; secret_store_id = i } ∷ []) w,
)
create_or_update project_id i (r ∷ []) w =
    (ok tt, with_projects (set_store project_id i w.db.project_stores) w)
create_or_update project_id i (r ∷ r' ∷ rs) w = (raised multiple_results, w)

unfoldable pub create_or_update_for_project : ℕ → ℕ → Action Unit
unfolding rows_of_project
create_or_update_for_project project_id i w =
    create_or_update project_id i (rows_of_project project_id w.db.project_stores) w
