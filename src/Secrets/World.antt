-- ===== src/Secrets/World.antt =====
-- The state that secrets live in: the tables of barbican/model/models.py and the queries of
-- barbican/model/repositories.py on them, the two plugin managers, and the devices behind the
-- plugins. A table holds the rows that are not deleted. Identifiers are numbers: a new one is the
-- next number, and the label of a new key takes one too.
use barbican.Shared.{
  ℕ, suc, String, Bool, true, false, not, ◌&&◌, Option, none, some, List, [], ◌∷◌, ◌++◌, str_eq,
  ◌==◌, ltb, keep_if, if◌then◌else◌,
}
use barbican.Shared.Result.{Result, ok, raised}
use barbican.Shared.Exec.{Exec}
use barbican.Plugins.{PluginError, Manager, first_such, dict_set}
use barbican.Secrets.Data.{
  Bytes, SecretError, manager, null_plugin_name, not_found, multiple_results, SecretType, Metadata,
}

pub record Project : Type 0 where
  pub id : ℕ
  pub external_id : String

-- models.Secret; without an id it is not in the table.
pub record Secret : Type 0 where
  pub id : Option ℕ
  pub project_id : Option ℕ
  pub name : Option String
  pub secret_type : SecretType
  pub expiration : Option ℕ
  pub algorithm : Option String
  pub bit_length : Option ℕ
  pub mode : Option String
  pub creator_id : Option String

pub record EncryptedDatum : Type 0 where
  pub secret_id : ℕ
  pub kek_id : ℕ
  pub content_type : Option String
  pub cypher_text : Bytes
  pub kek_meta_extended : Option String

pub record KekDatum : Type 0 where
  pub id : ℕ
  pub project_id : ℕ
  pub plugin_name : String
  pub kek_label : String × ℕ
  pub active : Bool
  pub bind_completed : Bool
  pub algorithm : Option String
  pub bit_length : Option ℕ
  pub mode : Option String
  pub plugin_meta : Option String

pub record SecretStoreMetadatum : Type 0 where
  pub secret_id : ℕ
  pub key : String
  pub value : String

pub record TransportKey : Type 0 where
  pub id : ℕ
  pub plugin_name : String
  pub transport_key : String

pub record Container : Type 0 where
  pub id : ℕ
  pub name : Option String
  -- in code points
  pub type : List ℕ
  pub project_id : ℕ
  pub creator_id : Option String

pub record ContainerSecret : Type 0 where
  pub name : String
  pub container_id : ℕ
  pub secret_id : ℕ

-- `P` is a secret store plugin, `C` a crypto plugin, `S` what all the devices hold.
pub record World (P C S : Type 0) : Type 0 where
  pub projects : List Project
  pub secrets : List Secret
  pub encrypted_data : List EncryptedDatum
  pub keks : List KekDatum
  pub metadata : List SecretStoreMetadatum
  pub transport_keys : List TransportKey
  pub containers : List Container
  pub container_secrets : List ContainerSecret
  pub next_id : ℕ
  pub now : ℕ
  pub stores : Manager P
  pub cryptos : Manager C
  pub device : S

abbrev pub is_id : ℕ → Option ℕ → Bool
is_id i none = false
is_id i (some j) = i == j

-- A row that is saved takes the place of the one with its identifier.
unfoldable pub put_kek : KekDatum → List KekDatum → List KekDatum
put_kek k rows = k ∷ keep_if (λ r. not (r.id == k.id)) rows

unfoldable pub find_kek : ℕ → List KekDatum → Option KekDatum
unfolding first_such
find_kek i rows = first_such (λ r. r.id == i) rows

abbrev pub is_active_kek : ℕ → String → KekDatum → Bool
is_active_kek project_id plugin_name k =
    k.project_id == project_id && str_eq k.plugin_name plugin_name && k.active

abbrev pub metadata_from : Metadata → List SecretStoreMetadatum → Metadata
metadata_from d [] = d
metadata_from d (m ∷ ms) = metadata_from (dict_set m.key m.value d) ms

abbrev pub metadata_rows : ℕ → Metadata → List SecretStoreMetadatum
metadata_rows i [] = []
metadata_rows i ((k, v) ∷ d) = record { secret_id = i; key = k; value = v } ∷ metadata_rows i d

abbrev pub as_error : {A : Type 0} → Result PluginError A → Result SecretError A
as_error (ok a) = ok a
as_error (raised x) = raised (manager x)

abbrev pub Action : Type 0 → Type 0 → Type 0 → Type 0 → Type 0
Action P C S A = Exec (World P C S) SecretError A

abbrev pub new_kek : Project → String → ℕ → KekDatum
new_kek project name i = record {
  id = suc i;
  project_id = project.id;
  plugin_name = name;
  kek_label = (project.external_id, i);
  active = true;
  bind_completed = false;
  algorithm = none;
  bit_length = none;
  mode = none;
  plugin_meta = none;
}

abbrev is_unexpired : ℕ → Option ℕ → Bool
is_unexpired now none = true
is_unexpired now (some t) = ltb now t

abbrev in_project : Option ℕ → String → List Project → Bool
in_project i external_id [] = false
in_project i external_id (p ∷ ps) =
    if is_id p.id i && str_eq p.external_id external_id then true else in_project i external_id ps

module _ {P C S : Type 0} where
  unfoldable pub on_stores :
      {A : Type 0} → (Manager P → Result PluginError A × Manager P) → Action P C S A
  on_stores f w = let (r, m) = f w.stores in (as_error r, record w { stores = m })

  unfoldable pub on_cryptos :
      {A : Type 0} → (Manager C → Result PluginError A × Manager C) → Action P C S A
  on_cryptos f w = let (r, m) = f w.cryptos in (as_error r, record w { cryptos = m })

  unfoldable pub on_device : {A : Type 0} → (S → Result SecretError A × S) → Action P C S A
  on_device f w = let (r, s) = f w.device in (r, record w { device = s })

  unfoldable pub new_id : Action P C S ℕ
  new_id w = (ok w.next_id, record w { next_id = suc w.next_id })

  -- secret_repo.create_from, for a secret without an id: the secret with its new id, and that id.
  unfoldable pub create_secret : Secret → ℕ → Action P C S (Secret × ℕ)
  create_secret secret project_id w =
      let i = w.next_id in
      let row = record secret { id = some i; project_id = some project_id } in
      (ok (row, i), record w { next_id = suc i; secrets = w.secrets ++ row ∷ [] })

  -- secret_repo.save, for a secret with an id
  unfoldable pub save_secret : Secret → ℕ → Action P C S Unit
  save_secret secret i w =
      (ok tt, record w { secrets = keep_if (λ r. not (is_id i r.id)) w.secrets ++ secret ∷ [] })

  -- encrypted_datum_repo.create_from; the identifier of a datum is not kept.
  unfoldable pub create_datum : EncryptedDatum → Action P C S Unit
  create_datum datum w = (ok tt, record w { encrypted_data = w.encrypted_data ++ datum ∷ [] })

  unfoldable pub save_kek : KekDatum → Action P C S Unit
  unfolding put_kek
  save_kek k w = (ok tt, record w { keks = put_kek k w.keks })

  -- query.one(), and what its exceptions come to.
  abbrev pub one_or_new : Project → String → List KekDatum → Action P C S KekDatum
  one_or_new project name [] w =
      let k = new_kek project name w.next_id in
      (ok k, record w { next_id = suc (suc w.next_id); keks = put_kek k w.keks })
  one_or_new project name (k ∷ []) w = (ok k, w)
  one_or_new project name (k ∷ k' ∷ ks) w = (raised multiple_results, w)

  unfoldable pub find_or_create_kek_datum : Project → String → Action P C S KekDatum
  unfolding put_kek
  find_or_create_kek_datum project name w =
      if str_eq name ""
      then (raised null_plugin_name, w)
      else one_or_new project name (keep_if (is_active_kek project.id name) w.keks) w

  -- SecretStoreMetadatumRepo.save
  unfoldable pub save_metadata : Metadata → ℕ → Action P C S Unit
  save_metadata d i w = (ok tt, record w { metadata = w.metadata ++ metadata_rows i d })

  unfoldable pub get_metadata_for_secret : ℕ → World P C S → Metadata
  unfolding dict_set
  get_metadata_for_secret i w = metadata_from [] (keep_if (λ m. m.secret_id == i) w.metadata)

  -- secret.encrypted_data
  unfoldable pub data_of : ℕ → World P C S → List EncryptedDatum
  data_of i w = keep_if (λ d. d.secret_id == i) w.encrypted_data

  -- The rows of SecretRepo.get's query.
  abbrev pub deletable : ℕ → String → World P C S → Option Secret
  deletable i external_id w =
      first_such
        (λ r.
          is_id i r.id
          && is_unexpired w.now r.expiration
          && in_project r.project_id external_id w.projects)
        w.secrets

  -- What goes with a secret: its metadata, its encrypted data, its places in containers.
  abbrev pub without_secret : ℕ → World P C S → World P C S
  without_secret i w = record w {
    secrets = keep_if (λ r. not (is_id i r.id)) w.secrets;
    metadata = keep_if (λ m. not (m.secret_id == i)) w.metadata;
    encrypted_data = keep_if (λ d. not (d.secret_id == i)) w.encrypted_data;
    container_secrets = keep_if (λ c. not (c.secret_id == i)) w.container_secrets;
  }

  abbrev pub delete_found : ℕ → Option Secret → Action P C S Unit
  delete_found i none w = (raised not_found, w)
  delete_found i (some secret) w = (ok tt, without_secret i w)

  unfoldable pub delete_entity_by_id : ℕ → String → Action P C S Unit
  unfolding first_such
  delete_entity_by_id i external_id w = delete_found i (deletable i external_id w) w

  unfoldable pub create_container :
      Option String → List ℕ → ℕ → Option String → Action P C S Container
  create_container name type project_id creator_id w =
      let c : Container = record {
        id = w.next_id;
        name = name;
        type = type;
        project_id = project_id;
        creator_id = creator_id;
      } in
      (ok c, record w { next_id = suc w.next_id; containers = w.containers ++ c ∷ [] })

  unfoldable pub create_container_secret : ContainerSecret → Action P C S Unit
  create_container_secret c w =
      (ok tt, record w { container_secrets = w.container_secrets ++ c ∷ [] })
