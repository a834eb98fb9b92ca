-- ===== src/Secrets/Requests.antt =====
-- The requests of barbican/plugin/resources.py: store, get, generate and delete. A secret model is
-- freshly loaded, so its relationships are the rows of the tables.
use barbican.Shared.{
  ℕ, String, Bool, true, false, not, ◌||◌, Option, none, some, [], ◌∷◌, str_eq, if◌then◌else◌,
}
use barbican.Shared.Result.{Result, ok, raised, some_or}
use barbican.Shared.Exec.{pure, raise, lift, gets, ◌>>=◌, ◌>>◌}
use barbican.Shared.Text.{}
use barbican.Plugins.{
  PluginError, not_available_or_misconfigured, Db, Manager, dict_set, lookup_name,
}
use barbican.Plugins.Managers.{get_plugin_store, get_plugin_retrieve_delete, enforce_configured}
use barbican.Paging.{PagingConf}
use barbican.Secrets.Data.{
  Payload, has_payload, SecretError, already_stored, not_found, key_error, attribute_error, Codec,
  SecretType, SecretDto, Metadata,
}
use barbican.Secrets.Translations.{
  analyze_before_decryption, normalize_before_encryption, denormalize_after_decryption,
}
use barbican.Secrets.World.{
  Project, Secret, TransportKey, Container, World, Action, on_stores, on_device, create_secret,
  save_secret, save_metadata, get_metadata_for_secret, data_of, delete_entity_by_id,
  create_container_secret,
}
use barbican.Secrets.Crypto.{CryptoOps, StoreCryptoContext}
use barbican.Secrets.Crypto
use barbican.Secrets.Resources.{
  StorePlugin, adapter, vendor, VendorOps, store_ops, key_spec_of, with_plugin, is_nil, context_for,
  get_transport_key_model, get_plugin_name_and_transport_key, store_secret_using_plugin,
}

-- The dict of an order's meta that a secret is made from.
pub record Spec : Type 0 where
  pub name : Option String
  pub algorithm : String
  pub bit_length : Option ℕ
  pub mode : Option String
  pub passphrase : Option String
  pub expiration : Option ℕ
  pub creator_id : Option String
  pub project_id : Option ℕ

-- models.Secret(spec), and its type
unfoldable pub new_secret : Spec → SecretType → Secret
new_secret spec secret_type = record {
  id = none;
  project_id = spec.project_id;
  name = spec.name;
  secret_type = secret_type;
  expiration = spec.expiration;
  algorithm = some spec.algorithm;
  bit_length = spec.bit_length;
  mode = spec.mode;
  creator_id = spec.creator_id;
}

module _ {P C S : Type 0} where
  abbrev pub has_rows : Option ℕ → World P C S → Bool
  has_rows none w = false
  has_rows (some i) w = not (is_nil (data_of i w)) || not (is_nil (get_metadata_for_secret i w))

  unfoldable pub secret_already_has_stored_data : Secret → World P C S → Bool
  unfolding data_of get_metadata_for_secret
  secret_already_has_stored_data secret w = has_rows secret.id w

  abbrev pub save_by_id : Secret → Project → Option ℕ → Action P C S (Secret × ℕ)
  save_by_id secret project none = create_secret secret project.id
  save_by_id secret project (some i) = do save_secret secret i; pure (secret, i)

  -- The secret and its id.
  unfoldable pub save_secret_in_repo : Secret → Project → Action P C S (Secret × ℕ)
  unfolding create_secret save_secret
  save_secret_in_repo secret project = save_by_id secret project secret.id

  abbrev pub meta_of : Option ℕ → World P C S → Metadata
  meta_of none w = []
  meta_of (some i) w = get_metadata_for_secret i w

  unfoldable pub get_secret_meta : Secret → World P C S → Metadata
  unfolding get_metadata_for_secret
  get_secret_meta secret w = meta_of secret.id w

  unfoldable pub create_container_secret_association : String → ℕ → Container → Action P C S Unit
  unfolding create_container_secret
  create_container_secret_association name i container =
      create_container_secret (record { name = name; container_id = container.id; secret_id = i })

module _ {B C S : Type 0} (codec : Codec) (conf : PagingConf) (ops : VendorOps B S)
    (crypto : CryptoOps C S) (enabled : Bool) (db : Db) where
  unfoldable pub save_secret_metadata_in_repo :
      ℕ → Option Metadata → StorePlugin B → String → Action (StorePlugin B) C S Unit
  unfolding save_metadata with_plugin
  save_secret_metadata_in_repo i metadata plugin content_type =
      save_metadata (with_plugin metadata ((store_ops ops).fullname plugin) content_type) i

  -- The secret, its row and its metadata, once the plugin is chosen.
  abbrev pub store_with :
      StorePlugin B
      → Payload
      → String
      → Option String
      → Secret
      → Project
      → Action (StorePlugin B) C S (Secret × Option TransportKey)
  store_with plugin payload content_type transport_key secret project = do
    let dto : SecretDto = record {
      type = secret.secret_type;
      secret = payload;
      key_spec = key_spec_of secret;
      content_type = some content_type;
      transport_key = transport_key;
    }
    (metadata, row) ←
        store_secret_using_plugin codec conf ops crypto enabled db plugin dto secret project
    (row', i) ← save_secret_in_repo row project
    save_secret_metadata_in_repo i metadata plugin content_type
    pure (row', none)

  -- With a payload.
  abbrev pub store_payload :
      Payload
      → String
      → Option String
      → Secret
      → Project
      → Option ℕ
      → Action (StorePlugin B) C S (Secret × Option TransportKey)
  store_payload unencrypted content_type_raw content_encoding secret project transport_key_id = do
    (plugin_name, transport_key) ←
        get_plugin_name_and_transport_key codec conf ops crypto enabled db transport_key_id
    (payload, content_type) ←
        lift (normalize_before_encryption codec unencrypted content_type_raw content_encoding true)
    plugin ← on_stores (
        get_plugin_store (store_ops ops) enabled db (key_spec_of secret) plugin_name false
          project.id)
    store_with plugin payload content_type transport_key secret project

  abbrev pub given_payload : Option Payload → Option Payload
  given_payload none = none
  given_payload (some p) = if has_payload p then some p else none

  -- Without a payload the secret is only made, for a later request to fill.
  abbrev pub store_given :
      Option Payload
      → String
      → Option String
      → Secret
      → Project
      → Bool
      → Option ℕ
      → Action (StorePlugin B) C S (Secret × Option TransportKey)
  store_given (some p) content_type encoding secret project needed transport_key_id =
      store_payload p content_type encoding secret project transport_key_id
  store_given none content_type encoding secret project needed transport_key_id = do
    key ←
        get_transport_key_model codec conf ops crypto enabled db (key_spec_of secret) needed
          project.id
    (row, i) ← save_secret_in_repo secret project
    pure (row, key)

  unfoldable pub store_secret :
      Option Payload
      → String
      → Option String
      → Secret
      → Project
      → Bool
      → Option ℕ
      → Action (StorePlugin B) C S (Secret × Option TransportKey)
  unfolding secret_already_has_stored_data get_transport_key_model save_secret_in_repo
  store_secret unencrypted content_type encoding secret project needed transport_key_id w =
      if secret_already_has_stored_data secret w
      then (raised already_stored, w)
      else store_given (given_payload unencrypted) content_type encoding secret project needed
          transport_key_id w

  abbrev pub retrieve_plugin :
      Option String
      → Manager (StorePlugin B)
      → Result PluginError (StorePlugin B) × Manager (StorePlugin B)
  retrieve_plugin none m =
      enforce_configured (store_ops ops) m.extensions
        (raised (not_available_or_misconfigured "None"), m) m
  retrieve_plugin (some n) m = get_plugin_retrieve_delete (store_ops ops) n m

  unfoldable pub get_secret_using_plugin :
      StorePlugin B → Metadata → Secret → Project → Action (StorePlugin B) C S SecretDto
  unfolding Crypto.get_secret
  get_secret_using_plugin adapter metadata secret project =
      Crypto.get_secret codec crypto enabled db secret.secret_type
        (record (context_for project none) { secret_model = some secret })
  get_secret_using_plugin (vendor b) metadata secret project =
      on_device (ops.get_secret b secret.secret_type metadata)

  -- The type that is asked for: */* stands for the stored one.
  abbrev pub requested_type : String → Metadata → Result SecretError String
  requested_type t metadata =
      if str_eq t "*/*" then some_or (lookup_name "content_type" metadata) key_error else ok t

  -- The session key wrapped for a transport key, and that key. The dict that gets them is dropped
  -- with them.
  abbrev pub with_session_key : Option (String × String) → Metadata → Metadata
  with_session_key none metadata = metadata
  with_session_key (some (twsk, transport_key)) metadata =
      dict_set "transport_key" transport_key (dict_set "trans_wrapped_session_key" twsk metadata)

  unfoldable pub get_secret :
      String → Secret → Project → Option (String × String) → Action (StorePlugin B) C S Payload
  unfolding get_secret_meta analyze_before_decryption lookup_name get_secret_using_plugin
      denormalize_after_decryption
  get_secret requesting_content_type secret project twsk = do
    metadata ← gets (get_secret_meta secret)
    t ← lift (requested_type requesting_content_type metadata)
    lift (analyze_before_decryption t)
    plugin ← on_stores (retrieve_plugin (lookup_name "plugin_name" metadata))
    dto ← get_secret_using_plugin plugin (with_session_key twsk metadata) secret project
    lift (denormalize_after_decryption codec dto.secret t)

  unfoldable pub get_transport_key_id_for_retrieval :
      Secret → Action (StorePlugin B) C S (Option String)
  unfolding get_secret_meta lookup_name
  get_transport_key_id_for_retrieval secret = do
    metadata ← gets (get_secret_meta secret)
    plugin ← on_stores (retrieve_plugin (lookup_name "plugin_name" metadata))
    elim plugin [ adapter ↦ raise attribute_error | vendor b ↦ pure (ops.get_transport_key b) ]

  -- The adapter's delete_secret does nothing.
  abbrev pub delete_using_plugin : StorePlugin B → Metadata → Action (StorePlugin B) C S Unit
  delete_using_plugin adapter metadata = pure tt
  delete_using_plugin (vendor b) metadata = on_device (ops.delete_secret b metadata)

  abbrev pub delete_stored : Metadata → Action (StorePlugin B) C S Unit
  delete_stored [] = pure tt
  delete_stored (m ∷ ms) = do
    plugin ← on_stores (retrieve_plugin (lookup_name "plugin_name" (m ∷ ms)))
    delete_using_plugin plugin (m ∷ ms)

  abbrev pub delete_model : Option ℕ → String → Action (StorePlugin B) C S Unit
  delete_model none project_id = raise not_found
  delete_model (some i) project_id = delete_entity_by_id i project_id

  unfoldable pub delete_secret : Secret → String → Action (StorePlugin B) C S Unit
  unfolding get_secret_meta delete_entity_by_id
  delete_secret secret project_id = do
    metadata ← gets (get_secret_meta secret)
    delete_stored metadata
    delete_model secret.id project_id
