-- ===== src/Secrets/Resources.antt =====
-- barbican/plugin/resources.py: secrets are stored, fetched, generated and deleted through the
-- plugin that the manager chooses. A store plugin is the crypto adapter or another one, whose
-- operations (SecretStoreBase) are `VendorOps`.
use barbican.Shared.{
  ℕ, suc, String, Bool, true, false, Option, none, some, List, [], ◌∷◌, ◌++◌, str_eq, ◌==◌,
  if◌then◌else◌, keep_if,
}
use barbican.Shared.Result.{Result, ok, raised, some_or}
use barbican.Shared.Exec.{pure, raise, lift, gets, ◌>>=◌}
use barbican.Plugins.{PluginError, attribute_error, Db, Manager, PluginOps, first_such, dict_set}
use barbican.Plugins.Managers.{get_plugin_store}
use barbican.Paging.{PagingConf, int, clean_paging_values, page}
use barbican.Shared.Int.{pos}
use barbican.Secrets.Data.{
  Payload, has_payload, SecretError, already_stored, provided_transport_key_not_found, not_found,
  key_error, Codec, SecretType, KeySpec, SecretDto, Metadata, AsymmetricKeyMetadataDto,
}
use barbican.Secrets.Data
use barbican.Secrets.Translations.{}
use barbican.Secrets.World.{Project, Secret, TransportKey, Action, on_stores, on_device}
use barbican.Secrets.Crypto.{CryptoOps, StoreCryptoContext, generate_supports}
use barbican.Secrets.Crypto

pub data StorePlugin (B : Type 0) : Type 0 where
  adapter : StorePlugin B
  vendor : B → StorePlugin B

pub record VendorOps (B S : Type 0) : Type 0 where
  pub fullname : B → String
  pub store_secret_supports : B → KeySpec → Bool
  pub generate_supports : B → KeySpec → Bool
  pub get_transport_key : B → Option String
  pub is_transport_key_current : B → String → Bool
  pub store_secret : B → SecretDto → S → Result SecretError (Option Metadata) × S
  pub get_secret : B → SecretType → Metadata → S → Result SecretError SecretDto × S
  pub delete_secret : B → Metadata → S → Result SecretError Unit × S
  pub generate_symmetric_key : B → KeySpec → S → Result SecretError (Option Metadata) × S
  pub generate_asymmetric_key : B → KeySpec → S → Result SecretError AsymmetricKeyMetadataDto × S

abbrev pub adapter_name : String
adapter_name = "barbican.plugin.store_crypto.StoreCryptoAdapterPlugin"

-- What the manager asks of a plugin. The adapter has no get_transport_key.
abbrev pub store_ops : {B S : Type 0} → VendorOps B S → PluginOps (StorePlugin B) KeySpec
store_ops ops = record {
  fullname = λ p. elim p [ adapter ↦ adapter_name | vendor b ↦ ops.fullname b ];
  get_transport_key =
      λ p. elim p [ adapter ↦ raised attribute_error | vendor b ↦ ok (ops.get_transport_key b) ];
  store_secret_supports =
      λ p k. elim p [ adapter ↦ true | vendor b ↦ ops.store_secret_supports b k ];
  generate_supports =
      λ p k. elim p [ adapter ↦ generate_supports k | vendor b ↦ ok (ops.generate_supports b k) ];
}

abbrev pub key_spec_of : Secret → KeySpec
key_spec_of s = record {
  alg = s.algorithm;
  bit_length = s.bit_length;
  mode = s.mode;
  passphrase = none;
}

-- A row of the transport key table by its id.
unfoldable pub find_transport_key : ℕ → List TransportKey → Option TransportKey
unfolding first_such
find_transport_key i rows = first_such (λ k. k.id == i) rows

-- The metadata that goes to the table; None and {} become a new dict.
unfoldable pub with_plugin : Option Metadata → String → String → Metadata
unfolding dict_set
with_plugin none name content_type =
    dict_set "content_type" content_type (dict_set "plugin_name" name [])
with_plugin (some d) name content_type =
    dict_set "content_type" content_type (dict_set "plugin_name" name d)

abbrev pub is_nil {ℓ} : {A : Type ℓ} → List A → Bool
is_nil [] = true
is_nil (x ∷ xs) = false

abbrev pub context_for : Project → Option String → StoreCryptoContext
context_for project content_type = record {
  project_model = project;
  secret_model = none;
  private_secret_model = none;
  public_secret_model = none;
  passphrase_secret_model = none;
  content_type = content_type;
}

module _ {B C S : Type 0} (codec : Codec) (conf : PagingConf) (ops : VendorOps B S)
    (crypto : CryptoOps C S) (enabled : Bool) (db : Db) where
  -- TransportKeyRepo.get_latest_transport_key: what it returns is the list of rows.
  unfoldable pub get_latest_transport_key : String → Action (StorePlugin B) C S (List TransportKey)
  unfolding clean_paging_values page
  get_latest_transport_key plugin_name w =
      let rows = keep_if (λ k. str_eq k.plugin_name plugin_name) w.transport_keys in
      let (offset, limit) = clean_paging_values conf (int (pos 0)) (int (pos 1)) in
      if is_nil rows then (raised not_found, w) else (ok (page offset limit rows), w)

  abbrev pub get_transport_plugin :
      KeySpec
      → ℕ
      → Manager (StorePlugin B)
      → Result PluginError (StorePlugin B) × Manager (StorePlugin B)
  get_transport_plugin k i m = get_plugin_store (store_ops ops) enabled db k none true i m

  abbrev new_transport_key : String → Option String → Action (StorePlugin B) C S TransportKey
  new_transport_key name none w = (raised Data.missing_argument, w)
  new_transport_key name (some key) w =
      let k : TransportKey = record { id = w.next_id; plugin_name = name; transport_key = key } in
      (ok k, record w { next_id = suc w.next_id; transport_keys = w.transport_keys ++ k ∷ [] })

  -- `not key_model or not store_plugin.is_transport_key_current(key_model.transport_key)`: a list
  -- with rows is true, and it has no transport_key.
  abbrev pub current_or_new :
      StorePlugin B → List TransportKey → Action (StorePlugin B) C S TransportKey
  current_or_new p (k ∷ ks) = raise Data.attribute_error
  current_or_new adapter [] = raise Data.attribute_error
  current_or_new (vendor b) [] = new_transport_key (ops.fullname b) (ops.get_transport_key b)

  unfoldable pub get_transport_key_model :
      KeySpec → Bool → ℕ → Action (StorePlugin B) C S (Option TransportKey)
  unfolding get_plugin_store get_latest_transport_key
  get_transport_key_model k false i = pure none
  get_transport_key_model k true i = do
    p ← on_stores (get_transport_plugin k i)
    rows ← get_latest_transport_key ((store_ops ops).fullname p)
    key ← current_or_new p rows
    pure (some key)

  -- A plugin name is never None: the column is not nullable.
  unfoldable pub get_plugin_name_and_transport_key :
      Option ℕ → Action (StorePlugin B) C S (Option String × Option String)
  unfolding find_transport_key
  get_plugin_name_and_transport_key none = pure (none, none)
  get_plugin_name_and_transport_key (some i) = do
    found ← gets (λ w. find_transport_key i w.transport_keys)
    k ← lift (some_or found (provided_transport_key_not_found i))
    pure (some k.plugin_name, some k.transport_key)

  -- The metadata, and the secret as the plugin left it.
  unfoldable pub store_secret_using_plugin :
      StorePlugin B
      → SecretDto
      → Secret
      → Project
      → Action (StorePlugin B) C S (Option Metadata × Secret)
  unfolding Crypto.store_secret
  store_secret_using_plugin adapter dto secret project = do
    row ←
        Crypto.store_secret codec crypto enabled db dto
          (record (context_for project none) { secret_model = some secret })
    pure (none, row)
  store_secret_using_plugin (vendor b) dto secret project = do
    metadata ← on_device (ops.store_secret b dto)
    pure (metadata, secret)
