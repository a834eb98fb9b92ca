-- ===== src/Secrets/Crypto.antt =====
-- barbican/plugin/store_crypto.py: the adapter that stores secrets which a crypto plugin encrypts.
-- The crypto plugins (CryptoPluginBase of barbican/plugin/crypto/base.py) are the operations of
-- `CryptoOps`, on the state of their devices. The code gives an id to the secret models it is
-- handed; here they come back with it.
use barbican.Shared.{
  ℕ, String, Bool, true, false, not, Option, none, some, List, [], ◌∷◌, if◌then◌else◌,
}
use barbican.Shared.Result.{Result, ok, raised, some_or}
use barbican.Shared.Exec.{pure, raise, lift, gets, ◌>>=◌, ◌>>◌}
use barbican.Shared.Text.{codes, codes_in, lower}
use barbican.Plugins
use barbican.Plugins.{PluginError, Db, PluginOps}
use barbican.Plugins.Managers.{get_plugin_store_generate, get_plugin_retrieve}
use barbican.Secrets.Data.{
  Bytes, binary, has_text, SecretError, secret_not_found, algorithm_not_supported, kek_binding,
  not_base64, attribute_error, Codec, SecretType, KeySpec, SecretDto, KekMetaDto, GenerateDto,
  ResponseDto,
}
use barbican.Secrets.World.{
  Project, Secret, EncryptedDatum, KekDatum, World, Action, on_cryptos, on_device, create_secret,
  create_datum, find_or_create_kek_datum, save_kek, find_kek, data_of,
}

-- PluginSupportTypes
pub data SupportType : Type 0 where
  encrypt_decrypt symmetric_key_generation asymmetric_key_generation : SupportType

abbrev pub symmetric_algorithms : List String
symmetric_algorithms =
    "aes" ∷ "des" ∷ "3des" ∷ "hmacsha1" ∷ "hmacsha256" ∷ "hmacsha384" ∷ "hmacsha512" ∷ []

abbrev pub asymmetric_algorithms : List String
asymmetric_algorithms = "rsa" ∷ "dsa" ∷ []

-- KeyAlgorithm of secret_store.py
abbrev key_algorithms : List String
key_algorithms =
    "diffie_hellman" ∷ "dsa" ∷ "rsa" ∷ "ec" ∷ "aes" ∷ "des" ∷ "desede" ∷ "hmacsha1" ∷ "hmacsha256"
    ∷ "hmacsha384" ∷ "hmacsha512" ∷ []

pub record CryptoOps (C S : Type 0) : Type 0 where
  pub fullname : C → String
  pub supports : C → SupportType → Option String → Option ℕ → Option String → Bool
  pub encrypt : C → Bytes → KekMetaDto → String → S → Result SecretError ResponseDto × S
  pub decrypt : C → Bytes → KekMetaDto → Option String → String → S → Result SecretError Bytes × S
  pub bind_kek_metadata : C → KekMetaDto → S → Result SecretError (Option KekMetaDto) × S
  pub generate_symmetric :
      C → GenerateDto → KekMetaDto → String → S → Result SecretError ResponseDto × S
  pub generate_asymmetric :
      C
      → GenerateDto
      → KekMetaDto
      → String
      → S
      → Result SecretError (ResponseDto × (ResponseDto × Option ResponseDto)) × S

pub record StoreCryptoContext : Type 0 where
  pub project_model : Project
  pub secret_model : Option Secret
  pub private_secret_model : Option Secret
  pub public_secret_model : Option Secret
  pub passphrase_secret_model : Option Secret
  pub content_type : Option String

-- KEKMetaDTO(kek_datum)
abbrev pub kek_meta_of : KekDatum → KekMetaDto
kek_meta_of k = record {
  plugin_name = k.plugin_name;
  kek_label = k.kek_label;
  algorithm = k.algorithm;
  bit_length = k.bit_length;
  mode = k.mode;
  plugin_meta = k.plugin_meta;
}

unfoldable pub indicate_bind_completed : KekMetaDto → KekDatum → KekDatum
indicate_bind_completed dto k = record k {
  bind_completed = true;
  algorithm = dto.algorithm;
  bit_length = dto.bit_length;
  mode = dto.mode;
  plugin_meta = dto.plugin_meta;
}

unfoldable pub determine_generation_type : Option String → Result SecretError SupportType
determine_generation_type none = raised (algorithm_not_supported none)
determine_generation_type (some a) =
    if not (has_text (some a))
    then raised (algorithm_not_supported (some a))
    else if codes_in (lower (codes a)) symmetric_algorithms
    then ok symmetric_key_generation
    else if codes_in (lower (codes a)) asymmetric_algorithms
    then ok asymmetric_key_generation
    else raised (algorithm_not_supported (some a))

-- `None.lower()` raises where the key specification names no algorithm.
unfoldable pub generate_supports : KeySpec → Result PluginError Bool
generate_supports key_spec = elim key_spec.alg [
  | none ↦ raised Plugins.attribute_error
  | some a ↦ ok (codes_in (lower (codes a)) key_algorithms)
]

abbrev pub symmetric_only : Option String → SupportType → Result SecretError Unit
symmetric_only alg symmetric_key_generation = ok tt
symmetric_only alg asymmetric_key_generation = raised (algorithm_not_supported alg)
symmetric_only alg encrypt_decrypt = raised (algorithm_not_supported alg)

abbrev pub asymmetric_only : Option String → SupportType → Result SecretError Unit
asymmetric_only alg asymmetric_key_generation = ok tt
asymmetric_only alg symmetric_key_generation = raised (algorithm_not_supported alg)
asymmetric_only alg encrypt_decrypt = raised (algorithm_not_supported alg)

abbrev pub content_type_or : Option String → Option String → Option String
content_type_or c t = if has_text c then c else t

-- The manager asks a crypto plugin for its name only.
abbrev pub named : {C S : Type 0} → CryptoOps C S → PluginOps C Unit
named ops = record {
  fullname = ops.fullname;
  get_transport_key = λ _. ok none;
  store_secret_supports = λ _ _. true;
  generate_supports = λ _ _. ok true;
}

abbrev pub new_datum : Codec → StoreCryptoContext → ℕ → KekDatum → ResponseDto → EncryptedDatum
new_datum codec context i k dto = record {
  secret_id = i;
  kek_id = k.id;
  content_type = context.content_type;
  cypher_text = codec.b64encode dto.cypher_text;
  kek_meta_extended = dto.kek_meta_extended;
}

abbrev pub first_of : Secret → List EncryptedDatum → Result SecretError (Secret × EncryptedDatum)
first_of secret [] = raised secret_not_found
first_of secret (d ∷ ds) = ok (secret, d)

module _ {P C S : Type 0} (codec : Codec) (ops : CryptoOps C S) (enabled : Bool) (db : Db) where
  -- A key that is not bound yet is bound, and what the plugin makes of it is saved.
  abbrev pub bound_if : Bool → C → KekDatum → Action P C S (KekDatum × KekMetaDto)
  bound_if true plugin k = pure (k, kek_meta_of k)
  bound_if false plugin k = do
    answer ← on_device (ops.bind_kek_metadata plugin (kek_meta_of k))
    dto ← lift (some_or answer (kek_binding (ops.fullname plugin)))
    save_kek (indicate_bind_completed dto k)
    pure (indicate_bind_completed dto k, dto)

  unfoldable pub find_or_create_kek_objects : C → Project → Action P C S (KekDatum × KekMetaDto)
  unfolding find_or_create_kek_datum indicate_bind_completed save_kek
  find_or_create_kek_objects plugin project = do
    k ← find_or_create_kek_datum project (ops.fullname plugin)
    bound_if k.bind_completed plugin k

  abbrev pub with_id : Secret → ℕ → Option ℕ → Action P C S (Secret × ℕ)
  with_id secret project_id none = create_secret secret project_id
  with_id secret project_id (some i) = pure (secret, i)

  unfoldable pub store_secret_and_datum :
      StoreCryptoContext → Option Secret → KekDatum → ResponseDto → Action P C S Secret
  unfolding create_secret create_datum
  store_secret_and_datum context none k dto = raise attribute_error
  store_secret_and_datum context (some secret) k dto = do
    (row, i) ← with_id secret context.project_model.id secret.id
    create_datum (new_datum codec context i k dto)
    pure row

  -- The secret, with its id; the metadata of a secret stored here is None.
  unfoldable pub store_secret : SecretDto → StoreCryptoContext → Action P C S Secret
  unfolding find_or_create_kek_objects store_secret_and_datum
  store_secret secret_dto context = do
    plugin ← on_cryptos (
        get_plugin_store_generate (named ops) enabled db
          (λ p. ops.supports p encrypt_decrypt none none none) context.project_model.id)
    (k, dto) ← find_or_create_kek_objects plugin context.project_model
    bytes ← lift (some_or (codec.b64decode secret_dto.secret) not_base64)
    let context' = record context {
      content_type = content_type_or context.content_type secret_dto.content_type;
    }
    response ← on_device (ops.encrypt plugin bytes dto context.project_model.external_id)
    store_secret_and_datum context' context.secret_model k response

  abbrev pub datum_of :
      Secret → Option ℕ → World P C S → Result SecretError (Secret × EncryptedDatum)
  datum_of secret none w = raised secret_not_found
  datum_of secret (some i) w = first_of secret (data_of i w)

  -- The first encrypted datum of a secret, and the secret.
  abbrev pub first_datum :
      Option Secret → World P C S → Result SecretError (Secret × EncryptedDatum)
  first_datum none w = raised secret_not_found
  first_datum (some secret) w = datum_of secret secret.id w

  -- Without the secret's metadata, which the code does not read.
  unfoldable pub get_secret : SecretType → StoreCryptoContext → Action P C S SecretDto
  unfolding find_kek data_of
  get_secret secret_type context = do
    found ← gets (first_datum context.secret_model)
    (secret, datum) ← lift found
    kek ← gets (λ w. find_kek datum.kek_id w.keks)
    k ← lift (some_or kek attribute_error)
    plugin ← on_cryptos (get_plugin_retrieve (named ops) k.plugin_name)
    encrypted ← lift (some_or (codec.b64decode (binary datum.cypher_text)) not_base64)
    bytes ← on_device (
        ops.decrypt plugin encrypted (kek_meta_of k) datum.kek_meta_extended
          context.project_model.external_id)
    pure (record {
      type = secret_type;
      secret = binary (codec.b64encode bytes);
      key_spec = record {
        alg = secret.algorithm;
        bit_length = secret.bit_length;
        mode = secret.mode;
        passphrase = none;
      };
      content_type = datum.content_type;
      transport_key = none;
    })

  -- As above: the secret, and no metadata.
  unfoldable pub generate_symmetric_key : KeySpec → StoreCryptoContext → Action P C S Secret
  unfolding determine_generation_type find_or_create_kek_objects store_secret_and_datum
  generate_symmetric_key key_spec context = do
    plugin_type ← lift (determine_generation_type key_spec.alg)
    lift (symmetric_only key_spec.alg plugin_type)
    plugin ← on_cryptos (
        get_plugin_store_generate (named ops) enabled db
          (λ p. ops.supports p plugin_type key_spec.alg key_spec.bit_length key_spec.mode)
          context.project_model.id)
    (k, dto) ← find_or_create_kek_objects plugin context.project_model
    let generate_dto : GenerateDto = record {
      algorithm = key_spec.alg;
      bit_length = key_spec.bit_length;
      mode = key_spec.mode;
      passphrase = none;
    }
    response ←
        on_device (ops.generate_symmetric plugin generate_dto dto context.project_model.external_id)
    store_secret_and_datum context context.secret_model k response

  abbrev pub stored_passphrase :
      StoreCryptoContext
      → Option String
      → KekDatum
      → Option ResponseDto
      → Action P C S (Option Secret)
  stored_passphrase context passphrase k none = pure context.passphrase_secret_model
  stored_passphrase context passphrase k (some dto) =
      if has_text passphrase
      then (do
        row ← store_secret_and_datum context context.passphrase_secret_model k dto
        pure (some row))
      else pure context.passphrase_secret_model

  -- The private key, the public key, and the passphrase if there is one.
  unfoldable pub generate_asymmetric_key :
      KeySpec → StoreCryptoContext → Action P C S (Secret × (Secret × Option Secret))
  unfolding determine_generation_type find_or_create_kek_objects store_secret_and_datum
  generate_asymmetric_key key_spec context = do
    plugin_type ← lift (determine_generation_type key_spec.alg)
    lift (asymmetric_only key_spec.alg plugin_type)
    plugin ← on_cryptos (
        get_plugin_store_generate (named ops) enabled db
          (λ p. ops.supports p plugin_type key_spec.alg key_spec.bit_length none)
          context.project_model.id)
    (k, dto) ← find_or_create_kek_objects plugin context.project_model
    let generate_dto : GenerateDto = record {
      algorithm = key_spec.alg;
      bit_length = key_spec.bit_length;
      mode = none;
      passphrase = key_spec.passphrase;
    }
    (private_key_dto, (public_key_dto, passwd_dto)) ←
        on_device
          (ops.generate_asymmetric plugin generate_dto dto context.project_model.external_id)
    private_row ← store_secret_and_datum context context.private_secret_model k private_key_dto
    public_row ← store_secret_and_datum context context.public_secret_model k public_key_dto
    passphrase_row ← stored_passphrase context key_spec.passphrase k passwd_dto
    pure (private_row, (public_row, passphrase_row))
