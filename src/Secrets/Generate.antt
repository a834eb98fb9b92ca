-- ===== src/Secrets/Generate.antt =====
-- Keys that a plugin generates: generate_secret and generate_asymmetric_secret of
-- barbican/plugin/resources.py.
use barbican.Shared.{ℕ, String, Bool, Option, none, some, if◌then◌else◌}
use barbican.Shared.Exec.{pure, ◌>>=◌, ◌>>◌}
use barbican.Shared.Text.{codes, lower}
use barbican.Plugins.{Db}
use barbican.Plugins.Managers.{get_plugin_generate}
use barbican.Paging.{PagingConf}
use barbican.Secrets.Data.{
  has_text, Codec, symmetric, public, private, passphrase, KeySpec, Metadata,
  AsymmetricKeyMetadataDto,
}
use barbican.Secrets.World.{
  Project, Secret, Container, Action, on_stores, on_device, create_container,
}
use barbican.Secrets.Crypto.{CryptoOps, StoreCryptoContext}
use barbican.Secrets.Crypto
use barbican.Secrets.Resources.{StorePlugin, adapter, vendor, VendorOps, store_ops, context_for}
use barbican.Secrets.Requests.{
  Spec, new_secret, save_secret_in_repo, save_secret_metadata_in_repo,
  create_container_secret_association,
}

module _ {B C S : Type 0} (codec : Codec) (conf : PagingConf) (ops : VendorOps B S)
    (crypto : CryptoOps C S) (enabled : Bool) (db : Db) where
  abbrev Plugin : Type 0
  Plugin = StorePlugin B

  unfoldable pub generate_symmetric_key :
      StorePlugin B
      → KeySpec
      → Secret
      → Project
      → String
      → Action (StorePlugin B) C S (Option Metadata × Secret)
  unfolding Crypto.generate_symmetric_key
  generate_symmetric_key adapter key_spec secret project content_type = do
    row ←
        Crypto.generate_symmetric_key codec crypto enabled db key_spec
          (record (context_for project (some content_type)) { secret_model = some secret })
    pure (none, row)
  generate_symmetric_key (vendor b) key_spec secret project content_type = do
    metadata ← on_device (ops.generate_symmetric_key b key_spec)
    pure (metadata, secret)

  unfoldable pub generate_secret : Spec → String → Project → Action (StorePlugin B) C S Secret
  unfolding get_plugin_generate new_secret generate_symmetric_key save_secret_in_repo
      save_secret_metadata_in_repo
  generate_secret spec content_type project = do
    let key_spec : KeySpec = record {
      alg = some spec.algorithm;
      bit_length = spec.bit_length;
      mode = spec.mode;
      passphrase = none;
    }
    plugin ← on_stores (get_plugin_generate (store_ops ops) enabled db key_spec project.id)
    (metadata, secret) ←
        generate_symmetric_key plugin key_spec (new_secret spec symmetric) project content_type
    (row, i) ← save_secret_in_repo secret project
    save_secret_metadata_in_repo codec conf ops crypto enabled db i metadata plugin content_type
    pure row

  -- The metadata of the parts, and the parts: private key, public key, passphrase.
  unfoldable pub generate_asymmetric_key :
      StorePlugin B
      → KeySpec
      → Secret
      → Secret
      → Option Secret
      → Project
      → String
      → Action (StorePlugin B) C S (AsymmetricKeyMetadataDto × (Secret × (Secret × Option Secret)))
  unfolding Crypto.generate_asymmetric_key
  generate_asymmetric_key adapter key_spec private_s public_s passphrase_s project content_type = do
    rows ←
        Crypto.generate_asymmetric_key codec crypto enabled db key_spec
          (record (context_for project (some content_type)) {
            private_secret_model = some private_s;
            public_secret_model = some public_s;
            passphrase_secret_model = passphrase_s;
          })
    pure (record { private_key_meta = none; public_key_meta = none; passphrase_meta = none }, rows)
  generate_asymmetric_key (vendor b) key_spec private_s public_s passphrase_s project content_type =
      do
        metadata ← on_device (ops.generate_asymmetric_key b key_spec)
        pure (metadata, (private_s, (public_s, passphrase_s)))

  -- A secret and its metadata are saved; the id of the secret.
  abbrev saved :
      StorePlugin B → Project → String → Secret → Option Metadata → Action (StorePlugin B) C S ℕ
  saved plugin project content_type secret metadata = do
    (row, i) ← save_secret_in_repo secret project
    save_secret_metadata_in_repo codec conf ops crypto enabled db i metadata plugin content_type
    pure i

  abbrev saved_passphrase :
      StorePlugin B
      → Project
      → String
      → Option Secret
      → Option Metadata
      → Action (StorePlugin B) C S (Option ℕ)
  saved_passphrase plugin project content_type none metadata = pure none
  saved_passphrase plugin project content_type (some secret) metadata = do
    i ← saved plugin project content_type secret metadata
    pure (some i)

  abbrev passphrase_association : Option ℕ → Container → Action (StorePlugin B) C S Unit
  passphrase_association none container = pure tt
  passphrase_association (some i) container =
      create_container_secret_association "private_key_passphrase" i container

  unfoldable pub save_asymmetric_secret_in_repo :
      Container → ℕ → ℕ → Option ℕ → Action (StorePlugin B) C S Unit
  unfolding create_container_secret_association
  save_asymmetric_secret_in_repo container private_id public_id passphrase_id = do
    create_container_secret_association "private_key" private_id container
    create_container_secret_association "public_key" public_id container
    passphrase_association passphrase_id container

  unfoldable pub generate_asymmetric_secret :
      Spec → String → Project → Action (StorePlugin B) C S Container
  unfolding get_plugin_generate new_secret generate_asymmetric_key save_secret_in_repo
      save_secret_metadata_in_repo create_container save_asymmetric_secret_in_repo
  generate_asymmetric_secret spec content_type project = do
    let key_spec : KeySpec = record {
      alg = some spec.algorithm;
      bit_length = spec.bit_length;
      mode = none;
      passphrase = spec.passphrase;
    }
    plugin ← on_stores (get_plugin_generate (store_ops ops) enabled db key_spec project.id)
    (dto, (private_s, (public_s, passphrase_s))) ←
        generate_asymmetric_key plugin key_spec (new_secret spec private) (new_secret spec public)
          (if has_text spec.passphrase then some (new_secret spec passphrase) else none) project
          content_type
    private_id ← saved plugin project content_type private_s dto.private_key_meta
    public_id ← saved plugin project content_type public_s dto.public_key_meta
    passphrase_id ← saved_passphrase plugin project content_type passphrase_s dto.passphrase_meta
    container ← create_container spec.name (lower (codes spec.algorithm)) project.id spec.creator_id
    save_asymmetric_secret_in_repo container private_id public_id passphrase_id
    pure container
