-- ===== src/Secrets/RoundTrip.antt =====
-- A secret that is stored is got back: store_secret and get_secret of barbican/plugin/resources.py,
-- where the plugin that is chosen is the crypto adapter.
use mathlib.Core.Path.{subst}
use barbican.Shared.{
  Bool-cases, inl, inr, ℕ, String, ◌≡◌, refl, sym, ap, ◌∙◌, Bool, true, false, Option, none, some,
  [], ◌∷◌, ◌++◌, ◌≤◌, ◌⊎◌, if◌then◌else◌,
}
use barbican.Shared.Result.{ok}
use barbican.Shared.Exec.{lift, gets, ◌>>=◌}
use barbican.Plugins.{Db, get_active_plugins, lookup_name}
use barbican.Plugins.Managers.{get_plugin_store, get_plugin_retrieve_delete}
use barbican.Plugins.RoundTrip.{HasOwnNames, get_plugin_retrieve_delete-get_plugin_store}
use barbican.Paging.{PagingConf}
use barbican.Shared.Text.{text_in}
use barbican.Secrets.Data.{Bytes, Payload, has_payload, Codec, IsBase64, SecretDto, Metadata}
use barbican.Secrets.MimeTypes.{plain_text, is_supported}
use barbican.Secrets.MimeTypes
use barbican.Secrets.Normal.{Stored, plain, octet_stream, pkcs8}
use barbican.Secrets.Translations.{
  normalize_content_type, analyze_before_decryption, denormalize_after_decryption,
}
use barbican.Secrets.Forms.{
  IsText, taken_as_is, returned, normalized_payload, normalize_content_type-Stored,
  denormalize_after_decryption-normalize_before_encryption,
}
use barbican.Secrets.World.{
  Project, Secret, TransportKey, World, on_stores, get_metadata_for_secret,
}
use barbican.Secrets.Steps.{}
use barbican.Secrets.Crypto.{CryptoOps, StoreCryptoContext, named, new_datum}
use barbican.Secrets.Keks.{IsKeyed}
use barbican.Secrets.Encrypted.{IsCrypto, IdOf, get_secret-Encrypted}
use barbican.Secrets.Rows.{
  IsFresh, NoRows, secret_already_has_stored_data-NoRows, data_of_added,
  get_metadata_for_secret_added,
}
use barbican.Secrets.Resources.{
  StorePlugin, adapter, VendorOps, store_ops, adapter_name, key_spec_of, context_for,
}
use barbican.Secrets.Requests.{
  store_secret, store_payload, secret_already_has_stored_data, get_secret, get_secret_meta, meta_of,
  retrieve_plugin, get_secret_using_plugin,
}
use barbican.Secrets.Kept.{Kept, store_payload-Kept}

analyze-Stored : {t : String} → Stored t → analyze_before_decryption t ≡ ok tt
unfolding analyze_before_decryption is_supported MimeTypes.normalize_content_type
    MimeTypes.get_codes
analyze-Stored plain = refl
analyze-Stored octet_stream = refl
analyze-Stored pkcs8 = refl

module _ {B C S : Type 0} (codec : Codec) (conf : PagingConf) (ops : VendorOps B S)
    (crypto : CryptoOps C S) (enabled : Bool) (db : Db) where
  -- A payload of a text type is text.
  abbrev pub FitsType : Payload → String → Type 0
  FitsType p m =
      (t : String) → normalize_content_type m ≡ ok t → text_in t plain_text ≡ true → IsText p

  pub store_secret_payload :
      (p : Payload) (m : String) (enc : Option String) (secret row : Secret) (project : Project)
      (needed : Bool) (key : Option TransportKey) (w w' : World (StorePlugin B) C S)
      → has_payload p ≡ true
      → store_secret codec conf ops crypto enabled db (some p) m enc secret project needed none w
        ≡ (ok (row, key), w')
      → (secret_already_has_stored_data secret w ≡ false)
        × (store_payload codec conf ops crypto enabled db p m enc secret project none w
            ≡ (ok (row, key), w'))
  unfolding store_secret
  store_secret_payload p m enc secret row project needed key w w' has h =
      elim (Bool-cases (secret_already_has_stored_data secret w)) [
        | inl e ↦ cc (rw e at h)
        | inr e ↦ (e, rw (e, has) at h)
      ]

  -- The plugin that reads a secret with the adapter's name.
  retrieves :
      (w w' : World (StorePlugin B) C S) (secret : Secret) (project : Project) (d : Metadata)
      → HasOwnNames (store_ops ops) (get_active_plugins w.stores.extensions)
      → (get_plugin_store
          (store_ops ops)
          enabled
          db
          (key_spec_of secret)
          none
          false
          project.id
          w.stores).0
        ≡ ok adapter
      → w'.stores.extensions ≡ w.stores.extensions
      → lookup_name "plugin_name" d ≡ some adapter_name
      → (v : World (StorePlugin B) C S) × (on_stores
            (retrieve_plugin codec conf ops crypto enabled db (lookup_name "plugin_name" d))
            w'
          ≡ (ok adapter, v))
        × (v.encrypted_data ≡ w'.encrypted_data)
        × (v.keks ≡ w'.keks)
        × (v.cryptos.extensions ≡ w'.cryptos.extensions)
        × (v.device ≡ w'.device)
  unfolding on_stores
  retrieves w w' secret project d own chooses same named_d =
      let f = get_plugin_retrieve_delete (store_ops ops) adapter_name w'.stores in
      let found : f.0 ≡ ok adapter =
        get_plugin_retrieve_delete-get_plugin_store (store_ops ops) enabled db (key_spec_of secret)
          none false project.id w.stores w'.stores adapter same own chooses in
      (record w' { stores = f.1 }, rw (named_d, found), refl, refl, refl, refl)

  -- The metadata of the secret that was stored.
  metadata_of :
      (secret row : Secret) (i : ℕ) (t : String) (w w' : World (StorePlugin B) C S)
      → row.id ≡ some i
      → get_metadata_for_secret i w' ≡ ("plugin_name", adapter_name) ∷ ("content_type", t) ∷ []
      → get_secret_meta row w' ≡ ("plugin_name", adapter_name) ∷ ("content_type", t) ∷ []
  unfolding get_secret_meta
  metadata_of secret row i t w w' id h = ap (λ o. meta_of o w') id ∙ h

  -- A request with the type */*, from what the tables and the plugin give.
  get_secret_run :
      (row : Secret) (project : Project) (t : String) (dto : SecretDto) (p : Payload)
      (w' v : World (StorePlugin B) C S)
      → let d : Metadata = ("plugin_name", adapter_name) ∷ ("content_type", t) ∷ [] in
        get_secret_meta row w' ≡ d
        → analyze_before_decryption t ≡ ok tt
        → on_stores
            (retrieve_plugin codec conf ops crypto enabled db (lookup_name "plugin_name" d))
            w'
          ≡ (ok adapter, v)
        → (get_secret_using_plugin codec conf ops crypto enabled db adapter d row project v).0
          ≡ ok dto
        → denormalize_after_decryption codec dto.secret t ≡ ok p
        → (get_secret codec conf ops crypto enabled db "*/*" row project none w').0 ≡ ok p
  unfolding get_secret ◌>>=◌ gets lift lookup_name
  get_secret_run row project t dto p w' v m a r g n = rw (m, a, r, g, n) refl

  -- What comes back: the type, the bytes, and the payload.
  abbrev pub GotBack :
      IsBase64 codec
      → Payload
      → String
      → Option String
      → Secret
      → Project
      → World (StorePlugin B) C S
      → Type 0
  GotBack base64 p m enc row project w' =
      (t : String) × (bytes : Bytes) × (normalize_content_type m ≡ ok t)
      × (if taken_as_is codec base64 t enc
          then codec.b64decode p ≡ some bytes
          else bytes ≡ base64.content p)
      × ((get_secret codec conf ops crypto enabled db "*/*" row project none w').0
          ≡ ok (returned codec base64 t p bytes))

  -- Before it was stored, no row was the secret's.
  pub Kept-NoRows :
      (p : Payload) (m : String) (enc : Option String) (secret row : Secret) (project : Project)
      (w w' : World (StorePlugin B) C S)
      → IsFresh w
      → secret_already_has_stored_data secret w ≡ false
      → (k : Kept codec conf ops crypto enabled db p m enc secret row project w w') → NoRows k.id w
  Kept-NoRows p m enc secret row project w w' fresh empty k =
      let id_of : IdOf codec crypto enabled db secret k.id w =
        subst (λ n. (secret.id ≡ some k.id) ⊎ ((secret.id ≡ none) × (n ≤ k.id))) k.same_next
          k.encrypted.id_of in
      secret_already_has_stored_data-NoRows secret k.id w fresh id_of empty

  got_back :
      (p : Payload) (m : String) (enc : Option String) (secret row : Secret) (project : Project)
      (w w' : World (StorePlugin B) C S) (base64 : IsBase64 codec)
      → IsCrypto crypto
      → IsFresh w
      → HasOwnNames (store_ops ops) (get_active_plugins w.stores.extensions)
      → HasOwnNames (named crypto) (get_active_plugins w.cryptos.extensions)
      → (get_plugin_store
          (store_ops ops)
          enabled
          db
          (key_spec_of secret)
          none
          false
          project.id
          w.stores).0
        ≡ ok adapter
      → FitsType p m
      → secret_already_has_stored_data secret w ≡ false
      → Kept codec conf ops crypto enabled db p m enc secret row project w w'
      → GotBack base64 p m enc row project w'
  unfolding get_secret_using_plugin lookup_name
  got_back p m enc secret row project w w' base64 is fresh own crypto_own chooses fits empty k =
      let e = k.encrypted in
      let before = Kept-NoRows p m enc secret row project w w' fresh empty k in
      let metadata =
        metadata_of secret row k.id k.type w w' k.row_id
          (get_metadata_for_secret_added k.id w w' adapter_name k.type before k.metadata) in
      let (v, retrieved, d1, k1, c1, s1) =
        retrieves w w' secret project
          (("plugin_name", adapter_name) ∷ ("content_type", k.type) ∷ []) own chooses k.extensions
          refl in
      let datum = new_datum codec e.context k.id e.kek e.response in
      let stored =
        data_of_added k.id w v datum before refl
          (d1 ∙ k.data_kept ∙ e.encrypted_data ∙ ap (λ ds. ds ++ datum ∷ []) k.same_data) in
      let context : StoreCryptoContext = record (context_for project none) {
        secret_model = some row;
      } in
      let (dto, run, same) =
        get_secret-Encrypted codec crypto enabled db context row.secret_type secret row row
          k.payload k.bytes k.id k.chosen k.stored v e is base64
          (subst (λ m. HasOwnNames (named crypto) (get_active_plugins m.extensions))
            (sym k.same_cryptos) crypto_own)
          refl k.row_id stored (k1 ∙ k.keks_kept) (c1 ∙ ap (λ m. m.extensions) k.cryptos_kept)
          (s1 ∙ k.device_kept) in
      let (normal, _) =
        normalized_payload codec base64 p k.payload m k.type enc true k.normalizes in
      let (back, content) =
        denormalize_after_decryption-normalize_before_encryption codec base64 p k.payload m k.type
          enc true k.bytes (fits k.type normal) k.normalizes e.decodes in
      (
        k.type,
        k.bytes,
        normal,
        content,
        get_secret_run row project k.type dto (returned codec base64 k.type p k.bytes) w' v metadata
            (analyze-Stored (normalize_content_type-Stored m k.type normal)) retrieved run
            (ap (λ s. denormalize_after_decryption codec s k.type) same ∙ back),
      )

  -- A payload that the crypto adapter stored is got back: the type is the normal form of the one
  -- that was given; a text comes back as it was, and a payload of a binary type as its bytes, which
  -- are what its base64 decodes to where that encoding was given. It is so for a new secret and for
  -- one without data, in tables where identifiers are unique and new, if the plugins have names of
  -- their own, the crypto plugin decrypts what it has just encrypted, and base64 and UTF-8 decode
  -- what they encoded.
  pub get_secret-store_secret :
      (p : Payload) (m : String) (enc : Option String) (secret row : Secret) (project : Project)
      (needed : Bool) (key : Option TransportKey) (w w' : World (StorePlugin B) C S)
      → (base64 : IsBase64 codec) → IsCrypto crypto
      → IsFresh w
      → IsKeyed w.keks
      → HasOwnNames (store_ops ops) (get_active_plugins w.stores.extensions)
      → HasOwnNames (named crypto) (get_active_plugins w.cryptos.extensions)
      → (get_plugin_store
          (store_ops ops)
          enabled
          db
          (key_spec_of secret)
          none
          false
          project.id
          w.stores).0
        ≡ ok adapter
      → has_payload p ≡ true
      → FitsType p m
      → store_secret codec conf ops crypto enabled db (some p) m enc secret project needed none w
        ≡ (ok (row, key), w')
      → GotBack base64 p m enc row project w'
  get_secret-store_secret p m enc secret row project needed key w w' base64 is fresh keyed own
        crypto_own chooses has fits h =
      let (empty, run) = store_secret_payload p m enc secret row project needed key w w' has h in
      got_back p m enc secret row project w w' base64 is fresh own crypto_own chooses fits empty (
        store_payload-Kept codec conf ops crypto enabled db p m enc secret row project key w w' is
          keyed chooses run)
