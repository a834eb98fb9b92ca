-- ===== src/Secrets/Kept.antt =====
-- What a stored secret leaves in the tables: store_secret of barbican/plugin/resources.py, with a
-- payload, through the crypto adapter.
use mathlib.Core.Path.{subst}
use mathlib.Core.Option.{some_inj}
use barbican.Shared.{
  ℕ, String, ◌≡◌, refl, sym, ap, ◌∙◌, Bool, true, false, Option, none, some, List, ◌++◌,
}
use barbican.Shared.Result.{ok}
use barbican.Shared.Exec.{lift, pure, bind-run, run-bind, run-inj}
use barbican.Plugins.{Db}
use barbican.Plugins.Managers.{get_plugin_store}
use barbican.Plugins.RoundTrip.{ok-inj}
use barbican.Plugins.Kept.{get_plugin_store-extensions}
use barbican.Paging.{PagingConf}
use barbican.Secrets.Data.{Payload, Codec, SecretDto, Metadata}
use barbican.Secrets.Translations.{normalize_before_encryption}
use barbican.Secrets.World.{
  Project, Secret, TransportKey, World, on_stores, save_secret, save_metadata, metadata_rows,
  SecretStoreMetadatum,
}
use barbican.Secrets.Steps.{on_stores-run, lift-run, pure-run}
use barbican.Secrets.Crypto.{CryptoOps}
use barbican.Secrets.Crypto
use barbican.Secrets.Keks.{IsKeyed}
use barbican.Secrets.Encrypted.{IsCrypto, Encrypted, store_secret-Encrypted}
use barbican.Secrets.Resources.{
  StorePlugin, adapter, vendor, VendorOps, store_ops, adapter_name, key_spec_of, with_plugin,
  context_for, get_plugin_name_and_transport_key, store_secret_using_plugin,
}
use barbican.Secrets.Requests.{
  save_by_id, save_secret_in_repo, save_secret_metadata_in_repo, store_payload, store_with,
}

-- A field that neither the store manager nor the secret's row and its metadata touch, through the
-- steps before and after the plugin stores the payload.
before :
    {P C S X : Type 0} (F : World P C S → X) (w wa wb : World P C S)
    → w ≡ wa
    → record wa { stores = wb.stores } ≡ wb
    → F (record wa { stores = wb.stores }) ≡ F wa
    → F wb ≡ F w
before F w wa wb isa isb q = sym (ap F isb) ∙ q ∙ sym (ap F isa)

after :
    {P C S X : Type 0} (F : World P C S → X) (wc wd v w' : World P C S)
    → record wc { secrets = wd.secrets } ≡ wd
    → v ≡ w'
    → F (record wc { secrets = wd.secrets }) ≡ F wc
    → F v ≡ F wd
    → F w' ≡ F wc
after F wc wd v w' isd isv q r = sym (ap F isv) ∙ r ∙ sym (ap F isd) ∙ q

module _ {B C S : Type 0} (codec : Codec) (conf : PagingConf) (ops : VendorOps B S)
    (crypto : CryptoOps C S) (enabled : Bool) (db : Db) where
  -- A payload that was normalized, encrypted and entered in the tables.
  pub record Kept (p : Payload) (m : String) (enc : Option String) (secret row : Secret)
      (project : Project) (w w' : World (StorePlugin B) C S) : Type 0 where
    pub payload : Payload
    pub type : String
    pub normalizes : normalize_before_encryption codec p m enc true ≡ ok (payload, type)
    pub bytes : List ℕ
    pub id : ℕ
    -- the world when the plugin was chosen, and when the datum was stored
    pub chosen : World (StorePlugin B) C S
    pub stored : World (StorePlugin B) C S
    pub encrypted :
        Encrypted codec crypto enabled db project secret row payload bytes id chosen stored
    pub same_data : chosen.encrypted_data ≡ w.encrypted_data
    pub same_cryptos : chosen.cryptos ≡ w.cryptos
    pub same_next : chosen.next_id ≡ w.next_id
    pub same_keks : chosen.keks ≡ w.keks
    pub data_kept : w'.encrypted_data ≡ stored.encrypted_data
    pub keks_kept : w'.keks ≡ stored.keks
    pub cryptos_kept : w'.cryptos ≡ stored.cryptos
    pub device_kept : w'.device ≡ stored.device
    pub extensions : w'.stores.extensions ≡ w.stores.extensions
    pub row_id : row.id ≡ some id
    pub metadata : w'.metadata ≡ w.metadata ++ metadata_rows id (with_plugin none adapter_name type)

  -- A secret that has an id keeps it.
  save_by_id_kept :
      (row row' : Secret) (project : Project) (own : Option ℕ) (i j : ℕ)
      (w w' : World (StorePlugin B) C S)
      → own ≡ some i
      → save_by_id row project own w ≡ (ok (row', j), w')
      → (row ≡ row') × (i ≡ j) × (record w { secrets = w'.secrets } ≡ w')
  unfolding save_secret
  save_by_id_kept row row' project none i j w w' o h = cc
  save_by_id_kept row row' project (some k) i j w w' o h =
      let (u, w1, e1, h1) = bind-run (save_secret row k) (λ _. pure (row, k)) w (row', j) w' h in
      let (same, after) = pure-run (row, k) (row', j) w1 w' h1 in
      let all = (run-inj e1).1 ∙ after in
      (
        ap (λ q. q.0) same,
        sym (some_inj.0 o) ∙ ap (λ q. q.1) same,
        ap (λ (x : List Secret). record w { secrets = x })
              (sym (ap (λ (z : World (StorePlugin B) C S). z.secrets) all))
            ∙ all,
      )

  store_secret_using_plugin-Encrypted :
      (plugin : StorePlugin B) (dto : SecretDto) (secret row : Secret) (metadata : Option Metadata)
      (project : Project) (w w' : World (StorePlugin B) C S)
      → adapter ≡ plugin
      → IsCrypto crypto
      → IsKeyed w.keks
      → store_secret_using_plugin codec conf ops crypto enabled db plugin dto secret project w
        ≡ (ok (metadata, row), w')
      → (none ≡ metadata)
        × (bytes : List ℕ) × (i : ℕ) × Encrypted codec crypto enabled db project secret row
            dto.secret bytes i w w'
  unfolding store_secret_using_plugin
  store_secret_using_plugin-Encrypted (vendor b) dto secret row metadata project w w' a is keyed h =
      cc
  store_secret_using_plugin-Encrypted adapter dto secret row metadata project w w' a is keyed h =
      let context : Crypto.StoreCryptoContext = record (context_for project none) {
        secret_model = some secret;
      } in
      let (row1, w1, e1, h1) =
        bind-run (Crypto.store_secret codec crypto enabled db dto context) _ w (metadata, row) w'
          h in
      let (same, after) = pure-run (none, row1) (metadata, row) w1 w' h1 in
      let (bytes, i, e) =
        store_secret-Encrypted codec crypto enabled db dto context secret row1 w w1 is keyed refl
          e1 in
      (
        ap (λ q. q.0) same,
        bytes,
        i,
        subst (λ z. Encrypted codec crypto enabled db project secret row dto.secret bytes i w z)
            after
            (subst (λ z. Encrypted codec crypto enabled db project secret z dto.secret bytes i w w1)
              (ap (λ q. q.1) same) e),
      )

  -- The metadata rows that are added for a secret.
  abbrev rows_for : ℕ → Option Metadata → StorePlugin B → String → List SecretStoreMetadatum
  rows_for i metadata plugin t =
      metadata_rows i (with_plugin metadata ((store_ops ops).fullname plugin) t)

  kept :
      (p : Payload) (m : String) (enc : Option String) (secret row row1 : Secret)
      (project : Project) (payload : Payload) (t : String) (plugin : StorePlugin B)
      (metadata : Option Metadata) (bytes : List ℕ) (i j : ℕ)
      (w wa wb wc wd w' : World (StorePlugin B) C S)
      → normalize_before_encryption codec p m enc true ≡ ok (payload, t)
      → w ≡ wa
      → get_plugin_store
          (store_ops ops)
          enabled
          db
          (key_spec_of secret)
          none
          false
          project.id
          wa.stores
        ≡ (ok plugin, wb.stores)
      → record wa { stores = wb.stores } ≡ wb
      → adapter ≡ plugin
      → none ≡ metadata
      → Encrypted codec crypto enabled db project secret row1 payload bytes j wb wc
      → j ≡ i
      → record wc { secrets = wd.secrets } ≡ wd
      → row1 ≡ row
      → record wd { metadata = wd.metadata ++ rows_for i metadata plugin t } ≡ w'
      → Kept p m enc secret row project w w'
  kept p m enc secret row row1 project payload t plugin metadata bytes i j w wa wb wc wd w'
        normalizes isa got isb a no_metadata e ij isd same_row isv =
      let v : World (StorePlugin B) C S = record wd {
        metadata = wd.metadata ++ rows_for i metadata plugin t;
      } in
      let data1 = after (λ z. z.metadata) wc wd wd wd isd refl refl refl in
      record {
        payload = payload;
        type = t;
        normalizes = normalizes;
        bytes = bytes;
        id = j;
        chosen = wb;
        stored = wc;
        encrypted =
            subst (λ z. Encrypted codec crypto enabled db project secret z payload bytes j wb wc)
              same_row e;
        same_data = before (λ z. z.encrypted_data) w wa wb isa isb refl;
        same_cryptos = before (λ z. z.cryptos) w wa wb isa isb refl;
        same_next = before (λ z. z.next_id) w wa wb isa isb refl;
        same_keks = before (λ z. z.keks) w wa wb isa isb refl;
        data_kept = after (λ z. z.encrypted_data) wc wd v w' isd isv refl refl;
        keks_kept = after (λ z. z.keks) wc wd v w' isd isv refl refl;
        cryptos_kept = after (λ z. z.cryptos) wc wd v w' isd isv refl refl;
        device_kept = after (λ z. z.device) wc wd v w' isd isv refl refl;
        extensions =
            ap (λ m. m.extensions)
              (after (λ z. z.stores) wc wd v w' isd isv refl refl
                ∙ e.stores
                ∙ sym (ap (λ q. q.1) got))
            ∙ get_plugin_store-extensions (store_ops ops) enabled db (key_spec_of secret) none false
                project.id wa.stores
            ∙ ap (λ (z : World (StorePlugin B) C S). z.stores.extensions) (sym isa);
        row_id = subst (λ z. z.id ≡ some j) same_row e.row_id;
        metadata =
            sym (ap (λ (z : World (StorePlugin B) C S). z.metadata) isv)
            ∙ ap (λ ms. ms ++ rows_for i metadata plugin t)
                (data1 ∙ e.metadata ∙ before (λ z. z.metadata) w wa wb isa isb refl)
            ∙ ap (λ n. w.metadata ++ rows_for n metadata plugin t) (sym ij)
            ∙ ap (λ d. w.metadata ++ rows_for j d plugin t) (sym no_metadata)
            ∙ ap (λ pl. w.metadata ++ rows_for j none pl t) (sym a);
      }

  store_with-Kept :
      (p : Payload) (m : String) (enc : Option String) (secret row : Secret) (project : Project)
      (payload : Payload) (t : String) (plugin : StorePlugin B) (key : Option TransportKey)
      (w wa wb w' : World (StorePlugin B) C S)
      → IsCrypto crypto
      → IsKeyed w.keks
      → normalize_before_encryption codec p m enc true ≡ ok (payload, t)
      → w ≡ wa
      → get_plugin_store
          (store_ops ops)
          enabled
          db
          (key_spec_of secret)
          none
          false
          project.id
          wa.stores
        ≡ (ok plugin, wb.stores)
      → record wa { stores = wb.stores } ≡ wb
      → adapter ≡ plugin
      → store_with codec conf ops crypto enabled db plugin payload t none secret project wb
        ≡ (ok (row, key), w')
      → Kept p m enc secret row project w w'
  unfolding save_secret_in_repo save_secret_metadata_in_repo save_metadata
  store_with-Kept p m enc secret row project payload t plugin key w wa wb w' is keyed normalizes isa
        got isb a h =
      let dto : SecretDto = record {
        type = secret.secret_type;
        secret = payload;
        key_spec = key_spec_of secret;
        content_type = some t;
        transport_key = none;
      } in
      let ((metadata, row1), wc, ec, hc) =
        bind-run
          (store_secret_using_plugin codec conf ops crypto enabled db plugin dto secret project) _
          wb (row, key) w' h in
      let ((row2, i), wd, ed, hd) =
        bind-run (save_secret_in_repo row1 project) _ wc (row, key) w' hc in
      let (u, we, ee, he) =
        bind-run (save_secret_metadata_in_repo codec conf ops crypto enabled db i metadata plugin t)
          _ wd (row, key) w' hd in
      let (no_metadata, bytes, j, e) =
        store_secret_using_plugin-Encrypted plugin dto secret row1 metadata project wb wc a is
          (subst IsKeyed (sym (before (λ z. z.keks) w wa wb isa isb refl)) keyed) ec in
      let (same1, ij, isd) = save_by_id_kept row1 row2 project row1.id j i wc wd e.row_id ed in
      let (same2, isw) = pure-run (row2, none) (row, key) we w' he in
      kept p m enc secret row row1 project payload t plugin metadata bytes i j w wa wb wc wd w'
        normalizes isa got isb a no_metadata e ij isd (same1 ∙ ap (λ q. q.0) same2)
        ((run-inj ee).1 ∙ isw)

  pub store_payload-Kept :
      (p : Payload) (m : String) (enc : Option String) (secret row : Secret) (project : Project)
      (key : Option TransportKey) (w w' : World (StorePlugin B) C S)
      → IsCrypto crypto
      → IsKeyed w.keks
      → (get_plugin_store
          (store_ops ops)
          enabled
          db
          (key_spec_of secret)
          none
          false
          project.id
          w.stores).0
        ≡ ok adapter
      → store_payload codec conf ops crypto enabled db p m enc secret project none w
        ≡ (ok (row, key), w')
      → Kept p m enc secret row project w w'
  unfolding get_plugin_name_and_transport_key pure
  store_payload-Kept p m enc secret row project key w w' is keyed chooses h =
      let choice = λ (z : World (StorePlugin B) C S).
        get_plugin_store (store_ops ops) enabled db (key_spec_of secret) none false project.id
          z.stores in
      let rest =
        sym (
          run-bind (get_plugin_name_and_transport_key codec conf ops crypto enabled db none) _ w w
            (none, none) refl)
        ∙ h in
      let ((payload, t), wa, ea, ha) =
        bind-run (lift (normalize_before_encryption codec p m enc true)) _ w (row, key) w' rest in
      let (normalizes, isa) = lift-run _ (payload, t) w wa ea in
      let (plugin, wb, eb, hb) =
        bind-run
          (on_stores (
            get_plugin_store (store_ops ops) enabled db (key_spec_of secret) none false project.id))
          _ wa (row, key) w' ha in
      let (got, isb) = on_stores-run _ plugin wa wb eb in
      let a : adapter ≡ plugin =
        ok-inj (sym chooses ∙ ap (λ z. (choice z).0) isa ∙ ap (λ q. q.0) got) in
      store_with-Kept p m enc secret row project payload t plugin key w wa wb w' is keyed normalizes
        isa got isb a hb
