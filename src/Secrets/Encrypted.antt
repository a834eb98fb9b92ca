-- ===== src/Secrets/Encrypted.antt =====
-- What the crypto adapter stores, and how it comes back: store_secret and get_secret of
-- barbican/plugin/store_crypto.py.
use mathlib.Core.Path.{subst}
use mathlib.Core.Option.{some_inj}
use barbican.Shared.{
  eq_iff, inl, inr, ℕ, suc, String, ◌≡◌, refl, sym, ap, ◌∙◌, ◌⊎◌, Bool, true, Option, none, some,
  List, [], ◌∷◌, ◌++◌, ◌≤◌, arith,
}
use barbican.Shared.Result.{ok, some_or}
use barbican.Shared.Exec.{lift, pure, gets, ◌>>=◌, bind-run, run-inj}
use barbican.Plugins.{Db, get_active_plugins}
use barbican.Plugins.Managers.{get_plugin_store_generate, get_plugin_retrieve}
use barbican.Plugins.RoundTrip.{HasOwnNames}
use barbican.Plugins.Kept.{
  get_plugin_store_generate-extensions, get_plugin_retrieve-get_plugin_store_generate,
}
use barbican.Secrets.Data.{
  Bytes, Payload, binary, not_base64, Codec, IsBase64, SecretType, SecretDto, KekMetaDto,
  ResponseDto,
}
use barbican.Secrets.World.{
  Project, Secret, EncryptedDatum, KekDatum, World, on_cryptos, on_device, create_secret,
  create_datum, find_kek, is_active_kek, data_of,
}
use barbican.Secrets.Steps.{on_device-run, on_cryptos-run, lift-run, pure-run, some_or_run}
use barbican.Secrets.Crypto.{
  CryptoOps, StoreCryptoContext, encrypt_decrypt, kek_meta_of, named, new_datum, with_id,
  find_or_create_kek_objects, store_secret_and_datum, store_secret, get_secret, first_datum,
  first_of, datum_of, content_type_or,
}
use barbican.Secrets.Keks.{IsKeyed, Untouched, keep_if_singleton}
use barbican.Secrets.Binding.{KeepsLabel, IsBound, find_or_create_kek_objects-IsBound}

-- What a crypto plugin promises: it keeps the labels of keys, and it decrypts what it has just
-- encrypted.
pub record IsCrypto {C S : Type 0} (ops : CryptoOps C S) : Type 0 where
  pub keeps : KeepsLabel ops
  pub decrypt-encrypt :
      (plugin : C) (b : Bytes) (dto : KekMetaDto) (external_id : String) (r : ResponseDto)
      (s s' : S)
      → ops.encrypt plugin b dto external_id s ≡ (ok r, s')
      → (ops.decrypt plugin r.cypher_text dto r.kek_meta_extended external_id s').0 ≡ ok b

named_of :
    (project_id : ℕ) (name : String) (k : KekDatum)
    → is_active_kek project_id name k ≡ true
    → k.plugin_name ≡ name
named_of project_id name k h = ground (arith, eq_iff k.plugin_name name)

-- A field of the world that neither a device nor the crypto manager touches, through the steps of
-- store_secret.
carried :
    {P C S X : Type 0} (F : World P C S → X) (w w1 w2 w3 w4 w5 : World P C S)
    → record w { cryptos = w1.cryptos } ≡ w1
    → w2 ≡ w3
    → record w3 { device = w4.device } ≡ w4
    → F (record w { cryptos = w1.cryptos }) ≡ F w
    → F w2 ≡ F w1
    → F (record w3 { device = w4.device }) ≡ F w3
    → F w5 ≡ F w4
    → F w5 ≡ F w
carried F w w1 w2 w3 w4 w5 is1 is3 is4 q1 p2 q4 p5 =
    p5 ∙ sym (ap F is4) ∙ q4 ∙ sym (ap F is3) ∙ p2 ∙ sym (ap F is1) ∙ q1

module _ {P C S : Type 0} (codec : Codec) (ops : CryptoOps C S) (enabled : Bool) (db : Db) where
  -- An identifier is the secret's own, or a new one.
  abbrev pub IdOf : Secret → ℕ → World P C S → Type 0
  IdOf secret i w = (secret.id ≡ some i) ⊎ ((secret.id ≡ none) × (w.next_id ≤ i))

  -- A secret that the adapter stored.
  pub record Encrypted (project : Project) (secret row : Secret) (payload : Payload) (bytes : Bytes)
      (i : ℕ) (w w' : World P C S) : Type 0 where
    pub plugin : C
    pub kek : KekDatum
    pub response : ResponseDto
    pub context : StoreCryptoContext
    pub before : S
    pub row_id : row.id ≡ some i
    pub id_of : IdOf secret i w
    pub decodes : codec.b64decode payload ≡ some bytes
    pub chosen :
        (get_plugin_store_generate
          (named ops)
          enabled
          db
          (λ p. ops.supports p encrypt_decrypt none none none)
          project.id
          w.cryptos).0
        ≡ ok plugin
    pub extensions : w'.cryptos.extensions ≡ w.cryptos.extensions
    pub encrypts :
        ops.encrypt plugin bytes (kek_meta_of kek) project.external_id before
        ≡ (ok response, w'.device)
    pub found : find_kek kek.id w'.keks ≡ some kek
    pub named_kek : kek.plugin_name ≡ ops.fullname plugin
    pub encrypted_data :
        w'.encrypted_data ≡ w.encrypted_data ++ new_datum codec context i kek response ∷ []
    pub metadata : w'.metadata ≡ w.metadata
    pub stores : w'.stores ≡ w.stores

  -- A secret with an id, in a world where nothing else is new.
  record Created (secret row : Secret) (i : ℕ) (w w' : World P C S) : Type 0 where
    pub row_id : row.id ≡ some i
    pub id_of : IdOf secret i w
    pub untouched : Untouched w w'
    pub keks : w'.keks ≡ w.keks
    pub device : w'.device ≡ w.device

  with_id-Created :
      (secret : Secret) (project_id : ℕ) (own : Option ℕ) (row : Secret) (i : ℕ)
      (w w' : World P C S)
      → secret.id ≡ own
      → with_id codec ops enabled db secret project_id own w ≡ (ok (row, i), w')
      → Created secret row i w w'
  unfolding create_secret
  with_id-Created secret project_id none row i w w' e h =
      let (same, after) = run-inj h in
      let made : Secret = record secret { id = some w.next_id; project_id = some project_id } in
      let v : World P C S = record w {
        next_id = suc w.next_id;
        secrets = w.secrets ++ made ∷ [];
      } in
      let base : Created secret made w.next_id w v = record {
        row_id = refl;
        id_of = inr (e, omega arith);
        untouched = record {
          encrypted_data = refl;
          metadata = refl;
          stores = refl;
          cryptos = refl;
          grows = omega arith;
        };
        keks = refl;
        device = refl;
      } in
      subst (λ z. Created secret row i w z) after
        (subst (λ (p : Secret × ℕ). Created secret p.0 p.1 w v) same base)
  with_id-Created secret project_id (some j) row i w w' e h =
      let (same, after) = pure-run (secret, j) (row, i) w w' h in
      let base : Created secret secret j w w = record {
        row_id = e;
        id_of = inl e;
        untouched = record {
          encrypted_data = refl;
          metadata = refl;
          stores = refl;
          cryptos = refl;
          grows = omega arith;
        };
        keks = refl;
        device = refl;
      } in
      subst (λ z. Created secret row i w z) after
        (subst (λ (p : Secret × ℕ). Created secret p.0 p.1 w w) same base)

  store_secret_and_datum-Created :
      (context : StoreCryptoContext) (model : Option Secret) (secret row : Secret) (k : KekDatum)
      (r : ResponseDto) (w w' : World P C S)
      → model ≡ some secret
      → store_secret_and_datum codec ops enabled db context model k r w ≡ (ok row, w')
      → (i : ℕ) × (w1 : World P C S) × Created secret row i w w1
        × (record w1 { encrypted_data = w1.encrypted_data ++ new_datum codec context i k r ∷ [] }
            ≡ w')
  unfolding store_secret_and_datum create_datum
  store_secret_and_datum-Created context none secret row k r w w' m h = cc
  store_secret_and_datum-Created context (some secret') secret row k r w w' m h =
      let ((row1, i), w1, e1, h1) =
        bind-run (with_id codec ops enabled db secret' context.project_model.id secret'.id) _ w row
          w' h in
      let (u, w2, e2, h2) =
        bind-run (create_datum (new_datum codec context i k r)) _ w1 row w' h1 in
      let (same, after) = pure-run row1 row w2 w' h2 in
      let c = with_id-Created secret' context.project_model.id secret'.id row1 i w w1 refl e1 in
      (
        i,
        w1,
        subst (λ z. Created z row i w w1) (some_inj.0 m)
            (subst (λ z. Created secret' z i w w1) same c),
        (run-inj e2).1 ∙ after,
      )

  IdOf-earlier :
      (secret : Secret) (i : ℕ) (w w4 : World P C S)
      → w.next_id ≤ w4.next_id
      → IdOf secret i w4
      → IdOf secret i w
  IdOf-earlier secret i w w4 h (inl own) = inl own
  IdOf-earlier secret i w w4 h (inr (e, le)) = inr (e, omega arith)

  -- The steps of store_secret, put together: the choice of the plugin (w1), its key (w2), the
  -- payload's bytes (w3), the encryption (w4), the secret's row (w5) and the datum (w').
  encrypted :
      (context context' : StoreCryptoContext) (secret row : Secret) (payload : Payload) (plugin : C)
      (k : KekDatum) (meta : KekMetaDto) (bytes : Bytes) (response : ResponseDto) (i : ℕ)
      (w w1 w2 w3 w4 w5 w' : World P C S)
      → let project = context.project_model in
        get_plugin_store_generate
            (named ops)
            enabled
            db
            (λ p. ops.supports p encrypt_decrypt none none none)
            project.id
            w.cryptos
          ≡ (ok plugin, w1.cryptos)
        → record w { cryptos = w1.cryptos } ≡ w1
        → IsBound codec ops enabled db project plugin k meta w1 w2
        → find_kek k.id w2.keks ≡ some k
        → codec.b64decode payload ≡ some bytes
        → w2 ≡ w3
        → ops.encrypt plugin bytes meta project.external_id w3.device ≡ (ok response, w4.device)
        → record w3 { device = w4.device } ≡ w4
        → Created secret row i w4 w5
        → record w5 {
          encrypted_data = w5.encrypted_data ++ new_datum codec context' i k response ∷ [];
        }
          ≡ w'
        → Encrypted project secret row payload bytes i w w'
  encrypted context context' secret row payload plugin k meta bytes response i w w1 w2 w3 w4 w5 w'
        got is1 b finds decoded is3 encrypts is4 c is5 =
      let project = context.project_model in
      let u = b.found.untouched in
      let t = c.untouched in
      let next4 : w.next_id ≤ w4.next_id =
        (let g = u.grows in
          let n1 = ap (λ (z : World P C S). z.next_id) is1 in
          let n3 = ap (λ (z : World P C S). z.next_id) is3 in
          let n4 = ap (λ (z : World P C S). z.next_id) is4 in omega arith) in
      let cryptos1 =
        sym (ap (λ (z : World P C S). z.cryptos) is5)
        ∙ t.cryptos
        ∙ sym (ap (λ (z : World P C S). z.cryptos) is4)
        ∙ sym (ap (λ (z : World P C S). z.cryptos) is3)
        ∙ u.cryptos in
      let keks2 =
        sym (ap (λ (z : World P C S). z.keks) is5)
        ∙ c.keks
        ∙ sym (ap (λ (z : World P C S). z.keks) is4)
        ∙ sym (ap (λ (z : World P C S). z.keks) is3) in
      let active =
        keep_if_singleton (is_active_kek project.id (ops.fullname plugin)) w2.keks k
          b.found.active in
      let answered = λ (m : KekMetaDto) (d : S).
        ops.encrypt plugin bytes m project.external_id w3.device ≡ (ok response, d) in
      record {
        plugin = plugin;
        kek = k;
        response = response;
        context = context';
        before = w3.device;
        row_id = c.row_id;
        id_of = IdOf-earlier secret i w w4 next4 c.id_of;
        decodes = decoded;
        chosen = ap (λ p. p.0) got;
        extensions =
            ap (λ m. m.extensions) (cryptos1 ∙ sym (ap (λ p. p.1) got))
            ∙ get_plugin_store_generate-extensions (named ops) enabled db _ project.id w.cryptos;
        encrypts =
            subst (answered (kek_meta_of k)) (sym c.device ∙ ap (λ (z : World P C S). z.device) is5)
              (subst (λ m. answered m w4.device) b.meta encrypts);
        found = subst (λ rows. find_kek k.id rows ≡ some k) (sym keks2) finds;
        named_kek = named_of project.id (ops.fullname plugin) k active;
        encrypted_data =
            sym (ap (λ (z : World P C S). z.encrypted_data) is5)
            ∙ ap (λ ds. ds ++ new_datum codec context' i k response ∷ [])
                (carried (λ z. z.encrypted_data) w w1 w2 w3 w4 w5 is1 is3 is4 refl u.encrypted_data
                  refl t.encrypted_data);
        metadata =
            sym (ap (λ (z : World P C S). z.metadata) is5)
            ∙ carried (λ z. z.metadata) w w1 w2 w3 w4 w5 is1 is3 is4 refl u.metadata refl
                t.metadata;
        stores =
            sym (ap (λ (z : World P C S). z.stores) is5)
            ∙ carried (λ z. z.stores) w w1 w2 w3 w4 w5 is1 is3 is4 refl u.stores refl t.stores;
      }

  pub store_secret-Encrypted :
      (dto : SecretDto) (context : StoreCryptoContext) (secret row : Secret) (w w' : World P C S)
      → IsCrypto ops
      → IsKeyed w.keks
      → context.secret_model ≡ some secret
      → store_secret codec ops enabled db dto context w ≡ (ok row, w')
      → (bytes : Bytes) × (i : ℕ) × Encrypted context.project_model secret row dto.secret bytes i w
          w'
  unfolding store_secret
  store_secret-Encrypted dto context secret row w w' is keyed e h =
      let context' : StoreCryptoContext = record context {
        content_type = content_type_or context.content_type dto.content_type;
      } in
      let (plugin, w1, e1, h1) = bind-run (on_cryptos _) _ w row w' h in
      let ((k, meta), w2, e2, h2) =
        bind-run (find_or_create_kek_objects codec ops enabled db plugin context.project_model) _ w1
          row w' h1 in
      let (bytes, w3, e3, h3) =
        bind-run (lift (some_or (codec.b64decode dto.secret) not_base64)) _ w2 row w' h2 in
      let (response, w4, e4, h4) =
        bind-run (on_device (ops.encrypt plugin bytes meta context.project_model.external_id)) _ w3
          row w' h3 in
      let (got, is1) = on_cryptos-run _ plugin w w1 e1 in
      let b =
        find_or_create_kek_objects-IsBound codec ops enabled db context.project_model plugin k meta
          w1 w2 is.keeps e2 in
      let (unique, finds) =
        b.found.keyed (subst IsKeyed (ap (λ (z : World P C S). z.keks) is1) keyed) in
      let (decoded, is3) = lift-run _ bytes w2 w3 e3 in
      let (encrypts, is4) = on_device-run _ response w3 w4 e4 in
      let (i, w5, c, is5) =
        store_secret_and_datum-Created context' context.secret_model secret row k response w4 w' e
          h4 in
      (
        bytes,
        i,
        encrypted context context' secret row dto.secret plugin k meta bytes response i w w1 w2 w3
            w4 w5 w' got is1 b finds (some_or_run _ _ bytes decoded) is3 encrypts is4 c is5,
      )

  -- The first datum of a secret.
  first_datum_lem :
      (secret : Secret) (i : ℕ) (v : World P C S) (d : EncryptedDatum) (ds : List EncryptedDatum)
      → secret.id ≡ some i
      → data_of i v ≡ d ∷ ds
      → first_datum codec ops enabled db (some secret) v ≡ ok (secret, d)
  first_datum_lem secret i v d ds e h =
      ap (λ o. datum_of codec ops enabled db secret o v) e ∙ ap (first_of secret) h

  -- What the adapter gets for a secret that it has stored.
  pub get_secret-Encrypted :
      (context : StoreCryptoContext) (type : SecretType) (secret row reader : Secret)
      (payload : Payload) (bytes : Bytes) (i : ℕ) (w w' v : World P C S)
      (e : Encrypted context.project_model secret row payload bytes i w w')
      → IsCrypto ops
      → (base64 : IsBase64 codec)
      → HasOwnNames (named ops) (get_active_plugins w.cryptos.extensions)
      → context.secret_model ≡ some reader
      → reader.id ≡ some i
      → data_of i v ≡ new_datum codec e.context i e.kek e.response ∷ []
      → v.keks ≡ w'.keks
      → v.cryptos.extensions ≡ w'.cryptos.extensions
      → v.device ≡ w'.device
      → (dto : SecretDto) × ((get_secret codec ops enabled db type context v).0 ≡ ok dto)
        × (dto.secret ≡ binary (codec.b64encode bytes))
  unfolding get_secret ◌>>=◌ gets lift pure on_cryptos on_device
  get_secret-Encrypted context type secret row reader payload bytes i w w' v e is base64 own model
        id stored keks cryptos device =
      let first = first_datum_lem reader i v _ _ id stored in
      let retrieved : get_plugin_retrieve (named ops) e.kek.plugin_name v.cryptos
          ≡ (ok e.plugin, v.cryptos) =
        ap (λ n. get_plugin_retrieve (named ops) n v.cryptos) e.named_kek
        ∙ get_plugin_retrieve-get_plugin_store_generate (named ops) enabled db _
            context.project_model.id w.cryptos v.cryptos e.plugin (cryptos ∙ e.extensions) own
            e.chosen in
      let finds : find_kek e.kek.id v.keks ≡ some e.kek = ap (find_kek e.kek.id) keks ∙ e.found in
      let decrypts =
        is.decrypt-encrypt e.plugin bytes (kek_meta_of e.kek) context.project_model.external_id
          e.response e.before w'.device e.encrypts in
      rw
        (
          model,
          first,
          finds,
          retrieved,
          base64.b64decode-b64encode e.response.cypher_text,
          device,
          decrypts,
        )
        (_, refl, refl)
