-- ===== src/Secrets/Removal.antt =====
-- What delete_secret of barbican/plugin/resources.py removes.
use mathlib.Core.Option.{some_inj}
use barbican.Shared.{
  ℕ, String, ◌≡◌, refl, sym, ap, ◌∙◌, inl, inr, Bool, Bool-cases, false, not, Option, none, some,
  List, [], ◌∷◌, arith, keep_if, ◌==◌,
}
use barbican.Shared.Result.{ok}
use barbican.Shared.Exec.{gets, bind-run, run-inj}
use barbican.Plugins.{Db, lookup_name}
use barbican.Paging.{PagingConf}
use barbican.Secrets.Data.{Metadata, Codec}
use barbican.Secrets.World.{
  Project, Secret, EncryptedDatum, KekDatum, SecretStoreMetadatum, TransportKey, Container,
  ContainerSecret, World, on_stores, is_id, data_of, get_metadata_for_secret, metadata_from,
  delete_entity_by_id, deletable, delete_found, without_secret,
}
use barbican.Secrets.Steps.{on_stores-run, on_device-run, pure-run, gets-run}
use barbican.Secrets.Crypto.{CryptoOps}
use barbican.Secrets.Rows.{NoRows}
use barbican.Secrets.Resources.{StorePlugin, adapter, vendor, VendorOps}
use barbican.Secrets.Requests.{
  get_secret_meta, retrieve_plugin, delete_using_plugin, delete_stored, delete_model, delete_secret,
}

-- The other rows.
keep_if_other :
    {A : Type 0} (key : A → ℕ) (i j : ℕ) (xs : List A)
    → (j == i) ≡ false
    → keep_if (λ x. key x == j) (keep_if (λ x. not (key x == i)) xs) ≡ keep_if (λ x. key x == j) xs
keep_if_other key i j [] h = refl
keep_if_other key i j (x ∷ xs) h = ground (arith, keep_if_other key i j xs h)

keep_if-not :
    {A : Type 0} (f : A → Bool) (xs : List A) → keep_if f (keep_if (λ x. not (f x)) xs) ≡ []
keep_if-not f [] = refl
keep_if-not f (x ∷ xs) = ground (arith, keep_if-not f xs)

keep_if_idem : {A : Type 0} (f : A → Bool) (xs : List A) → keep_if f (keep_if f xs) ≡ keep_if f xs
keep_if_idem f [] = refl
keep_if_idem f (x ∷ xs) = elim (Bool-cases (f x)) [
  | inl e ↦ rw e (rw e (ap (λ ys. x ∷ ys) (keep_if_idem f xs)))
  | inr e ↦ rw e (keep_if_idem f xs)
]

-- The rows of every table.
record Rows : Type 0 where
  pub projects : List Project
  pub secrets : List Secret
  pub encrypted_data : List EncryptedDatum
  pub keks : List KekDatum
  pub metadata : List SecretStoreMetadatum
  pub transport_keys : List TransportKey
  pub containers : List Container
  pub container_secrets : List ContainerSecret

abbrev rows_of : {P C S : Type 0} → World P C S → Rows
rows_of w = record {
  projects = w.projects;
  secrets = w.secrets;
  encrypted_data = w.encrypted_data;
  keks = w.keks;
  metadata = w.metadata;
  transport_keys = w.transport_keys;
  containers = w.containers;
  container_secrets = w.container_secrets;
}

abbrev rows_without : ℕ → Rows → Rows
rows_without i r = record r {
  secrets = keep_if (λ s. not (is_id i s.id)) r.secrets;
  encrypted_data = keep_if (λ d. not (d.secret_id == i)) r.encrypted_data;
  metadata = keep_if (λ m. not (m.secret_id == i)) r.metadata;
  container_secrets = keep_if (λ c. not (c.secret_id == i)) r.container_secrets;
}

-- The rows that hang on another secret than `i`, and the rows that hang on none, are as they were.
pub record KeepsOthers {P C S : Type 0} (i : ℕ) (w w' : World P C S) : Type 0 where
  pub secrets :
      keep_if (λ (r : Secret). not (is_id i r.id)) w'.secrets
      ≡ keep_if (λ (r : Secret). not (is_id i r.id)) w.secrets
  pub encrypted_data :
      keep_if (λ (r : EncryptedDatum). not (r.secret_id == i)) w'.encrypted_data
      ≡ keep_if (λ (r : EncryptedDatum). not (r.secret_id == i)) w.encrypted_data
  pub metadata :
      keep_if (λ (r : SecretStoreMetadatum). not (r.secret_id == i)) w'.metadata
      ≡ keep_if (λ (r : SecretStoreMetadatum). not (r.secret_id == i)) w.metadata
  pub container_secrets :
      keep_if (λ (r : ContainerSecret). not (r.secret_id == i)) w'.container_secrets
      ≡ keep_if (λ (r : ContainerSecret). not (r.secret_id == i)) w.container_secrets
  pub projects : w'.projects ≡ w.projects
  pub keks : w'.keks ≡ w.keks
  pub transport_keys : w'.transport_keys ≡ w.transport_keys
  pub containers : w'.containers ≡ w.containers

module _ {B C S : Type 0} (codec : Codec) (conf : PagingConf) (ops : VendorOps B S)
    (crypto : CryptoOps C S) (enabled : Bool) (db : Db) where
  -- The plugins' part of a deletion leaves the rows as they were.
  delete_using_plugin-rows_of :
      (p : StorePlugin B) (d : Metadata) (w w' : World (StorePlugin B) C S)
      → delete_using_plugin codec conf ops crypto enabled db p d w ≡ (ok tt, w')
      → rows_of w' ≡ rows_of w
  delete_using_plugin-rows_of adapter d w w' h = sym (ap rows_of (pure-run tt tt w w' h).1)
  delete_using_plugin-rows_of (vendor b) d w w' h = sym (ap rows_of (on_device-run _ tt w w' h).1)

  delete_stored-rows_of :
      (d : Metadata) (w w' : World (StorePlugin B) C S)
      → delete_stored codec conf ops crypto enabled db d w ≡ (ok tt, w')
      → rows_of w' ≡ rows_of w
  delete_stored-rows_of [] w w' h = sym (ap rows_of (pure-run tt tt w w' h).1)
  delete_stored-rows_of (m ∷ ms) w w' h =
      let (p, w1, e1, h1) =
        bind-run
          (on_stores
            (retrieve_plugin codec conf ops crypto enabled db (lookup_name "plugin_name" (m ∷ ms))))
          _ w tt w' h in
      delete_using_plugin-rows_of p (m ∷ ms) w1 w' h1
      ∙ sym (ap rows_of (on_stores-run _ p w w1 e1).1)

  delete_found_run :
      (i : ℕ) (found : Option Secret) (w w' : World (StorePlugin B) C S)
      → delete_found i found w ≡ (ok tt, w')
      → without_secret i w ≡ w'
  delete_found_run i none w w' h = cc
  delete_found_run i (some secret) w w' h = (run-inj h).1

  delete_model_run :
      (i : ℕ) (own : Option ℕ) (project_id : String) (w w' : World (StorePlugin B) C S)
      → own ≡ some i
      → delete_model codec conf ops crypto enabled db own project_id w ≡ (ok tt, w')
      → without_secret i w ≡ w'
  unfolding delete_entity_by_id
  delete_model_run i none project_id w w' o h = cc
  delete_model_run i (some j) project_id w w' o h =
      ap (λ n. without_secret n w) (sym (some_inj.0 o))
      ∙ delete_found_run j (deletable j project_id w) w w' h

  -- The rows after a deletion.
  delete_secret-rows_of :
      (secret : Secret) (external_id : String) (i : ℕ) (w w' : World (StorePlugin B) C S)
      → secret.id ≡ some i
      → delete_secret codec conf ops crypto enabled db secret external_id w ≡ (ok tt, w')
      → rows_of w' ≡ rows_of (without_secret i w)
  unfolding delete_secret
  delete_secret-rows_of secret external_id i w w' id h =
      let (d, w1, e1, h1) = bind-run (gets (get_secret_meta secret)) _ w tt w' h in
      let (u, w2, e2, h2) =
        bind-run (delete_stored codec conf ops crypto enabled db d) _ w1 tt w' h1 in
      let same : rows_of w2 ≡ rows_of w =
        delete_stored-rows_of d w1 w2 e2
        ∙ sym (ap rows_of (gets-run (get_secret_meta secret) d w w1 e1).1) in
      sym (ap rows_of (delete_model_run i secret.id external_id w2 w' id h2))
      ∙ ap (rows_without i) same

  -- When a deletion returns, whatever plugin held the secret, no row of the secret, no encrypted
  -- datum, no metadata and no place in a container of it is left; and every row of another secret,
  -- all that hangs on it, and the projects, keys and containers are as they were.
  pub delete_secret_lem :
      (secret : Secret) (external_id : String) (i j : ℕ) (w w' : World (StorePlugin B) C S)
      → secret.id ≡ some i
      → (j == i) ≡ false
      → delete_secret codec conf ops crypto enabled db secret external_id w ≡ (ok tt, w')
      → (keep_if (λ (r : Secret). is_id i r.id) w'.secrets ≡ [])
        × NoRows i w'
        × (keep_if (λ (r : ContainerSecret). r.secret_id == i) w'.container_secrets ≡ [])
        × KeepsOthers i w w'
        × (data_of j w' ≡ data_of j w)
        × (get_metadata_for_secret j w' ≡ get_metadata_for_secret j w)
  unfolding data_of get_metadata_for_secret
  delete_secret_lem secret external_id i j w w' id other h =
      let rows : rows_of w' ≡ rows_of (without_secret i w) =
        delete_secret-rows_of secret external_id i w w' id h in
      let secrets = ap (λ (z : Rows). z.secrets) rows in
      let encrypted = ap (λ (z : Rows). z.encrypted_data) rows in
      let metadata = ap (λ (z : Rows). z.metadata) rows in
      let places = ap (λ (z : Rows). z.container_secrets) rows in
      (
        rw secrets (keep_if-not (λ (r : Secret). is_id i r.id) w.secrets),
        (
          rw encrypted (keep_if-not (λ (r : EncryptedDatum). r.secret_id == i) w.encrypted_data),
          rw metadata (keep_if-not (λ (r : SecretStoreMetadatum). r.secret_id == i) w.metadata),
        ),
        rw places (keep_if-not (λ (r : ContainerSecret). r.secret_id == i) w.container_secrets),
        record {
          secrets = rw secrets (keep_if_idem (λ (r : Secret). not (is_id i r.id)) w.secrets);
          encrypted_data =
              rw encrypted
                (keep_if_idem (λ (r : EncryptedDatum). not (r.secret_id == i)) w.encrypted_data);
          metadata =
              rw metadata
                (keep_if_idem (λ (r : SecretStoreMetadatum). not (r.secret_id == i)) w.metadata);
          container_secrets =
              rw places (
                keep_if_idem (λ (r : ContainerSecret). not (r.secret_id == i)) w.container_secrets);
          projects = ap (λ (z : Rows). z.projects) rows;
          keks = ap (λ (z : Rows). z.keks) rows;
          transport_keys = ap (λ (z : Rows). z.transport_keys) rows;
          containers = ap (λ (z : Rows). z.containers) rows;
        },
        rw encrypted
            (keep_if_other (λ (r : EncryptedDatum). r.secret_id) i j w.encrypted_data other),
        rw metadata (
            ap (metadata_from [])
              (keep_if_other (λ (r : SecretStoreMetadatum). r.secret_id) i j w.metadata other)),
      )
