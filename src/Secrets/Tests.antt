-- ===== src/Secrets/Tests.antt =====
-- Runs of the secrets' requests at concrete inputs, and their theorems applied to them.
use mathlib.Core.List.{}
use barbican.Shared.{ℕ, String, ◌≡◌, refl, true, false, none, some, [], ◌∷◌, arith, keep_if, ◌==◌}
use mathlib.Core.Option.{}
use barbican.Shared.Int.{}
use barbican.Shared.Text.{codes}
use barbican.Shared.Result.{Result, ok, raised}
use barbican.Shared.Exec.{◌>>=◌}
use barbican.Plugins.{
  get_active_plugins, get_applicable_plugins_for_type, values, dict_from, lookup_name,
}
use barbican.Plugins.Managers.{
  choose_store, get_plugin_store, get_plugin_retrieve_delete, get_plugin_store_generate,
  get_plugin_retrieve,
}
use barbican.Plugins.RoundTrip.{}
use barbican.Paging.{}
use barbican.Secrets.Data.{Bytes, text, binary, SecretError, already_stored, certificate, general}
use barbican.Secrets.World.{
  on_stores, on_cryptos, on_device, Secret, World, KekDatum, ContainerSecret, is_id,
  get_metadata_for_secret, data_of,
}
use barbican.Secrets.Crypto.{kek_meta_of, find_or_create_kek_objects}
use barbican.Secrets.Binding.{IsSettled, find_or_create_kek_objects_idem}
use barbican.Secrets.Encrypted.{}
use barbican.Secrets.Keks.{}
use barbican.Secrets.Rows.{NoRows}
use barbican.Secrets.Resources.{
  StorePlugin, adapter_name, get_plugin_name_and_transport_key, store_secret_using_plugin,
}
use barbican.Secrets.Requests.{
  get_secret_using_plugin, store_secret, save_secret_metadata_in_repo, get_secret, delete_secret,
}
use barbican.Secrets.Samples.{
  codec, unmarked, conf, vendors, crypto, db, project, secret, world, row, base64,
  crypto-KeepsLabel, crypto-IsCrypto, stores-HasOwnNames, cryptos-HasOwnNames, world-IsFresh,
  world-IsKeyed, adapter_chosen,
}
use barbican.Secrets.MimeTypes.{
  is_supported, normalize_content_type, is_content_type_with_encoding_supported,
}
use barbican.Secrets.Normal.{Stored, admits, is_content_type_with_encoding_supported_lem}
use barbican.Secrets.Translations.{
  analyze_before_decryption, normalize_before_encryption, denormalize_after_decryption, Form,
  Serialization, pem, der, convert_pem_to_der, convert_der_to_pem,
}
use barbican.Secrets.Forms.{
  IsReadable, convert_der_to_pem-convert_pem_to_der,
  denormalize_after_decryption-normalize_before_encryption,
}
use barbican.Secrets.Guards.{Raises, store_secret_refuses, store_secret_once}
use barbican.Secrets.Removal.{KeepsOthers, delete_secret_lem}
use barbican.Secrets.RoundTrip.{GotBack, get_secret-store_secret}

abbrev stored_world : World (StorePlugin String) String ℕ
stored_world =
    (store_secret codec conf vendors crypto false db (some (text (codes "secret"))) "text/plain"
      none secret project false none world).1

stored :
    store_secret codec conf vendors crypto false db
      (some (text (codes "secret")))
      "text/plain"
      none
      secret
      project
      false
      none
      world
    ≡ (ok (row, none), stored_world)
unfolding store_secret ◌>>=◌ get_plugin_name_and_transport_key normalize_before_encryption
    is_supported on_stores get_plugin_store get_applicable_plugins_for_type choose_store values
    dict_from store_secret_using_plugin on_cryptos get_plugin_store_generate on_device
    save_secret_metadata_in_repo
stored = refl

get_secret-store_secret_example :
    GotBack codec conf vendors crypto false db base64
      (text (codes "secret"))
      "text/plain"
      none
      row
      project
      stored_world
get_secret-store_secret_example =
    get_secret-store_secret codec conf vendors crypto false db (text (codes "secret")) "text/plain"
      none secret row project false none world stored_world base64 crypto-IsCrypto world-IsFresh
      world-IsKeyed stores-HasOwnNames cryptos-HasOwnNames adapter_chosen refl
      (λ t n is. (codes "secret", refl)) stored

stored_is_read :
    (get_secret codec conf vendors crypto false db "*/*" row project none stored_world).0
    ≡ ok (text (codes "secret"))
unfolding get_secret store_secret ◌>>=◌ get_plugin_name_and_transport_key
    normalize_before_encryption is_supported on_stores get_plugin_store
    get_applicable_plugins_for_type choose_store values dict_from store_secret_using_plugin
    on_cryptos get_plugin_store_generate on_device save_secret_metadata_in_repo
    get_plugin_retrieve_delete get_secret_using_plugin denormalize_after_decryption
    analyze_before_decryption get_active_plugins get_plugin_retrieve
stored_is_read = refl

store_secret_once_example :
    store_secret codec conf vendors crypto false db
      (some (binary (1 ∷ [])))
      "application/pkcs8"
      none
      row
      project
      false
      none
      stored_world
    ≡ (raised already_stored, stored_world)
store_secret_once_example =
    store_secret_once codec conf vendors crypto false db (text (codes "secret"))
      (some (binary (1 ∷ []))) "text/plain" "application/pkcs8" none none secret row project false
      false none none world stored_world crypto-IsCrypto world-IsFresh world-IsKeyed adapter_chosen
      refl stored

store_secret_refuses_example :
    Raises
      (store_secret codec conf vendors crypto false db none "text/plain" none secret project true
        none)
      world
store_secret_refuses_example =
    store_secret_refuses codec conf vendors crypto false db "text/plain" none secret project none
      world (omega arith)

abbrev bound_kek : KekDatum
bound_kek = record {
  id = 2;
  project_id = 7;
  plugin_name = "simple";
  kek_label = ("keystone", 1);
  active = true;
  bind_completed = true;
  algorithm = none;
  bit_length = none;
  mode = none;
  plugin_meta = some "bound";
}

abbrev bound_world : World (StorePlugin String) String ℕ
bound_world = record world { keks = bound_kek ∷ []; next_id = 3; device = 1 }

bound_run :
    find_or_create_kek_objects codec crypto false db "simple" project world
    ≡ (ok (bound_kek, kek_meta_of bound_kek), bound_world)
unfolding find_or_create_kek_objects ◌>>=◌ on_device
bound_run = refl

find_or_create_kek_objects_idem_example :
    IsSettled codec crypto false db project "simple" bound_kek (kek_meta_of bound_kek) bound_world
find_or_create_kek_objects_idem_example =
    find_or_create_kek_objects_idem codec crypto false db project "simple" bound_kek
      (kek_meta_of bound_kek) world bound_world crypto-KeepsLabel world-IsKeyed bound_run

is_content_type_with_encoding_supported_lem_example :
    (s : Stored (normalize_content_type "Application/PKCS8")) × (normalize_content_type
        (normalize_content_type "Application/PKCS8")
      ≡ normalize_content_type "Application/PKCS8")
    × (is_content_type_with_encoding_supported "Application/PKCS8" (some "base64")
        ≡ some (admits s (some "base64")))
unfolding is_supported
is_content_type_with_encoding_supported_lem_example =
    is_content_type_with_encoding_supported_lem "Application/PKCS8" (some "base64") refl

normalized_text :
    normalize_before_encryption codec (text (codes "hi")) "text/plain; charset=utf-8" none true
    ≡ ok (binary (b'=' ∷ codes "hi"), "text/plain")
unfolding normalize_before_encryption is_supported
normalized_text = refl

denormalize_after_decryption-normalize_before_encryption_example :
    (denormalize_after_decryption codec (binary (b'=' ∷ codes "hi")) "text/plain"
      ≡ ok (text (codes "hi")))
    × (codes "hi" ≡ codes "hi")
denormalize_after_decryption-normalize_before_encryption_example =
    denormalize_after_decryption-normalize_before_encryption codec base64 (text (codes "hi"))
      (binary (b'=' ∷ codes "hi")) "text/plain; charset=utf-8" "text/plain" none true (codes "hi")
      (λ t. (codes "hi", refl)) normalized_text refl

-- A key is its bytes, and a form puts a mark before them.
abbrev mark : Form → ℕ
mark pem = 80
mark der = 68

abbrev load : Form → Bytes → Result SecretError Bytes
load f b = elim (unmarked b) [ none ↦ raised general | some k ↦ ok k ]

abbrev serialization : Serialization Bytes Bytes Bytes
serialization = record {
  load_private_key = load;
  private_bytes = λ f k. mark f ∷ k;
  load_public_key = load;
  public_bytes = λ f k. mark f ∷ k;
  load_certificate = load;
  dump_certificate = λ f k. mark f ∷ k;
}

serialization-IsReadable : IsReadable serialization
serialization-IsReadable = record {
  private = λ f k. refl;
  public = λ f k. refl;
  certificate = λ f k. refl;
}

pem_to_der : convert_pem_to_der serialization (80 ∷ 5 ∷ []) certificate ≡ ok (68 ∷ 5 ∷ [])
unfolding convert_pem_to_der
pem_to_der = refl

convert_der_to_pem-convert_pem_to_der_example :
    (p : Bytes) × (convert_der_to_pem serialization (68 ∷ 5 ∷ []) certificate ≡ ok p)
    × (convert_pem_to_der serialization p certificate ≡ ok (68 ∷ 5 ∷ []))
convert_der_to_pem-convert_pem_to_der_example =
    convert_der_to_pem-convert_pem_to_der serialization serialization-IsReadable certificate
      (80 ∷ 5 ∷ []) (68 ∷ 5 ∷ []) pem_to_der

abbrev other_row : Secret
other_row = record row { id = some 4 }

abbrev held_world : World (StorePlugin String) String ℕ
held_world = record world {
  secrets = row ∷ other_row ∷ [];
  metadata =
      record { secret_id = 3; key = "plugin_name"; value = adapter_name }
      ∷ record { secret_id = 4; key = "plugin_name"; value = adapter_name }
      ∷ [];
}

abbrev deleted_world : World (StorePlugin String) String ℕ
deleted_world = record world {
  secrets = other_row ∷ [];
  metadata = record { secret_id = 4; key = "plugin_name"; value = adapter_name } ∷ [];
}

deleted :
    delete_secret codec conf vendors crypto false db row "keystone" held_world
    ≡ (ok tt, deleted_world)
unfolding delete_secret ◌>>=◌ on_stores lookup_name get_plugin_retrieve_delete get_active_plugins
deleted = refl

delete_secret_lem_example :
    (keep_if (λ (r : Secret). is_id 3 r.id) deleted_world.secrets ≡ [])
    × NoRows 3 deleted_world
    × (keep_if (λ (r : ContainerSecret). r.secret_id == 3) deleted_world.container_secrets ≡ [])
    × KeepsOthers 3 held_world deleted_world
    × (data_of 4 deleted_world ≡ data_of 4 held_world)
    × (get_metadata_for_secret 4 deleted_world ≡ get_metadata_for_secret 4 held_world)
delete_secret_lem_example =
    delete_secret_lem codec conf vendors crypto false db row "keystone" 3 4 held_world deleted_world
      refl refl deleted
