-- ===== src/Secrets/Samples.antt =====
-- Plugins, a project and a world to run the secrets' requests on.
use mathlib.Core.List.{}
use mathlib.Core.List.Memᴰ
use barbican.Shared.{
  ℕ, suc, String, ◌≡◌, refl, sym, ap, ◌∙◌, inl, inr, Bool, Bool-cases, not, ◌&&◌, leb, List,
  if◌then◌else◌, true, false, Option, none, some, [], ◌∷◌,
}
use mathlib.Core.Option.{some_inj}
use barbican.Shared.Int.{pos}
use barbican.Shared.Text.{}
use barbican.Shared.Result.{Result, ok, raised}
use barbican.Shared.Exec.{run-inj}
use barbican.Plugins.{
  Db, first_such, get_active_plugins, get_applicable_plugins_for_type, values, dict_from, dict_set,
}
use barbican.Plugins.Managers.{choose_store, get_plugin_store}
use barbican.Plugins.RoundTrip.{HasOwnNames}
use barbican.Paging.{PagingConf}
use barbican.Secrets.Data.{
  Bytes, Payload, text, binary, Codec, IsBase64, opaque, KekMetaDto, Text, DecodeError, type_error,
  general,
}
use barbican.Secrets.World.{Project, Secret, World, data_of}
use barbican.Secrets.Crypto.{CryptoOps, named}
use barbican.Secrets.Binding.{KeepsLabel}
use barbican.Secrets.Encrypted.{IsCrypto}
use barbican.Secrets.Keks.{IsKeyed}
use barbican.Secrets.Rows.{IsFresh}
use barbican.Secrets.Resources.{StorePlugin, adapter, VendorOps, store_ops, key_spec_of}
use barbican.Secrets.Requests.{}
use barbican.Secrets.RoundTrip.{}

-- An encoding that puts a mark before the bytes; a text is its code points.
abbrev pub unmarked : Bytes → Option Bytes
unmarked [] = none
unmarked (c ∷ b) = some b

abbrev pub content : Payload → Bytes
content (text s) = s
content (binary b) = b

abbrev as_decoded : Option Bytes → Result DecodeError Text
as_decoded none = raised type_error
as_decoded (some b) = ok b

-- No lone surrogate.
abbrev scalars : List ℕ → Bool
scalars [] = true
scalars (c ∷ cs) = not (leb 55296 c && leb c 57343) && scalars cs

abbrev encodable : Payload → Bool
encodable (text s) = scalars s
encodable (binary b) = true

abbrev pub codec : Codec
codec = record {
  encode_as_bytes = λ p. if encodable p then some (b'=' ∷ content p) else none;
  decode_as_bytes = λ p. unmarked (content p);
  decode_as_text = λ p. as_decoded (unmarked (content p));
  b64encode = λ b. b'=' ∷ b;
  b64decode = λ p. unmarked (content p);
}

pub b64decode_encoded :
    (p : Payload) (b : Bytes)
    → codec.encode_as_bytes p ≡ some b
    → codec.b64decode (binary b) ≡ some (content p)
b64decode_encoded p b h = elim (Bool-cases (encodable p)) [
  | inl e ↦ ap (λ z. unmarked z) (sym (some_inj.0 (rw e at h)))
  | inr e ↦ cc (rw e at h)
]

abbrev pub base64 : IsBase64 codec
base64 = record {
  content = content;
  content-binary = λ b. refl;
  b64decode-encode = λ p b h. b64decode_encoded p b h;
  b64decode-b64encode = λ b. refl;
  decode_as_bytes-b64encode = λ b. refl;
  decode_as_text-b64encode = λ s b h. refl;
}

-- A crypto plugin is its full name; its device counts the keys that were bound.
abbrev pub crypto : CryptoOps String ℕ
crypto = record {
  fullname = λ p. p;
  supports = λ p t a l m. true;
  encrypt = λ p b dto e s. (ok (record { cypher_text = 7 ∷ b; kek_meta_extended = none }), s);
  decrypt = λ p b dto x e s. (elim (unmarked b) [ none ↦ raised general | some d ↦ ok d ], s);
  bind_kek_metadata = λ p dto s. (ok (some (record dto { plugin_meta = some "bound" })), suc s);
  generate_symmetric = λ p g dto e s. (raised general, s);
  generate_asymmetric = λ p g dto e s. (raised general, s);
}

pub crypto-KeepsLabel : KeepsLabel crypto
crypto-KeepsLabel = record {
  kept = λ plugin dto dto' s s' h.
      let same = some_inj.0 (run-inj h).0 in
      (
        ap (λ (d : KekMetaDto). d.plugin_name) (sym same),
        ap (λ (d : KekMetaDto). d.kek_label) (sym same),
      );
}

pub crypto-IsCrypto : IsCrypto crypto
crypto-IsCrypto = record {
  keeps = crypto-KeepsLabel;
  decrypt-encrypt = λ plugin b dto external_id r s s' h. rw (sym (run-inj h).0) refl;
}

abbrev pub vendors : VendorOps String ℕ
vendors = record {
  fullname = λ b. b;
  store_secret_supports = λ b k. true;
  generate_supports = λ b k. true;
  get_transport_key = λ b. some "key";
  is_transport_key_current = λ b k. true;
  store_secret = λ b dto s. (raised general, s);
  get_secret = λ b t m s. (raised general, s);
  delete_secret = λ b m s. (ok tt, s);
  generate_symmetric_key = λ b k s. (raised general, s);
  generate_asymmetric_key = λ b k s. (raised general, s);
}

abbrev pub conf : PagingConf
conf = record { default_limit_paging = pos 10; max_limit_paging = pos 100 }

abbrev pub db : Db
db = record { secret_stores = []; project_stores = [] }

abbrev pub project : Project
project = record { id = 7; external_id = "keystone" }

abbrev pub secret : Secret
secret = record {
  id = none;
  project_id = none;
  name = some "password";
  secret_type = opaque;
  expiration = none;
  algorithm = none;
  bit_length = none;
  mode = none;
  creator_id = none;
}

abbrev pub world : World (StorePlugin String) String ℕ
world = record {
  projects = project ∷ [];
  secrets = [];
  encrypted_data = [];
  keks = [];
  metadata = [];
  transport_keys = [];
  containers = [];
  container_secrets = [];
  next_id = 1;
  now = 100;
  stores = record {
    extensions = record { name = "store_crypto"; obj = some adapter } ∷ [];
    global_default_store_dict = none;
  };
  cryptos = record {
    extensions = record { name = "simple_crypto"; obj = some "simple" } ∷ [];
    global_default_store_dict = none;
  };
  device = 0;
}

pub stores-HasOwnNames :
    HasOwnNames (store_ops vendors) (get_active_plugins world.stores.extensions)
unfolding get_active_plugins
stores-HasOwnNames p q m n e = Memᴰ.eq_of_singleton m ∙ sym (Memᴰ.eq_of_singleton n)

pub cryptos-HasOwnNames : HasOwnNames (named crypto) (get_active_plugins world.cryptos.extensions)
cryptos-HasOwnNames p q m n e = e

pub world-IsFresh : IsFresh world
unfolding data_of
world-IsFresh i h = (refl, refl)

pub world-IsKeyed : IsKeyed world.keks
world-IsKeyed r m = absurd (Memᴰ.not-nil m)

abbrev pub row : Secret
row = record secret { id = some 3; project_id = some 7 }

pub adapter_chosen :
    (get_plugin_store (store_ops vendors) false db (key_spec_of secret) none false 7 world.stores).0
    ≡ ok adapter
unfolding get_plugin_store get_applicable_plugins_for_type values dict_from dict_set choose_store
    first_such
adapter_chosen = refl
