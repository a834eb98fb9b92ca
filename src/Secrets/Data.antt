-- ===== src/Secrets/Data.antt =====
-- The data that a secret passes through: the data transfer objects of
-- barbican/plugin/interface/secret_store.py and barbican/plugin/crypto/base.py, and the exceptions
-- of these parts. A payload is text or bytes; base64 and UTF-8 are the operations of `Codec`.
use barbican.Shared.{
  ℕ, String, Bool, true, false, not, Option, none, some, List, [], ◌∷◌, ◌≡◌, str_eq,
}
use barbican.Shared.Result.{Result, ok}
use barbican.Plugins.{PluginError}

abbrev pub Bytes : Type 0
Bytes = List ℕ

-- A text as its code points.
abbrev pub Text : Type 0
Text = List ℕ

pub data Payload : Type 0 where
  text : Text → Payload
  binary : Bytes → Payload

-- Python's truth of a payload, and of a text that may be missing.
abbrev pub has_payload : Payload → Bool
has_payload (text []) = false
has_payload (text (c ∷ cs)) = true
has_payload (binary []) = false
has_payload (binary (b ∷ bs)) = true

abbrev pub has_text : Option String → Bool
has_text none = false
has_text (some s) = not (str_eq s "")

pub data SecretError : Type 0 where
  -- an exception of a plugin manager
  manager : PluginError → SecretError
  -- ValueError
  already_stored invalid_plugin_name : SecretError
  -- SecretNoPayloadProvidedException, SecretNotFoundException
  no_payload secret_not_found : SecretError
  -- SecretContentTypeNotSupportedException, SecretAcceptNotSupportedException
  content_type_not_supported accept_not_supported : String → SecretError
  -- SecretContentEncodingMustBeBase64, SecretContentEncodingNotSupportedException
  content_encoding_must_be_base64 : SecretError
  content_encoding_not_supported : String → SecretError
  -- SecretAlgorithmNotSupportedException
  algorithm_not_supported : Option String → SecretError
  -- SecretGeneralException
  general : SecretError
  -- CryptoKEKBindingException
  kek_binding : String → SecretError
  -- BarbicanException for a crypto plugin without a name
  null_plugin_name : SecretError
  -- ProvidedTransportKeyNotFound, NotFound
  provided_transport_key_not_found : ℕ → SecretError
  not_found : SecretError
  -- MissingArgumentError
  missing_argument : SecretError
  -- TypeError or binascii.Error of base64, UnicodeEncodeError
  not_base64 unicode_encode_error : SecretError
  -- KeyError, AttributeError, several rows where one is asked for
  key_error attribute_error multiple_results : SecretError
  -- an exception of a plugin
  plugin_failed : String → SecretError

pub data DecodeError : Type 0 where
  type_error unicode_decode_error : DecodeError

-- oslo_serialization.base64, and b64encode and b64decode of the module base64.
pub record Codec : Type 0 where
  -- `none` is UnicodeEncodeError, of a text with a lone surrogate
  pub encode_as_bytes : Payload → Option Bytes
  pub decode_as_bytes : Payload → Option Bytes
  pub decode_as_text : Payload → Result DecodeError Text
  pub b64encode : Bytes → Bytes
  pub b64decode : Payload → Option Bytes

-- What base64 and UTF-8 promise: `content` is what a payload that can be encoded is as bytes, and
-- decoding undoes encoding.
pub record IsBase64 (codec : Codec) : Type 0 where
  pub content : Payload → Bytes
  pub content-binary : (b : Bytes) → content (binary b) ≡ b
  pub b64decode-encode :
      (p : Payload) (b : Bytes)
      → codec.encode_as_bytes p ≡ some b
      → codec.b64decode (binary b) ≡ some (content p)
  pub b64decode-b64encode : (b : Bytes) → codec.b64decode (binary (codec.b64encode b)) ≡ some b
  pub decode_as_bytes-b64encode :
      (b : Bytes) → codec.decode_as_bytes (binary (codec.b64encode b)) ≡ some b
  pub decode_as_text-b64encode :
      (s : Text) (b : Bytes)
      → codec.encode_as_bytes (text s) ≡ some b
      → codec.decode_as_text (binary (codec.b64encode (content (text s)))) ≡ ok s

pub data SecretType : Type 0 where
  symmetric public private passphrase certificate opaque : SecretType

pub record KeySpec : Type 0 where
  pub alg : Option String
  pub bit_length : Option ℕ
  pub mode : Option String
  pub passphrase : Option String

pub record SecretDto : Type 0 where
  pub type : SecretType
  pub secret : Payload
  pub key_spec : KeySpec
  pub content_type : Option String
  pub transport_key : Option String

abbrev pub Metadata : Type 0
Metadata = List (String × String)

pub record AsymmetricKeyMetadataDto : Type 0 where
  pub private_key_meta : Option Metadata
  pub public_key_meta : Option Metadata
  pub passphrase_meta : Option Metadata

pub record KekMetaDto : Type 0 where
  pub plugin_name : String
  pub kek_label : String × ℕ
  pub algorithm : Option String
  pub bit_length : Option ℕ
  pub mode : Option String
  pub plugin_meta : Option String

pub record GenerateDto : Type 0 where
  pub algorithm : Option String
  pub bit_length : Option ℕ
  pub mode : Option String
  pub passphrase : Option String

pub record ResponseDto : Type 0 where
  pub cypher_text : Bytes
  pub kek_meta_extended : Option String
