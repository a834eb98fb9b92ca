-- ===== src/Secrets/Translations.antt =====
-- barbican/plugin/util/translations.py. The conversions between PEM and DER of OpenSSL and
-- cryptography are the operations of `Conversions`.
use barbican.Shared.{String, Bool, not, Option, none, some, if◌then◌else◌}
use barbican.Shared.Result.{Result, ok, raised, ◌>>=◌}
use barbican.Shared.Text.{codes, codes_eq, lower, text_in}
use barbican.Secrets.Data.{
  Bytes, Text, Payload, text, binary, has_payload, has_text, SecretError, no_payload, general,
  not_base64, unicode_encode_error, content_type_not_supported, accept_not_supported,
  content_encoding_must_be_base64, content_encoding_not_supported, Codec, DecodeError, type_error,
  unicode_decode_error, SecretType, public, private, certificate, symmetric, passphrase, opaque,
}
use barbican.Secrets.MimeTypes.{is_supported, plain_text, binary_types}
use barbican.Secrets.MimeTypes

unfoldable pub normalize_content_type : String → Result SecretError String
normalize_content_type content_type =
    let normalized_mime = MimeTypes.normalize_content_type content_type in
    if is_supported normalized_mime
    then ok normalized_mime
    else raised (content_type_not_supported content_type)

unfoldable pub analyze_before_decryption : String → Result SecretError Unit
analyze_before_decryption content_type =
    if is_supported content_type then ok tt else raised (accept_not_supported content_type)

abbrev pub is_base64 : String → Bool
is_base64 encoding = codes_eq (lower (codes encoding)) (codes "base64")

abbrev pub as_encoded : Option Bytes → Result SecretError Payload
as_encoded none = raised unicode_encode_error
as_encoded (some b) = ok (binary b)

module _ (codec : Codec) where
  -- The payload of a binary type.
  abbrev pub encode_binary : Payload → Option String → Bool → Result SecretError Payload
  encode_binary p none enforce_text_only = as_encoded (codec.encode_as_bytes p)
  encode_binary p (some e) enforce_text_only =
      if not (has_text (some e))
      then as_encoded (codec.encode_as_bytes p)
      else if is_base64 e
      then ok p
      else if enforce_text_only
      then raised content_encoding_must_be_base64
      else raised (content_encoding_not_supported e)

  -- Without the secret's type, which the code takes and does not use.
  unfoldable pub normalize_before_encryption :
      Payload → String → Option String → Bool → Result SecretError (Payload × String)
  unfolding normalize_content_type
  normalize_before_encryption unencrypted content_type content_encoding enforce_text_only =
      if not (has_payload unencrypted) then raised no_payload else do
        t ← normalize_content_type content_type
        payload ←
            if text_in t plain_text
            then as_encoded (codec.encode_as_bytes unencrypted)
            else encode_binary unencrypted content_encoding enforce_text_only
        ok (payload, t)

  abbrev pub as_text : String → Result DecodeError Text → Result SecretError Payload
  as_text content_type (ok s) = ok (text s)
  as_text content_type (raised unicode_decode_error) = raised (accept_not_supported content_type)
  as_text content_type (raised type_error) = raised not_base64

  abbrev pub as_bytes : Option Bytes → Result SecretError Payload
  as_bytes (some b) = ok (binary b)
  as_bytes none = raised not_base64

  unfoldable pub denormalize_after_decryption : Payload → String → Result SecretError Payload
  denormalize_after_decryption unencrypted content_type =
      if text_in content_type plain_text
      then as_text content_type (codec.decode_as_text unencrypted)
      else if text_in content_type binary_types
      then as_bytes (codec.decode_as_bytes unencrypted)
      else raised (content_type_not_supported content_type)

pub data Form : Type 0 where
  pem der : Form

-- load_pem_*, load_der_* and *_bytes of cryptography, load_certificate and dump_certificate of
-- OpenSSL, with the arguments that this file gives them.
pub record Serialization (Private Public Certificate : Type 0) : Type 0 where
  pub load_private_key : Form → Bytes → Result SecretError Private
  pub private_bytes : Form → Private → Bytes
  pub load_public_key : Form → Bytes → Result SecretError Public
  pub public_bytes : Form → Public → Bytes
  pub load_certificate : Form → Bytes → Result SecretError Certificate
  pub dump_certificate : Form → Certificate → Bytes

module _ {Private Public Certificate : Type 0} (s : Serialization Private Public Certificate) where
  unfoldable pub convert_private_pem_to_der : Bytes → Result SecretError Bytes
  convert_private_pem_to_der b = do
    private_key ← s.load_private_key pem b
    ok (s.private_bytes der private_key)

  unfoldable pub convert_private_der_to_pem : Bytes → Result SecretError Bytes
  convert_private_der_to_pem b = do
    private_key ← s.load_private_key der b
    ok (s.private_bytes pem private_key)

  unfoldable pub convert_public_pem_to_der : Bytes → Result SecretError Bytes
  convert_public_pem_to_der b = do
    public_key ← s.load_public_key pem b
    ok (s.public_bytes der public_key)

  unfoldable pub convert_public_der_to_pem : Bytes → Result SecretError Bytes
  convert_public_der_to_pem b = do
    public_key ← s.load_public_key der b
    ok (s.public_bytes pem public_key)

  unfoldable pub convert_certificate_pem_to_der : Bytes → Result SecretError Bytes
  convert_certificate_pem_to_der b = do
    cert ← s.load_certificate pem b
    ok (s.dump_certificate der cert)

  unfoldable pub convert_certificate_der_to_pem : Bytes → Result SecretError Bytes
  convert_certificate_der_to_pem b = do
    cert ← s.load_certificate der b
    ok (s.dump_certificate pem cert)

  unfoldable pub convert_pem_to_der : Bytes → SecretType → Result SecretError Bytes
  unfolding convert_private_pem_to_der convert_public_pem_to_der convert_certificate_pem_to_der
  convert_pem_to_der b private = convert_private_pem_to_der b
  convert_pem_to_der b public = convert_public_pem_to_der b
  convert_pem_to_der b certificate = convert_certificate_pem_to_der b
  convert_pem_to_der b symmetric = raised general
  convert_pem_to_der b passphrase = raised general
  convert_pem_to_der b opaque = raised general

  unfoldable pub convert_der_to_pem : Bytes → SecretType → Result SecretError Bytes
  unfolding convert_private_der_to_pem convert_public_der_to_pem convert_certificate_der_to_pem
  convert_der_to_pem b private = convert_private_der_to_pem b
  convert_der_to_pem b public = convert_public_der_to_pem b
  convert_der_to_pem b certificate = convert_certificate_der_to_pem b
  convert_der_to_pem b symmetric = raised general
  convert_der_to_pem b passphrase = raised general
  convert_der_to_pem b opaque = raised general
