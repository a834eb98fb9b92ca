-- ===== src/Secrets/Forms.antt =====
-- Payloads there and back: through base64, and between PEM and DER.
use mathlib.Core.Bool.{}
use mathlib.Core.Path.{subst}
use mathlib.Core.Option.{some_inj}
use barbican.Shared.{
  Bool-cases, inl, inr, ◌&&◌, String, ◌≡◌, refl, sym, ap, ◌∙◌, Bool, true, false, not, Option, none,
  some, str_eq, if◌then◌else◌,
}
use barbican.Shared.Result.{Result, ok, raised, ◌>>=◌}
use barbican.Shared.Text.{text_in}
use barbican.Secrets.Data.{
  Bytes, Text, Payload, text, binary, has_payload, has_text, SecretError, Codec, IsBase64,
  SecretType, symmetric, public, private, passphrase, certificate, opaque,
}
use barbican.Secrets.MimeTypes.{is_supported, plain_text, binary_types}
use barbican.Secrets.MimeTypes
use barbican.Secrets.Normal.{
  Stored, plain, octet_stream, pkcs8, is_supported-Stored, normalize_content_type_idem,
}
use barbican.Secrets.Translations.{
  Form, pem, der, Serialization, convert_pem_to_der, convert_der_to_pem, normalize_content_type,
  normalize_before_encryption, denormalize_after_decryption, encode_binary, is_base64, as_encoded,
}

bind-ok :
    {A B : Type 0} (r : Result SecretError A) (f : A → Result SecretError B) (b : B)
    → (r >>= f) ≡ ok b
    → (a : A) × (r ≡ ok a) × (f a ≡ ok b)
bind-ok (ok a) f b h = (a, refl, h)
bind-ok (raised x) f b h = cc

ok-inj : {A : Type 0} {a b : A} → (let r : Result SecretError A = ok a in r) ≡ ok b → a ≡ b
ok-inj h = cc

-- Loading gives back what was written, in each form.
pub record IsReadable {Private Public Certificate : Type 0}
    (s : Serialization Private Public Certificate) : Type 0 where
  pub private : (f : Form) (k : Private) → s.load_private_key f (s.private_bytes f k) ≡ ok k
  pub public : (f : Form) (k : Public) → s.load_public_key f (s.public_bytes f k) ≡ ok k
  pub certificate :
      (f : Form) (c : Certificate) → s.load_certificate f (s.dump_certificate f c) ≡ ok c

module _ {Private Public Certificate : Type 0} (s : Serialization Private Public Certificate)
    (r : IsReadable s) where
  -- What was converted from PEM converts back to PEM, and that PEM text converts to the same bytes
  -- again.
  pub convert_der_to_pem-convert_pem_to_der :
      (t : SecretType) (b d : Bytes)
      → convert_pem_to_der s b t ≡ ok d
      → (p : Bytes) × (convert_der_to_pem s d t ≡ ok p) × (convert_pem_to_der s p t ≡ ok d)
  unfolding convert_pem_to_der convert_der_to_pem
  convert_der_to_pem-convert_pem_to_der private b d h =
      let (k, l, e) = bind-ok (s.load_private_key pem b) (λ k. ok (s.private_bytes der k)) d h in
      (s.private_bytes pem k, rw (sym (ok-inj e), r.private der k), rw (r.private pem k) e)
  convert_der_to_pem-convert_pem_to_der public b d h =
      let (k, l, e) = bind-ok (s.load_public_key pem b) (λ k. ok (s.public_bytes der k)) d h in
      (s.public_bytes pem k, rw (sym (ok-inj e), r.public der k), rw (r.public pem k) e)
  convert_der_to_pem-convert_pem_to_der certificate b d h =
      let (k, l, e) = bind-ok (s.load_certificate pem b) (λ k. ok (s.dump_certificate der k)) d h in
      (
        s.dump_certificate pem k,
        rw (sym (ok-inj e), r.certificate der k),
        rw (r.certificate pem k) e,
      )
  convert_der_to_pem-convert_pem_to_der symmetric b d h = cc
  convert_der_to_pem-convert_pem_to_der passphrase b d h = cc
  convert_der_to_pem-convert_pem_to_der opaque b d h = cc

abbrev base64_given : Option String → Bool
base64_given none = false
base64_given (some e) = has_text (some e) && is_base64 e

-- A payload as text: what a text type is given.
abbrev pub IsText : Payload → Type 0
IsText p = (s : Text) × (p ≡ text s)

pub normalize_content_type-Stored : (m t : String) → normalize_content_type m ≡ ok t → Stored t
unfolding normalize_content_type
normalize_content_type-Stored m t h =
    elim (Bool-cases (is_supported (MimeTypes.normalize_content_type m))) [
      | inl e ↦ subst Stored (ok-inj (rw e at h)) (
          subst Stored (normalize_content_type_idem m)
            (is_supported-Stored (MimeTypes.normalize_content_type m) e))
      | inr e ↦ cc (rw e at h)
    ]

module _ (codec : Codec) (base64 : IsBase64 codec) where
  -- What is handed to the store.
  abbrev Encoded : Bool → Payload → Payload → Type 0
  Encoded true p payload = p ≡ payload
  Encoded false p payload = as_encoded (codec.encode_as_bytes p) ≡ ok payload

  encode_binary_cases :
      (p payload : Payload) (enc : Option String) (b : Bool)
      → encode_binary codec p enc b ≡ ok payload
      → Encoded (base64_given enc) p payload
  encode_binary_cases p payload none b h = h
  encode_binary_cases p payload (some e) b h = elim (Bool-cases (str_eq e "")) [
    | inl t ↦ rw t (rw t at h)
    | inr t ↦ elim (Bool-cases (is_base64 e)) [
      | inl u ↦ rw (t, u) (ok-inj (rw (t, u) at h))
      | inr u ↦ elim (Bool-cases b) [
        | inl v ↦ cc (rw (t, u, v) at h)
        | inr v ↦ cc (rw (t, u, v) at h)
      ]
    ]
  ]

  -- The payload is base64 already.
  abbrev pub taken_as_is : String → Option String → Bool
  taken_as_is t enc = not (text_in t plain_text) && base64_given enc

  -- The payload that comes back after its bytes went through a store.
  abbrev pub returned : String → Payload → Bytes → Payload
  returned t p bytes = if text_in t plain_text then p else binary bytes

  -- The payload by its type.
  abbrev chosen : String → Payload → Option String → Bool → Result SecretError Payload
  chosen t p enc b =
      if text_in t plain_text
      then as_encoded (codec.encode_as_bytes p)
      else encode_binary codec p enc b

  chosen_cases :
      (t : String) (p payload : Payload) (enc : Option String) (b : Bool)
      → chosen t p enc b ≡ ok payload
      → Encoded (taken_as_is t enc) p payload
  chosen_cases t p payload enc b h = elim (Bool-cases (text_in t plain_text)) [
    | inl e ↦ rw e (rw e at h)
    | inr e ↦ rw e (encode_binary_cases p payload enc b (rw e at h))
  ]

  pub normalized_payload :
      (p payload : Payload) (m t : String) (enc : Option String) (b : Bool)
      → normalize_before_encryption codec p m enc b ≡ ok (payload, t)
      → (normalize_content_type m ≡ ok t) × Encoded (taken_as_is t enc) p payload
  unfolding normalize_before_encryption
  normalized_payload p payload m t enc b h = elim (Bool-cases (has_payload p)) [
    | inr e ↦ cc (rw e at h)
    | inl e ↦
        let (t', n, k) = bind-ok (normalize_content_type m) _ (payload, t) (rw e at h) in
        let (q, c, r) = bind-ok (chosen t' p enc b) (λ x. ok (x, t')) (payload, t) k in
        let same = ok-inj r in
        (
          n ∙ ap ok (ap (λ x. x.1) same),
          subst (λ u. Encoded (taken_as_is u enc) p payload) (ap (λ x. x.1) same)
              (subst (Encoded (taken_as_is t' enc) p) (ap (λ x. x.0) same)
                (chosen_cases t' p q enc b c)),
        )
  ]

  as_encoded_run :
      (o : Option Bytes) (payload : Payload)
      → as_encoded o ≡ ok payload
      → (b : Bytes) × (o ≡ some b) × (binary b ≡ payload)
  as_encoded_run none payload h = cc
  as_encoded_run (some b) payload h = (b, refl, ok-inj h)

  -- A text that UTF-8 encodes.
  abbrev IsEncodable : Payload → Type 0
  IsEncodable p = (b : Bytes) × (codec.encode_as_bytes p ≡ some b)

  bytes_of :
      (p payload : Payload) (as_is : Bool) (bytes : Bytes)
      → Encoded as_is p payload
      → codec.b64decode payload ≡ some bytes
      → if as_is then codec.b64decode p ≡ some bytes else bytes ≡ base64.content p
  bytes_of p payload true bytes e h = ap codec.b64decode e ∙ h
  bytes_of p payload false bytes e h =
      let (b, q, same) = as_encoded_run (codec.encode_as_bytes p) payload e in
      some_inj.0 (sym h ∙ ap codec.b64decode (sym same) ∙ base64.b64decode-encode p b q)

  denormalized :
      (t : String) (p : Payload) (bytes : Bytes)
      → Stored t
      → (text_in t plain_text ≡ true → IsText p × IsEncodable p × (bytes ≡ base64.content p))
      → denormalize_after_decryption codec (binary (codec.b64encode bytes)) t
        ≡ ok (returned t p bytes)
  unfolding denormalize_after_decryption
  denormalized t p bytes plain h =
      let ((s, e), (b, q), same) = h refl in
      rw (same, e, base64.decode_as_text-b64encode s b (ap codec.encode_as_bytes (sym e) ∙ q))
  denormalized t p bytes octet_stream h = rw (base64.decode_as_bytes-b64encode bytes)
  denormalized t p bytes pkcs8 h = rw (base64.decode_as_bytes-b64encode bytes)

  -- When normalization succeeds, and the store gives back the bytes that the payload decodes to,
  -- encoded anew, denormalization gives a text type the text that was given, and a binary type the
  -- bytes: what the given base64 decodes to, or the payload itself where no encoding was given.
  pub denormalize_after_decryption-normalize_before_encryption :
      (p payload : Payload) (m t : String) (enc : Option String) (b : Bool) (bytes : Bytes)
      → (text_in t plain_text ≡ true → IsText p)
      → normalize_before_encryption codec p m enc b ≡ ok (payload, t)
      → codec.b64decode payload ≡ some bytes
      → (denormalize_after_decryption codec (binary (codec.b64encode bytes)) t
          ≡ ok (returned t p bytes))
        × (if taken_as_is t enc then codec.b64decode p ≡ some bytes else bytes ≡ base64.content p)
  denormalize_after_decryption-normalize_before_encryption p payload m t enc b bytes is h d =
      let (n, e) = normalized_payload p payload m t enc b h in
      let content = bytes_of p payload (taken_as_is t enc) bytes e d in
      let content_of_text : text_in t plain_text ≡ true → bytes ≡ base64.content p =
        λ q. rw q at content in
      let encodes : text_in t plain_text ≡ true → IsEncodable p = λ q.
        let (b, o, same) = as_encoded_run (codec.encode_as_bytes p) payload (rw q at e) in (b, o) in
      (
        denormalized t p bytes (normalize_content_type-Stored m t n)
            (λ q. (is q, encodes q, content_of_text q)),
        content,
      )
