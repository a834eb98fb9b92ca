-- ===== src/Secrets/MimeTypes.antt =====
-- barbican/plugin/util/mime_types.py: the media types of a payload. A missing key of a dict, where
-- the code reads it with brackets, is `none` (KeyError). What get_accepted_encodings_direct of
-- barbican/common/utils.py gives is an argument.
use barbican.Shared.{
  ℕ, String, Bool, true, false, ◌&&◌, Option, none, some, List, [], ◌∷◌, ◌++◌, if◌then◌else◌,
}
use barbican.Shared.Text.{codes, codes_eq, codes_in, lower, split, strip, text_in}

abbrev pub plain_text : List String
plain_text = "text/plain" ∷ "text/plain;charset=utf-8" ∷ "text/plain; charset=utf-8" ∷ []

abbrev plain_text_charsets : List String
plain_text_charsets = "utf-8" ∷ []

abbrev pub binary_types : List String
binary_types = "application/octet-stream" ∷ "application/pkcs8" ∷ []

abbrev pub supported : List String
supported = plain_text ++ binary_types

abbrev pub internal_ctypes : List (String × String)
internal_ctypes =
    ("text/plain", "text/plain")
    ∷ ("text/plain;charset=utf-8", "text/plain")
    ∷ ("text/plain; charset=utf-8", "text/plain")
    ∷ ("application/octet-stream", "application/octet-stream")
    ∷ ("application/pkcs8", "application/pkcs8")
    ∷ ("application/aes", "application/aes")
    ∷ []

-- Each entry has its default type only.
abbrev ctypes_mappings : List (String × String)
ctypes_mappings =
    ("text/plain", "text/plain")
    ∷ ("application/octet-stream", "application/octet-stream")
    ∷ ("application/pkcs8", "application/pkcs8")
    ∷ ("application/aes", "application/aes")
    ∷ []

abbrev pub ctypes_to_encodings : List (String × Option (List String))
ctypes_to_encodings =
    ("text/plain", none)
    ∷ ("application/octet-stream", some ("base64" ∷ "binary" ∷ []))
    ∷ ("application/pkcs8", some ("base64" ∷ "binary" ∷ []))
    ∷ ("application/aes", none)
    ∷ []

-- A dict with text keys, read by the code points of a text.
unfoldable pub get_codes {ℓ} : {A : Type ℓ} → List ℕ → List (String × A) → Option A
get_codes cs [] = none
get_codes cs ((k, v) ∷ d) = if codes_eq cs (codes k) then some v else get_codes cs d

abbrev pub or_else {ℓ} : {A : Type ℓ} → Option A → A → A
or_else none a = a
or_else (some b) a = b

-- INTERNAL_CTYPES.get(mime, mime_type)
abbrev pub internal_or : List ℕ → String → String
internal_or mime mime_type = or_else (get_codes mime internal_ctypes) mime_type

-- What stands after the first semicolon; only its second part around '=' counts.
abbrev pub charset_supported : List ℕ → Bool
charset_supported parameter =
    let (name, values) = split b'=' (lower (strip parameter)) in
    elim values [ [] ↦ false | charset ∷ rest ↦ codes_in (strip charset) plain_text_charsets ]

-- From the parts of the type around its semicolons.
abbrev pub normalized : String → List ℕ × List (List ℕ) → String
normalized mime_type (first, []) = internal_or (lower (strip first)) mime_type
normalized mime_type (first, parameter ∷ rest) =
    if charset_supported parameter then internal_or (lower (strip first)) mime_type else mime_type

unfoldable pub normalize_content_type : String → String
unfolding get_codes
normalize_content_type mime_type = normalized mime_type (split b';' (codes mime_type))

unfoldable pub is_supported : String → Bool
unfolding normalize_content_type
is_supported mime_type = text_in (normalize_content_type mime_type) supported

abbrev pub in_encodings : String → Option (List String) → Bool
in_encodings e none = false
in_encodings e (some es) = text_in e es

-- CTYPES_TO_ENCODINGS[INTERNAL_CTYPES[content_type]]
unfoldable pub encodings_of : String → Option (Option (List String))
unfolding get_codes
encodings_of content_type = elim (get_codes (codes content_type) internal_ctypes) [
  | none ↦ none
  | some internal ↦ get_codes (codes internal) ctypes_to_encodings
]

abbrev encoding_offered : String → String → Option Bool
encoding_offered content_type encoding = elim (encodings_of content_type) [
  | none ↦ none
  | some encodings ↦ some (in_encodings encoding encodings)
]

unfoldable pub is_base64_encoding_supported : String → Option Bool
unfolding is_supported encodings_of
is_base64_encoding_supported mime_type =
    if is_supported mime_type then encoding_offered mime_type "base64" else some false

abbrev pub content_encoding_in : Option String → Option (List String) → Bool
content_encoding_in none none = true
content_encoding_in (some e) none = false
content_encoding_in none (some es) = false
content_encoding_in (some e) (some es) = text_in e es

unfoldable pub get_supported_encodings : String → Option (Option (List String))
unfolding normalize_content_type encodings_of
get_supported_encodings content_type = encodings_of (normalize_content_type content_type)

unfoldable pub is_content_type_with_encoding_supported : String → Option String → Option Bool
unfolding is_supported normalize_content_type encodings_of
is_content_type_with_encoding_supported content_type content_encoding =
    if is_supported content_type
    then (elim (encodings_of (normalize_content_type content_type)) [
      | none ↦ none
      | some encodings ↦ some (content_encoding_in content_encoding encodings)
    ])
    else some false

-- `encoding` among the accepted ones and among those of the type
abbrev accepted_offered : String → String → List String → Option Bool
accepted_offered encoding content_type accepted =
    if text_in encoding accepted && is_supported content_type
    then encoding_offered content_type encoding
    else some false

unfoldable pub is_base64_processing_needed : String → Option (List String) → Option Bool
unfolding is_supported encodings_of
is_base64_processing_needed content_type none = some false
is_base64_processing_needed content_type (some []) = some false
is_base64_processing_needed content_type (some (e ∷ es)) =
    accepted_offered "base64" content_type (e ∷ es)

abbrev is_binary_internal : Option String → Bool
is_binary_internal none = false
is_binary_internal (some t) = text_in t binary_types

-- With accepted encodings, 'binary' among them, a type that is not supported is tested like one
-- without encodings.
unfoldable pub use_binary_content_as_is : String → Option (List String) → Option Bool
unfolding is_supported encodings_of get_codes
use_binary_content_as_is content_type accepted =
    let as_is = some (is_binary_internal (get_codes (codes content_type) internal_ctypes)) in
    elim accepted [
      | none ↦ as_is
      | some [] ↦ as_is
      | some (e ∷ es) ↦
          if text_in "binary" (e ∷ es)
          then (if is_supported content_type then encoding_offered content_type "binary" else as_is)
          else some false
    ]

-- The content types of a secret whose metadata has this content type: what is added to its fields.
unfoldable pub augment_fields_with_content_types : Option String → Option String
unfolding get_codes
augment_fields_with_content_types none = none
augment_fields_with_content_types (some value) = get_codes (codes value) ctypes_mappings
