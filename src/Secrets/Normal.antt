-- ===== src/Secrets/Normal.antt =====
-- The normal forms of media types.
use barbican.Shared.{
  Bool-cases, Option-cases, inl, inr, eq_iff, ℕ, String, ◌≡◌, refl, sym, ap, ◌∙◌, ◌⊎◌, Bool, true,
  false, Option, none, some, List, [], ◌∷◌, str_eq,
}
use mathlib.Core.Path.{subst}
use mathlib.Core.Bool.{false≢true}
use mathlib.Core.Option.{some_inj}
use barbican.Shared.Text.{codes, codes_eq, lower, split, strip, text_in}
use barbican.Secrets.MimeTypes.{
  get_codes, internal_or, normalized, normalize_content_type, is_supported, internal_ctypes,
  charset_supported, supported, is_content_type_with_encoding_supported, encodings_of,
  content_encoding_in,
}

-- A property of the values of a dict.
abbrev All {ℓ} : {A : Type ℓ} → (A → Type 0) → List (String × A) → Type 0
All P [] = Unit
All P ((k, v) ∷ d) = P v × All P d

get_codes-All {ℓ} :
    {A : Type ℓ} (P : A → Type 0) (cs : List ℕ) (d : List (String × A)) (v : A)
    → All P d
    → get_codes cs d ≡ some v
    → P v
unfolding get_codes
get_codes-All P cs [] v h e = cc
get_codes-All P cs ((k, u) ∷ d) v (p, h) e = elim (Bool-cases (codes_eq cs (codes k))) [
  | inl t ↦ subst P (some_inj.0 (rw t at e)) p
  | inr t ↦ get_codes-All P cs d v h (rw t at e)
]

abbrev IsNormal : String → Type 0
IsNormal t = normalize_content_type t ≡ t

internal_ctypes-IsNormal : All IsNormal internal_ctypes
unfolding normalize_content_type get_codes
internal_ctypes-IsNormal = (refl, (refl, (refl, (refl, (refl, (refl, tt))))))

abbrev InTable : String → String → Type 0
InTable m t = (t ≡ m) ⊎ ((cs : List ℕ) × (get_codes cs internal_ctypes ≡ some t))

internal_or-InTable : (cs : List ℕ) (m : String) → InTable m (internal_or cs m)
internal_or-InTable cs m = elim (Option-cases (get_codes cs internal_ctypes)) [
  | inl e ↦ inl (rw e)
  | inr (t, e) ↦ inr (cs, rw e)
]

normalized-InTable : (m : String) (parts : List ℕ × List (List ℕ)) → InTable m (normalized m parts)
normalized-InTable m (first, []) = internal_or-InTable (lower (strip first)) m
normalized-InTable m (first, parameter ∷ rest) = elim (Bool-cases (charset_supported parameter)) [
  | inl e ↦ rw e (internal_or-InTable (lower (strip first)) m)
  | inr e ↦ inl (rw e)
]

pub normalize_content_type_idem :
    (m : String) → normalize_content_type (normalize_content_type m) ≡ normalize_content_type m
unfolding normalize_content_type
normalize_content_type_idem m = elim (normalized-InTable m (split b';' (codes m))) [
  | inl e ↦ ap normalize_content_type e
  | inr (cs, e) ↦ get_codes-All IsNormal cs internal_ctypes _ internal_ctypes-IsNormal e
]

-- The three types that a supported type stands for.
pub data Stored : String → Type 0 where
  plain : Stored "text/plain"
  octet_stream : Stored "application/octet-stream"
  pkcs8 : Stored "application/pkcs8"

abbrev AllOf : (String → Type 0) → List String → Type 0
AllOf P [] = Unit
AllOf P (t ∷ ts) = P t × AllOf P ts

text_in-AllOf :
    (P : String → Type 0) (s : String) (ts : List String) → AllOf P ts → text_in s ts ≡ true → P s
text_in-AllOf P s [] a h = cc
text_in-AllOf P s (t ∷ ts) (p, a) h = elim (Bool-cases (str_eq t s)) [
  | inl e ↦ subst P ((eq_iff t s).0 e) p
  | inr e ↦ text_in-AllOf P s ts a (rw e at h)
]

-- A text with another normal form is not normal.
not_normal :
    (k n : String) → normalize_content_type k ≡ n → str_eq n k ≡ false → IsNormal k → Stored k
not_normal k n e d h = absurd (false≢true (sym d ∙ (eq_iff n k).1 (sym e ∙ h)))

supported-AllOf : AllOf (λ t. IsNormal t → Stored t) supported
unfolding normalize_content_type get_codes
supported-AllOf = (
  (λ _. plain),
  (
    not_normal "text/plain;charset=utf-8" "text/plain" refl refl,
    (
      not_normal "text/plain; charset=utf-8" "text/plain" refl refl,
      ((λ _. octet_stream), ((λ _. pkcs8), tt)),
    ),
  ),
)

pub is_supported-Stored : (m : String) → is_supported m ≡ true → Stored (normalize_content_type m)
unfolding is_supported
is_supported-Stored m h =
    text_in-AllOf (λ t. IsNormal t → Stored t) (normalize_content_type m) supported supported-AllOf
      h (normalize_content_type_idem m)

-- What a normal type admits as the encoding of its content.
abbrev pub admits : {t : String} → Stored t → Option String → Bool
admits plain none = true
admits plain (some e) = false
admits octet_stream none = false
admits octet_stream (some e) = text_in e ("base64" ∷ "binary" ∷ [])
admits pkcs8 none = false
admits pkcs8 (some e) = text_in e ("base64" ∷ "binary" ∷ [])

encodings_of-Stored :
    {t : String} (s : Stored t) (e : Option String)
    → (es : Option (List String)) × (encodings_of t ≡ some es)
      × (content_encoding_in e es ≡ admits s e)
unfolding encodings_of get_codes
encodings_of-Stored plain none = (_, refl, refl)
encodings_of-Stored plain (some e) = (_, refl, refl)
encodings_of-Stored octet_stream none = (_, refl, refl)
encodings_of-Stored octet_stream (some e) = (_, refl, refl)
encodings_of-Stored pkcs8 none = (_, refl, refl)
encodings_of-Stored pkcs8 (some e) = (_, refl, refl)

-- A type that is supported has one of the three stored types as its normal form, whose normal form
-- is itself. No dict lacks it, so the test of an encoding gives an answer: text takes no encoding,
-- and the binary types take base64 and binary.
pub is_content_type_with_encoding_supported_lem :
    (m : String) (e : Option String)
    → is_supported m ≡ true
    → (s : Stored (normalize_content_type m)) × (normalize_content_type (normalize_content_type m)
        ≡ normalize_content_type m)
      × (is_content_type_with_encoding_supported m e ≡ some (admits s e))
unfolding is_content_type_with_encoding_supported
is_content_type_with_encoding_supported_lem m e h =
    let s = is_supported-Stored m h in
    let (es, found, same) = encodings_of-Stored s e in
    (s, normalize_content_type_idem m, rw (h, found) (ap some same))
