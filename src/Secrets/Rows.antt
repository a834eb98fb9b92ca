-- ===== src/Secrets/Rows.antt =====
-- The rows of one secret in the tables.
use mathlib.Core.Bool.{false≢true}
use barbican.Shared.{
  Bool-cases, inl, inr, ℕ, String, ◌≡◌, refl, sym, ap, ◌∙◌, ◌⊎◌, Bool, true, false, none, some,
  List, [], ◌∷◌, ◌++◌, ◌≤◌, arith, keep_if, ◌==◌, str_eq,
}
use barbican.Plugins.{dict_set}
use barbican.Secrets.Data.{Metadata}
use barbican.Secrets.World.{
  Secret, EncryptedDatum, SecretStoreMetadatum, World, metadata_rows, metadata_from,
  get_metadata_for_secret, data_of,
}
use barbican.Secrets.Keks.{id_refl}
use barbican.Secrets.Resources.{is_nil, with_plugin}
use barbican.Secrets.Requests.{has_rows, secret_already_has_stored_data}

keep_if-append :
    {A : Type 0} (f : A → Bool) (xs ys : List A)
    → keep_if f xs ≡ []
    → keep_if f (xs ++ ys) ≡ keep_if f ys
keep_if-append f [] ys h = refl
keep_if-append f (x ∷ xs) ys h = elim (Bool-cases (f x)) [
  | inl e ↦ cc (rw e at h)
  | inr e ↦ rw e (keep_if-append f xs ys (rw e at h))
]

is_nil_eq : {A : Type 0} (xs : List A) → is_nil xs ≡ true → xs ≡ []
is_nil_eq [] h = refl
is_nil_eq (x ∷ xs) h = absurd (false≢true h)

dict_set_not_nil : (k v : String) (d : Metadata) → is_nil (dict_set k v d) ≡ false
unfolding dict_set
dict_set_not_nil k v [] = refl
dict_set_not_nil k v ((j, u) ∷ d) = elim (Bool-cases (str_eq j k)) [ inl e ↦ rw e | inr e ↦ rw e ]

metadata_from_not_nil :
    (d : Metadata) (ms : List SecretStoreMetadatum)
    → is_nil d ≡ false
    → is_nil (metadata_from d ms) ≡ false
metadata_from_not_nil d [] h = h
metadata_from_not_nil d (m ∷ ms) h =
    metadata_from_not_nil (dict_set m.key m.value d) ms (dict_set_not_nil m.key m.value d)

metadata_from_nil : (ms : List SecretStoreMetadatum) → is_nil (metadata_from [] ms) ≡ true → ms ≡ []
metadata_from_nil [] h = refl
metadata_from_nil (m ∷ ms) h = absurd (
    false≢true (
      sym (metadata_from_not_nil (dict_set m.key m.value []) ms (dict_set_not_nil m.key m.value []))
      ∙ h))

keep_if-metadata_rows :
    (i : ℕ) (d : Metadata)
    → keep_if (λ (m : SecretStoreMetadatum). m.secret_id == i) (metadata_rows i d)
      ≡ metadata_rows i d
keep_if-metadata_rows i [] = refl
keep_if-metadata_rows i ((k, v) ∷ d) =
    rw (id_refl i)
      (ap (λ t. record { secret_id = i; key = k; value = v } ∷ t) (keep_if-metadata_rows i d))

abbrev pub NoRows : {P C S : Type 0} → ℕ → World P C S → Type 0
NoRows i w =
    (data_of i w ≡ []) × (keep_if (λ (m : SecretStoreMetadatum). m.secret_id == i) w.metadata ≡ [])

-- No row is that of a secret to come.
abbrev pub IsFresh : {P C S : Type 0} → World P C S → Type 0
IsFresh w = (i : ℕ) → w.next_id ≤ i → NoRows i w

module _ {P C S : Type 0} where
  has_rows-NoRows : (i : ℕ) (w : World P C S) → has_rows (some i) w ≡ false → NoRows i w
  unfolding get_metadata_for_secret
  has_rows-NoRows i w h = elim (Bool-cases (is_nil (data_of i w))) [
    | inr e ↦ absurd (false≢true (sym h ∙ rw e))
    | inl e ↦ elim (Bool-cases (is_nil (get_metadata_for_secret i w))) [
      | inr d ↦ absurd (false≢true (sym h ∙ rw (e, d)))
      | inl d ↦ (is_nil_eq (data_of i w) e, metadata_from_nil _ d)
    ]
  ]

  pub secret_already_has_stored_data-NoRows :
      (secret : Secret) (i : ℕ) (w : World P C S)
      → IsFresh w
      → (secret.id ≡ some i) ⊎ ((secret.id ≡ none) × (w.next_id ≤ i))
      → secret_already_has_stored_data secret w ≡ false
      → NoRows i w
  unfolding secret_already_has_stored_data
  secret_already_has_stored_data-NoRows secret i w fresh (inl own) h =
      has_rows-NoRows i w (sym (ap (λ o. has_rows o w) own) ∙ h)
  secret_already_has_stored_data-NoRows secret i w fresh (inr (none_own, le)) h = fresh i le

  pub data_of_added :
      (i : ℕ) (w w' : World P C S) (d : EncryptedDatum)
      → NoRows i w
      → d.secret_id ≡ i
      → w'.encrypted_data ≡ w.encrypted_data ++ d ∷ []
      → data_of i w' ≡ d ∷ []
  unfolding data_of
  data_of_added i w w' d (n, _) id h =
      let own : (d.secret_id == i) ≡ true = ground arith in
      rw h (keep_if-append _ w.encrypted_data (d ∷ []) n ∙ rw own)

  pub get_metadata_for_secret_added :
      (i : ℕ) (w w' : World P C S) (name t : String)
      → NoRows i w
      → w'.metadata ≡ w.metadata ++ metadata_rows i (with_plugin none name t)
      → get_metadata_for_secret i w' ≡ ("plugin_name", name) ∷ ("content_type", t) ∷ []
  unfolding get_metadata_for_secret with_plugin dict_set
  get_metadata_for_secret_added i w w' name t (_, n) h =
      let d = with_plugin none name t in
      rw h (
        ap (metadata_from [])
          (keep_if-append _ w.metadata (metadata_rows i d) n ∙ keep_if-metadata_rows i d))
