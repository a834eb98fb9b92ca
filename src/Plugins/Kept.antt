-- ===== src/Plugins/Kept.antt =====
-- The managers keep their extensions, and the crypto plugin that a secret was encrypted with is
-- found again.
use mathlib.Core.List.{Memᴰ}
use mathlib.Core.List.Memᴰ
use mathlib.Core.Path.{}
use barbican.Shared.{
  Option-cases, inl, inr, eq_iff, eq_refl, ℕ, String, ◌≡◌, refl, ap, ◌∙◌, ◌⊎◌, Bool, true, false,
  Option, none, some, List, [], ◌∷◌,
}
use barbican.Shared.Result.{Result, ok, raised}
use barbican.Plugins.{
  PluginError, SecretStore, Db, Extension, Manager, PluginOps, get_active_plugins, default_store,
  store_data, get_secret_store_for_project, get_global_default_secret_store,
  get_applicable_plugins_for_type, PluginType, crypto_plugin_field, store_plugin_field, plugin_dict,
  applicable_in,
}
use barbican.Plugins.Managers.{
  has_name, choose_crypto, enforce_configured, get_plugin_store, get_plugin_store_generate,
  get_plugin_retrieve,
}
use barbican.Plugins.RoundTrip.{
  HasOwnNames, first_such-Memᴰ, first_such-found, applicable-Memᴰ, bind-ok, some_or-ok,
}

Result-cases :
    (r : Result PluginError (Option SecretStore))
    → ((x : PluginError) × (r ≡ raised x))
      ⊎ ((r ≡ ok none) ⊎ ((s : SecretStore) × (r ≡ ok (some s))))
Result-cases (raised x) = inl (x, refl)
Result-cases (ok none) = inr (inl refl)
Result-cases (ok (some s)) = inr (inr (s, refl))

module _ {P : Type 0} where
  default_store_extensions :
      (db : Db) (m : Manager P) → (default_store db m).1.extensions ≡ m.extensions
  unfolding default_store
  default_store_extensions db m = elim (Option-cases m.global_default_store_dict) [
    | inr (s, e) ↦ rw (default_store, e)
    | inl e ↦ (elim (Option-cases (get_global_default_secret_store db)) [
      | inl d ↦ rw (default_store, e, d)
      | inr (s, d) ↦ rw (default_store, e, d)
    ])
  ]

  store_data-extensions :
      (i : ℕ) (db : Db) (m : Manager P) → (store_data i db m).1.extensions ≡ m.extensions
  unfolding store_data
  store_data-extensions i db m = elim (Result-cases (get_secret_store_for_project i db)) [
    | inl (x, e) ↦ rw (store_data, e)
    | inr (inl e) ↦ rw (store_data, e) (default_store_extensions db m)
    | inr (inr (s, e)) ↦ rw (store_data, e)
  ]

  applicable_in-manager :
      (field : PluginType) (d : List (String × P))
      (out : Result PluginError SecretStore × Manager P)
      → (applicable_in field d out).1 ≡ out.1
  applicable_in-manager field d (raised x, m) = refl
  applicable_in-manager field d (ok s, m) = refl

  get_applicable_plugins_for_type-extensions :
      (enabled : Bool) (db : Db) (i : ℕ) (existing : Option String) (field : PluginType)
      (m : Manager P)
      → (get_applicable_plugins_for_type enabled db i existing field m).1.extensions ≡ m.extensions
  unfolding get_applicable_plugins_for_type
  get_applicable_plugins_for_type-extensions false db i existing field m = refl
  get_applicable_plugins_for_type-extensions true db i (some n) field m = refl
  get_applicable_plugins_for_type-extensions true db i none field m =
      ap (λ n. n.extensions) (applicable_in-manager field (plugin_dict m.extensions) _)
      ∙ store_data-extensions i db m

module _ {P K : Type 0} (ops : PluginOps P K) where
  enforce_configured-extensions :
      (es : List (Extension P)) (out : Result PluginError P × Manager P) (m : Manager P)
      → out.1.extensions ≡ m.extensions
      → (enforce_configured ops es out m).1.extensions ≡ m.extensions
  enforce_configured-extensions [] out m h = refl
  enforce_configured-extensions (e ∷ es) out m h = h

  pub get_plugin_store-extensions :
      (enabled : Bool) (db : Db) (key_spec : K) (name : Option String) (transport : Bool) (i : ℕ)
      (m : Manager P)
      → (get_plugin_store ops enabled db key_spec name transport i m).1.extensions ≡ m.extensions
  unfolding get_plugin_store
  get_plugin_store-extensions enabled db key_spec name transport i m =
      enforce_configured-extensions m.extensions _ m
        (get_applicable_plugins_for_type-extensions enabled db i name store_plugin_field m)

  pub get_plugin_store_generate-extensions :
      (enabled : Bool) (db : Db) (supports : P → Bool) (i : ℕ) (m : Manager P)
      → (get_plugin_store_generate ops enabled db supports i m).1.extensions ≡ m.extensions
  unfolding get_plugin_store_generate
  get_plugin_store_generate-extensions enabled db supports i m =
      get_applicable_plugins_for_type-extensions enabled db i none crypto_plugin_field m

  choose_crypto-Memᴰ :
      (f : P → Bool) (ps : List P) (p : P) → choose_crypto ops f ps ≡ ok p → Memᴰ p ps
  choose_crypto-Memᴰ f [] p h = cc
  choose_crypto-Memᴰ f (x ∷ xs) p h = (first_such-Memᴰ f (x ∷ xs) p (some_or-ok _ _ p h)).0

  get_plugin_store_generate-Memᴰ :
      (enabled : Bool) (db : Db) (supports : P → Bool) (i : ℕ) (m : Manager P) (p : P)
      → (get_plugin_store_generate ops enabled db supports i m).0 ≡ ok p
      → Memᴰ p (get_active_plugins m.extensions)
  unfolding get_plugin_store_generate
  get_plugin_store_generate-Memᴰ enabled db supports i m p h =
      let (ps, e, c) =
        bind-ok (get_applicable_plugins_for_type enabled db i none crypto_plugin_field m).0
          (choose_crypto ops supports) p h in
      applicable-Memᴰ ops enabled db i none crypto_plugin_field m ps p e
        (choose_crypto-Memᴰ supports ps p c)

  choose_crypto_own :
      (ps : List P) (p : P)
      → HasOwnNames ops ps
      → Memᴰ p ps
      → choose_crypto ops (has_name ops (ops.fullname p)) ps ≡ ok p
  choose_crypto_own [] p own k = absurd (Memᴰ.not-nil k)
  choose_crypto_own (x ∷ xs) p own k =
      let (q, found) =
        first_such-found (has_name ops (ops.fullname p)) (x ∷ xs) p k (eq_refl (ops.fullname p)) in
      let (kq, t) = first_such-Memᴰ (has_name ops (ops.fullname p)) (x ∷ xs) q found in
      rw found (ap ok (own q p kq k ((eq_iff (ops.fullname q) (ops.fullname p)).0 t)))

  -- The crypto plugin that was chosen is found by its full name, in any manager with the same
  -- extensions.
  pub get_plugin_retrieve-get_plugin_store_generate :
      (enabled : Bool) (db : Db) (supports : P → Bool) (i : ℕ) (m m' : Manager P) (p : P)
      → m'.extensions ≡ m.extensions
      → HasOwnNames ops (get_active_plugins m.extensions)
      → (get_plugin_store_generate ops enabled db supports i m).0 ≡ ok p
      → get_plugin_retrieve ops (ops.fullname p) m' ≡ (ok p, m')
  unfolding get_plugin_retrieve
  get_plugin_retrieve-get_plugin_store_generate enabled db supports i m m' p e own h = rw (
    e,
    choose_crypto_own (get_active_plugins m.extensions) p own
        (get_plugin_store_generate-Memᴰ enabled db supports i m p h),
  )
