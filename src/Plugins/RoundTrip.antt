-- ===== src/Plugins/RoundTrip.antt =====
-- The plugin that stores a secret, and the one that its full name finds afterwards.
use mathlib.Core.List.{Memᴰ}
use mathlib.Core.List.Memᴰ
use mathlib.Core.Bool.{false≢true}
use mathlib.Core.Path.{subst}
use mathlib.Core.Option.{some_inj}
use barbican.Shared.{
  Option-cases, Bool-cases, eq_iff, eq_refl, ℕ, String, ◌≡◌, refl, sym, ap, ◌∙◌, ◌⊎◌, inl, inr,
  Bool, true, false, Option, none, some, List, [], ◌∷◌, str_eq,
}
use barbican.Shared.Result.{Result, ok, raised, some_or, ◌>>=◌}
use barbican.Plugins.{
  PluginError, SecretStore, Db, Extension, Manager, PluginOps, first_such, passing_or,
  first_passing, dict_set, lookup_name, values, get_active_plugins, dict_from, plugin_dict,
  store_data, plugins_named, get_applicable_plugins_for_type, PluginType, store_plugin_field,
  plugin_name_in, applicable_in,
}
use barbican.Plugins.Managers.{
  can_store, has_name, choose_store, enforce_configured, get_plugin_store,
  get_plugin_retrieve_delete,
}

module _ {A : Type 0} where
  pub first_such-Memᴰ :
      (f : A → Bool) (xs : List A) (p : A) → first_such f xs ≡ some p → Memᴰ p xs × (f p ≡ true)
  unfolding first_such
  first_such-Memᴰ f [] p h = cc
  first_such-Memᴰ f (x ∷ xs) p h = elim (Bool-cases (f x)) [
    | inl e ↦
        let same : x ≡ p = cc (rw e at h) in (Memᴰ.head (sym same), subst (λ y. f y ≡ true) same e)
    | inr e ↦ let (m, t) = first_such-Memᴰ f xs p (rw e at h) in (Memᴰ.tail m, t)
  ]

  -- An element that passes is found, or an earlier one is.
  pub first_such-found :
      (f : A → Bool) (xs : List A) (p : A)
      → Memᴰ p xs
      → f p ≡ true
      → (q : A) × (first_such f xs ≡ some q)
  unfolding first_such
  first_such-found f (x ∷ xs) p m t = elim (Bool-cases (f x)) [
    | inl e ↦ (x, rw e)
    | inr e ↦ elim (Memᴰ.cases_cons m) [
      | inl q ↦ absurd (false≢true (sym e ∙ ap f (sym q) ∙ t))
      | inr k ↦ rw e (first_such-found f xs p k t)
    ]
  ]
  first_such-found f [] p m t = absurd (Memᴰ.not-nil m)

  lookup_name-Memᴰ :
      (k : String) (d : List (String × A)) (p : A) → lookup_name k d ≡ some p → Memᴰ p (values d)
  unfolding lookup_name values
  lookup_name-Memᴰ k [] p h = cc
  lookup_name-Memᴰ k ((j, u) ∷ d) p h = elim (Bool-cases (str_eq j k)) [
    | inl e ↦ let same : u ≡ p = cc (rw e at h) in Memᴰ.head (sym same)
    | inr e ↦ Memᴰ.tail (lookup_name-Memᴰ k d p (rw e at h))
  ]

  dict_set-Memᴰ :
      (k : String) (v : A) (d : List (String × A)) (p : A)
      → Memᴰ p (values (dict_set k v d))
      → (p ≡ v) ⊎ Memᴰ p (values d)
  unfolding dict_set values
  dict_set-Memᴰ k v [] p m = Memᴰ.cases_cons m
  dict_set-Memᴰ k v ((j, u) ∷ d) p m = elim (Bool-cases (str_eq j k)) [
    | inl e ↦ elim (Memᴰ.cases_cons {a = p} {b = v} {l = values d} (rw e at m)) [
      | inl q ↦ inl q
      | inr r ↦ inr (Memᴰ.tail r)
    ]
    | inr e ↦ elim (Memᴰ.cases_cons {a = p} {b = u} {l = values (dict_set k v d)} (rw e at m)) [
      | inl q ↦ inr (Memᴰ.head q)
      | inr r ↦ elim (dict_set-Memᴰ k v d p r) [ inl q ↦ inl q | inr t ↦ inr (Memᴰ.tail t) ]
    ]
  ]

  dict_from-Memᴰ :
      (d : List (String × A)) (es : List (Extension A)) (p : A)
      → Memᴰ p (values (dict_from d es))
      → Memᴰ p (values d) ⊎ Memᴰ p (get_active_plugins es)
  unfolding dict_from get_active_plugins
  dict_from-Memᴰ d [] p m = inl m
  dict_from-Memᴰ d (e ∷ es) p m = elim (Option-cases e.obj) [
    | inl h ↦ rw h (dict_from-Memᴰ d es p (rw h at m))
    | inr (v, h) ↦ rw h (elim (dict_from-Memᴰ (dict_set e.name v d) es p (rw h at m)) [
      | inl k ↦ elim (dict_set-Memᴰ e.name v d p k) [ inl q ↦ inr (Memᴰ.head q) | inr t ↦ inl t ]
      | inr k ↦ inr (Memᴰ.tail k)
    ])
  ]

  plugin_dict-Memᴰ :
      (es : List (Extension A)) (p : A)
      → Memᴰ p (values (plugin_dict es))
      → Memᴰ p (get_active_plugins es)
  unfolding values
  plugin_dict-Memᴰ es p m = elim (dict_from-Memᴰ [] es p m) [
    | inl k ↦ absurd (Memᴰ.not-nil k)
    | inr k ↦ k
  ]

pub ok-inj : {A : Type 0} {a b : A} → (let r : Result PluginError A = ok a in r) ≡ ok b → a ≡ b
ok-inj h = cc

none-not-some :
    {A : Type 0} {a : A} → ¬ (let r : Result PluginError (Option A) = ok none in r ≡ ok (some a))
none-not-some h = cc

passing_or-ok :
    {A : Type 0} (x : A) (r : Result PluginError Bool) (rest : Result PluginError (Option A))
    (p : A)
    → passing_or x r rest ≡ ok (some p)
    → (x ≡ p) ⊎ (rest ≡ ok (some p))
passing_or-ok x (raised y) rest p h = cc
passing_or-ok x (ok true) rest p h = inl (some_inj.0 (ok-inj h))
passing_or-ok x (ok false) rest p h = inr h

pub some_or-ok :
    {A : Type 0} (o : Option A) (x : PluginError) (a : A) → some_or o x ≡ ok a → o ≡ some a
some_or-ok none x a h = cc
some_or-ok (some b) x a h = ap some (ok-inj h)

pub bind-ok :
    {A B : Type 0} (r : Result PluginError A) (f : A → Result PluginError B) (b : B)
    → (r >>= f) ≡ ok b
    → (a : A) × (r ≡ ok a) × (f a ≡ ok b)
bind-ok (ok a) f b h = (a, refl, h)
bind-ok (raised x) f b h = cc

module _ {P K : Type 0} (ops : PluginOps P K) where
  first_passing-Memᴰ :
      (f : P → Result PluginError Bool) (ps : List P) (p : P)
      → first_passing f ps ≡ ok (some p)
      → Memᴰ p ps
  unfolding first_passing
  first_passing-Memᴰ f [] p h = absurd (none-not-some h)
  first_passing-Memᴰ f (x ∷ xs) p h = elim (passing_or-ok x (f x) (first_passing f xs) p h) [
    | inl e ↦ Memᴰ.head (sym e)
    | inr t ↦ Memᴰ.tail (first_passing-Memᴰ f xs p t)
  ]

  choose_store-Memᴰ :
      (key_spec : K) (name : Option String) (transport : Bool) (ps : List P) (p : P)
      → choose_store ops key_spec name transport ps ≡ ok p
      → Memᴰ p ps
  unfolding choose_store
  choose_store-Memᴰ key_spec none transport ps p h =
      let (found, e, t) = bind-ok (first_passing (can_store ops transport key_spec) ps) _ p h in
      first_passing-Memᴰ (can_store ops transport key_spec) ps p
        (e ∙ ap ok (some_or-ok found _ p t))
  choose_store-Memᴰ key_spec (some n) transport ps p h =
      (first_such-Memᴰ (has_name ops n) ps p (some_or-ok _ _ p h)).0

  plugins_named-Memᴰ :
      (n : Option String) (d : List (String × P)) (ps : List P) (p : P)
      → plugins_named n d ≡ ok ps
      → Memᴰ p ps
      → Memᴰ p (values d)
  unfolding plugins_named
  plugins_named-Memᴰ none d ps p h m = absurd (Memᴰ.not-nil (subst (Memᴰ p) (sym (ok-inj h)) m))
  plugins_named-Memᴰ (some n) d ps p h m = elim (Option-cases (lookup_name n d)) [
    | inr (q, e) ↦
        Memᴰ.cast
          (Memᴰ.eq_of_singleton
            (subst (Memᴰ p) (sym (ok-inj {b = ps} (rw (e, plugins_named) at h))) m))
          (lookup_name-Memᴰ n d q e)
    | inl e ↦ elim (Bool-cases (str_eq n "")) [
      | inl t ↦
          absurd (
            Memᴰ.not-nil (subst (Memᴰ p) (sym (ok-inj {b = ps} (rw (e, plugins_named, t) at h))) m))
      | inr t ↦ cc (rw (e, plugins_named, t) at h)
    ]
  ]

  applicable_in-Memᴰ :
      (field : PluginType) (d : List (String × P))
      (out : Result PluginError SecretStore × Manager P) (ps : List P) (p : P)
      → (applicable_in field d out).0 ≡ ok ps
      → Memᴰ p ps
      → Memᴰ p (values d)
  applicable_in-Memᴰ field d (raised x, m) ps p h k = cc
  applicable_in-Memᴰ field d (ok s, m) ps p h k =
      plugins_named-Memᴰ (plugin_name_in field s) d ps p h k

  pub applicable-Memᴰ :
      (enabled : Bool) (db : Db) (i : ℕ) (existing : Option String) (field : PluginType)
      (m : Manager P) (ps : List P) (p : P)
      → (get_applicable_plugins_for_type enabled db i existing field m).0 ≡ ok ps
      → Memᴰ p ps
      → Memᴰ p (get_active_plugins m.extensions)
  unfolding get_applicable_plugins_for_type
  applicable-Memᴰ false db i existing field m ps p h k =
      plugin_dict-Memᴰ m.extensions p (subst (Memᴰ p) (sym (ok-inj h)) k)
  applicable-Memᴰ true db i (some n) field m ps p h k =
      plugin_dict-Memᴰ m.extensions p (subst (Memᴰ p) (sym (ok-inj h)) k)
  applicable-Memᴰ true db i none field m ps p h k =
      plugin_dict-Memᴰ m.extensions p
        (applicable_in-Memᴰ field (plugin_dict m.extensions) (store_data i db m) ps p h k)

  enforce_configured-ok :
      (es : List (Extension P)) (out : Result PluginError P × Manager P) (m : Manager P) (p : P)
      → (enforce_configured ops es out m).0 ≡ ok p
      → out.0 ≡ ok p
  enforce_configured-ok [] out m p h = cc
  enforce_configured-ok (e ∷ es) out m p h = h

  enforce_configured-Memᴰ :
      (es : List (Extension P)) (out : Result PluginError P × Manager P) (m : Manager P) (p : P)
      → Memᴰ p (get_active_plugins es)
      → (enforce_configured ops es out m).0 ≡ out.0
  unfolding get_active_plugins
  enforce_configured-Memᴰ [] out m p k = absurd (Memᴰ.not-nil k)
  enforce_configured-Memᴰ (e ∷ es) out m p k = refl

  get_plugin_store-Memᴰ :
      (enabled : Bool) (db : Db) (key_spec : K) (name : Option String) (transport : Bool) (i : ℕ)
      (m : Manager P) (p : P)
      → (get_plugin_store ops enabled db key_spec name transport i m).0 ≡ ok p
      → Memᴰ p (get_active_plugins m.extensions)
  unfolding get_plugin_store
  get_plugin_store-Memᴰ enabled db key_spec name transport i m p h =
      let (ps, e, c) =
        bind-ok (get_applicable_plugins_for_type enabled db i name store_plugin_field m).0
          (choose_store ops key_spec name transport) p
          (enforce_configured-ok m.extensions _ m p h) in
      applicable-Memᴰ enabled db i name store_plugin_field m ps p e
        (choose_store-Memᴰ key_spec name transport ps p c)

  -- The plugins have full names of their own.
  abbrev pub HasOwnNames : List P → Type 0
  HasOwnNames ps = (p q : P) → Memᴰ p ps → Memᴰ q ps → ops.fullname p ≡ ops.fullname q → p ≡ q

  retrieve_lem :
      (m : Manager P) (p : P)
      → HasOwnNames (get_active_plugins m.extensions)
      → Memᴰ p (get_active_plugins m.extensions)
      → (get_plugin_retrieve_delete ops (ops.fullname p) m).0 ≡ ok p
  unfolding get_plugin_retrieve_delete
  retrieve_lem m p own k =
      let active : List P = get_active_plugins m.extensions in
      let (q, found) =
        first_such-found (has_name ops (ops.fullname p)) active p k (eq_refl (ops.fullname p)) in
      let (kq, t) = first_such-Memᴰ (has_name ops (ops.fullname p)) active q found in
      let same : q ≡ p = own q p kq k ((eq_iff (ops.fullname q) (ops.fullname p)).0 t) in
      enforce_configured-Memᴰ m.extensions _ m p k ∙ rw found (ap ok same)

  -- Whichever plugin is chosen to store a secret, with one backend or several, by name or by what
  -- it supports, its full name finds the same plugin for the reading and the deletion of the
  -- secret, in any manager with the same extensions, where the plugins have names of their own.
  pub get_plugin_retrieve_delete-get_plugin_store :
      (enabled : Bool) (db : Db) (key_spec : K) (name : Option String) (transport : Bool) (i : ℕ)
      (m m' : Manager P) (p : P)
      → m'.extensions ≡ m.extensions
      → HasOwnNames (get_active_plugins m.extensions)
      → (get_plugin_store ops enabled db key_spec name transport i m).0 ≡ ok p
      → (get_plugin_retrieve_delete ops (ops.fullname p) m').0 ≡ ok p
  get_plugin_retrieve_delete-get_plugin_store enabled db key_spec name transport i m m' p e own h =
      let k = get_plugin_store-Memᴰ enabled db key_spec name transport i m p h in
      retrieve_lem m' p (rw e own) (rw e k)
