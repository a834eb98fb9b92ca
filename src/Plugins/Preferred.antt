-- ===== src/Plugins/Preferred.antt =====
-- A store that a project prefers stays as it is when the service synchronizes the stores with its
-- configuration, as the docstring of sync_secret_stores asks.
use mathlib.Core.Path.{subst}
use barbican.Shared.{
  ℕ, String, ◌≡◌, ◌≢◌, refl, sym, ap, ◌∙◌, inl, inr, Bool, true, false, not, Bool-cases, Option,
  none, some, List, [], ◌∷◌, ◌++◌, ◌==◌, keep_if, length, arith, if◌then◌else◌,
}
use barbican.Shared.Result.{Result, ok, raised}
use barbican.Shared.Exec.{Exec, pure, raise, lift, gets, continue, ◌>>=◌}
use barbican.Plugins.{PluginError, SecretStore, ProjectSecretStore, Db, first_such}
use barbican.Plugins.Config.{StoreConf}
use barbican.Plugins.Sync.{
  Tables, NewStore, create_store, set_default, save_default, delete_store, sync_match, sync_confs,
  remove_unused, remove_stores, create_stores, sync_rows, sync_secret_stores, conf_stores,
  get_count_by_secret_store, fn_match,
}

-- What the plugin managers read in the row of a store.
pub record View : Type 0 where
  pub name : String
  pub store_plugin : String
  pub crypto_plugin : Option String

abbrev pub view_of : SecretStore → View
view_of s = record { name = s.name; store_plugin = s.store_plugin; crypto_plugin = s.crypto_plugin }

unfoldable pub view : ℕ → List SecretStore → Option View
view i [] = none
view i (s ∷ ss) = if s.id == i then some (view_of s) else view i ss

module _ (i : ℕ) (v : View) where
  view-append : (xs ys : List SecretStore) → view i xs ≡ some v → view i (xs ++ ys) ≡ some v
  unfolding view
  view-append [] ys h = cc
  view-append (x ∷ xs) ys h = elim (Bool-cases (x.id == i)) [
    | inl e ↦ rw e (rw e at h)
    | inr e ↦ rw e (view-append xs ys (rw e at h))
  ]

  view-set_default :
      (j : ℕ) (b : Bool) (xs : List SecretStore) → view i (set_default j b xs) ≡ view i xs
  unfolding view
  view-set_default j b [] = refl
  view-set_default j b (x ∷ xs) = ground (arith, view-set_default j b xs)

  view-delete :
      (j : ℕ) (xs : List SecretStore)
      → j ≢ i
      → view i (keep_if (λ s. not (s.id == j)) xs) ≡ view i xs
  unfolding view
  view-delete j [] n = refl
  view-delete j (x ∷ xs) n = ground (arith, view-delete j xs n)

module _ (i : ℕ) (v : View) (prefs : List ProjectSecretStore) where
  -- The store has its row, and the projects their preferences.
  record HoldsIn (db : Db) : Type 0 where
    pub stands : view i db.secret_stores ≡ some v
    pub preferred : db.project_stores ≡ prefs

  record Holds (w : Tables) : Type 0 where
    pub now : HoldsIn w.db
    pub before : HoldsIn w.committed

  abbrev Keeps : {A : Type 0} → Exec Tables PluginError A → Type 0
  Keeps m = (w : Tables) → Holds w → Holds (m w).1

  continue-Keeps :
      {A B : Type 0} (f : A → Exec Tables PluginError B)
      → ((a : A) → Keeps (f a))
      → (p : Result PluginError A × Tables) → Holds p.1
      → Holds (continue p.0 f p.1).1
  continue-Keeps f k (ok a, w) h = k a w h
  continue-Keeps f k (raised x, w) h = h

  bind-Keeps :
      {A B : Type 0} (m : Exec Tables PluginError A) (f : A → Exec Tables PluginError B)
      → Keeps m
      → ((a : A) → Keeps (f a))
      → Keeps (m >>= f)
  unfolding ◌>>=◌
  bind-Keeps m f k l w h = continue-Keeps f l (m w) (k w h)

  choose-Holds :
      {A : Type 0} (b : Bool) (p q : Result PluginError A × Tables)
      → Holds p.1
      → Holds q.1
      → Holds (if b then p else q).1
  choose-Holds true p q h k = h
  choose-Holds false p q h k = k

  create_store-Keeps : (c : NewStore) → Keeps (create_store c)
  unfolding create_store
  create_store-Keeps c w h =
      choose-Holds _ _ _ (record { now = h.before; before = h.before })
        (record {
          now = record {
            stands = view-append i v w.db.secret_stores _ h.now.stands;
            preferred = h.now.preferred;
          };
          before = h.before;
        })

  save_default-Keeps : (j : ℕ) (b : Bool) → Keeps (save_default j b)
  unfolding save_default
  save_default-Keeps j b w h = record {
    now = record {
      stands = view-set_default i v j b w.db.secret_stores ∙ h.now.stands;
      preferred = h.now.preferred;
    };
    before = h.before;
  }

  delete_store-Keeps : (j : ℕ) → j ≢ i → Keeps (delete_store j)
  unfolding delete_store
  delete_store-Keeps j n w h = record {
    now = record {
      stands = view-delete i v j w.db.secret_stores n ∙ h.now.stands;
      preferred = h.now.preferred;
    };
    before = h.before;
  }

  choose-Keeps :
      {A : Type 0} (b : Bool) (m n : Exec Tables PluginError A)
      → Keeps m
      → Keeps n
      → Keeps (if b then m else n)
  choose-Keeps true m n k l = k
  choose-Keeps false m n k l = l

  sync_match-Keeps :
      (c : NewStore) (found : Option SecretStore) (rows : List SecretStore)
      → Keeps (sync_match c found rows)
  unfolding pure
  sync_match-Keeps c none rows =
      bind-Keeps (create_store c) (λ _. pure rows) (create_store-Keeps c) (λ _. λ w. λ h. h)
  sync_match-Keeps c (some s) rows =
      bind-Keeps _ _
        (choose-Keeps _ (pure tt) (save_default s.id c.global_default) (λ w. λ h. h)
          (save_default-Keeps s.id c.global_default))
        (λ _. λ w. λ h. h)

  sync_confs-Keeps : (cs : List NewStore) (rows : List SecretStore) → Keeps (sync_confs cs rows)
  unfolding sync_confs pure
  sync_confs-Keeps [] rows = λ w. λ h. h
  sync_confs-Keeps (c ∷ cs) rows =
      bind-Keeps _ _ (sync_match-Keeps c (first_such (fn_match c) rows) rows)
        (λ rest. sync_confs-Keeps cs rest)

  create_stores-Keeps : (cs : List NewStore) → Keeps (create_stores cs)
  unfolding create_stores pure
  create_stores-Keeps [] = λ w. λ h. h
  create_stores-Keeps (c ∷ cs) = bind-Keeps _ _ (create_store-Keeps c) (λ _. create_stores-Keeps cs)

  module _ (used : length (keep_if (λ r. r.secret_store_id == i) prefs) ≢ 0) where
    in_use : (j : ℕ) (w : Tables) → Holds w → get_count_by_secret_store j w ≡ 0 → j ≢ i
    unfolding get_count_by_secret_store
    in_use j w h z e = used (
        sym (ap (λ n. length (keep_if (λ r. r.secret_store_id == n) prefs)) e)
        ∙ sym (ap (λ rs. length (keep_if (λ r. r.secret_store_id == j) rs)) h.now.preferred)
        ∙ z)

    remove_unused-Holds :
        (s : SecretStore) (w : Tables)
        → Holds w
        → Holds (remove_unused s (get_count_by_secret_store s.id w) w).1
    unfolding raise
    remove_unused-Holds s w h = elim (Bool-cases (get_count_by_secret_store s.id w == 0)) [
      | inl e ↦ rw e (delete_store-Keeps s.id (in_use s.id w h (ground arith)) w h)
      | inr e ↦ rw e h
    ]

    remove_stores-Keeps : (ss : List SecretStore) → Keeps (remove_stores ss)
    unfolding remove_stores pure gets ◌>>=◌
    remove_stores-Keeps [] w h = h
    remove_stores-Keeps (s ∷ ss) w h =
        continue-Keeps (λ _. remove_stores ss) (λ _. remove_stores-Keeps ss)
          (remove_unused s (get_count_by_secret_store s.id w) w) (remove_unused-Holds s w h)

    sync_rows-Keeps : (rows : List SecretStore) (cs : List NewStore) → Keeps (sync_rows rows cs)
    sync_rows-Keeps [] cs = create_stores-Keeps cs
    sync_rows-Keeps (s ∷ ss) cs =
        bind-Keeps _ _ (sync_confs-Keeps cs (s ∷ ss)) (λ rest. remove_stores-Keeps rest)

-- A store that some project prefers, with nothing uncommitted before: however synchronizing with a
-- configuration ends, by an error too, the row found under the store's id still has the name and
-- the plugins it had, and the projects' preferences are as they were.
pub sync_secret_stores-preferred :
    (enabled : Bool) (ss_names crypto_names : List (String × String)) (conf : List StoreConf)
    (i : ℕ) (v : View) (w : Tables)
    → w.db ≡ w.committed
    → get_count_by_secret_store i w ≢ 0
    → view i w.db.secret_stores ≡ some v
    → let after : Tables = (sync_secret_stores enabled ss_names crypto_names conf w).1 in
      (view i after.db.secret_stores ≡ some v) × (after.db.project_stores ≡ w.db.project_stores)
unfolding sync_secret_stores get_count_by_secret_store lift gets ◌>>=◌
sync_secret_stores-preferred false ss_names crypto_names conf i v w clean used h = (h, refl)
sync_secret_stores-preferred true ss_names crypto_names conf i v w clean used h =
    let prefs : List ProjectSecretStore = w.db.project_stores in
    let stand : HoldsIn i v prefs w.db = record { stands = h; preferred = refl } in
    let k : Holds i v prefs _ =
      continue-Keeps i v prefs (sync_rows w.db.secret_stores)
        (sync_rows-Keeps i v prefs used w.db.secret_stores)
        (conf_stores ss_names crypto_names conf, w)
        (record { now = stand; before = subst (HoldsIn i v prefs) clean stand }) in
    (k.now.stands, k.now.preferred)
