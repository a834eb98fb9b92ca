-- ===== src/Plugins/Splits.antt =====
-- The table of secret stores while sync_secret_stores of barbican/plugin/util/multiple_backends.py
-- runs: the rows left to match, and those that stand for the sections that are done.
use mathlib.Core.Path.{subst}
use mathlib.Core.List.{Memᴰ, Permᴰ}
use mathlib.Core.List.Permᴰ
use barbican.Shared.{
  ℕ, suc, String, ◌≡◌, ◌≢◌, ◌<◌, refl, sym, ap, ◌∙◌, inl, inr, Bool, true, false, ◌&&◌,
  Option-cases, Option, none, some, List, [], ◌∷◌, ◌++◌, map, str_eq, eq_iff, arith, if◌then◌else◌,
}
use barbican.Shared.Result.{Result, ok, raised}
use barbican.Shared.Exec.{pure, bind-run, run-inj}
use barbican.Plugins.{PluginError, SecretStore, first_such}
use barbican.Plugins.Config.{StoreConf}
use barbican.Plugins.RoundTrip.{first_such-Memᴰ}
use barbican.Plugins.Distinct.{
  All, Distinct, flagged, without, All-Permᴰ, Distinct-Permᴰ, append-Distinct, set_default-front,
  front-without,
}
use barbican.Plugins.Sync.{
  Tables, NewStore, with_stores, store_added, create_store, set_default, save_default, sync_match,
  fn_match, option_eq, bool_eq, crypto_name,
}

-- A row, and a section, as the backend it stands for.
abbrev pub backend : SecretStore → StoreConf
backend s = record {
  store_plugin = s.store_plugin;
  crypto_plugin = s.crypto_plugin;
  global_default = s.global_default;
}

abbrev pub configured : StoreConf → StoreConf
configured c = record c { crypto_plugin = crypto_name c.crypto_plugin }

abbrev pub new_backend : NewStore → StoreConf
new_backend c = record {
  store_plugin = c.store_plugin;
  crypto_plugin = c.crypto_plugin;
  global_default = c.global_default;
}

-- The rows have their own ids, below the next one.
pub record AreKeyed (w : Tables) : Type 0 where
  pub distinct : Distinct w.db.secret_stores
  pub fresh : All (λ s. s.id < w.next_id) w.db.secret_stores

-- The rows that are left to match, and the backends that are done.
pub record Splits (rows : List SecretStore) (bs : List StoreConf) (w : Tables) : Type 0 where
  pub done : List SecretStore
  pub split : Permᴰ w.db.secret_stores (rows ++ done)
  pub backends : Permᴰ (map backend done) bs
  pub keyed : AreKeyed w

option_eq→≡ : (o p : Option String) → option_eq o p ≡ true → o ≡ p
option_eq→≡ none none h = refl
option_eq→≡ none (some t) h = cc
option_eq→≡ (some s) none h = cc
option_eq→≡ (some s) (some t) h = ap some ((eq_iff s t).0 h)

bool_eq→≡ : (b c : Bool) → bool_eq b c ≡ true → b ≡ c
bool_eq→≡ true c h = sym h
bool_eq→≡ false true h = cc
bool_eq→≡ false false h = refl

and-true : (a b : Bool) → a && b ≡ true → (a ≡ true) × (b ≡ true)
and-true true b h = (refl, h)
and-true false b h = cc

fn_match-backend :
    (c : NewStore) (s : SecretStore)
    → fn_match c s ≡ true
    → backend (flagged c.global_default s) ≡ new_backend c
fn_match-backend c s h =
    let (e, f) = and-true (str_eq c.store_plugin s.store_plugin) _ h in
    let e' : c.store_plugin ≡ s.store_plugin = (eq_iff c.store_plugin s.store_plugin).0 e in
    let f' = option_eq→≡ c.crypto_plugin s.crypto_plugin f in cc

fresh→apart : (n : ℕ) (xs : List SecretStore) → All (λ s. s.id < n) xs → All (λ s. s.id ≢ n) xs
fresh→apart n [] h = tt
fresh→apart n (x ∷ xs) (p, h) = (omega arith, fresh→apart n xs h)

fresh→later : (n : ℕ) (xs : List SecretStore) → All (λ s. s.id < n) xs → All (λ s. s.id < suc n) xs
fresh→later n [] h = tt
fresh→later n (x ∷ xs) (p, h) = (omega arith, fresh→later n xs h)

store_added-Splits :
    (c : NewStore) (rows : List SecretStore) (bs : List StoreConf) (w : Tables)
    → Splits rows bs w
    → Splits rows (new_backend c ∷ bs) (store_added c w)
store_added-Splits c rows bs w h =
    let s : SecretStore = record {
      id = w.next_id;
      name = c.name;
      store_plugin = c.store_plugin;
      crypto_plugin = c.crypto_plugin;
      global_default = c.global_default;
    } in
    let front : Permᴰ (w.db.secret_stores ++ s ∷ []) (s ∷ w.db.secret_stores) =
      Permᴰ.trans (Permᴰ.middle s w.db.secret_stores [])
        (Permᴰ.cons refl (Permᴰ.append-nil w.db.secret_stores)) in
    let back : Permᴰ (s ∷ w.db.secret_stores) (w.db.secret_stores ++ s ∷ []) = Permᴰ.symm front in
    record {
      done = s ∷ h.done;
      split =
          Permᴰ.trans front
            (Permᴰ.trans (Permᴰ.cons refl h.split) (Permᴰ.symm (Permᴰ.middle s rows h.done)));
      backends = Permᴰ.cons refl h.backends;
      keyed = record {
        distinct =
            Distinct-Permᴰ back
              (fresh→apart w.next_id w.db.secret_stores h.keyed.fresh, h.keyed.distinct);
        fresh =
            All-Permᴰ _ back (omega arith, fresh→later w.next_id w.db.secret_stores h.keyed.fresh);
      };
    }

pub raised-not-ok :
    {A : Type 0} {x : PluginError} {a : A} → ¬ (◌≡◌ {A = Result PluginError A} (raised x) (ok a))
raised-not-ok h = cc

choice-run :
    (b : Bool) (x : PluginError) (w1 w2 w' : Tables)
    → ◌≡◌ {A = Result PluginError Unit × Tables}
        (if b then (raised x, w1) else (ok tt, w2))
        (ok tt, w')
    → w2 ≡ w'
choice-run true x w1 w2 w' h = cc
choice-run false x w1 w2 w' h = (run-inj h).1

pub create_store-Splits :
    (c : NewStore) (rows : List SecretStore) (bs : List StoreConf) (w w' : Tables)
    → create_store c w ≡ (ok tt, w')
    → Splits rows bs w
    → Splits rows (new_backend c ∷ bs) w'
unfolding create_store
create_store-Splits c rows bs w w' r h =
    subst (Splits rows (new_backend c ∷ bs)) (choice-run _ _ _ _ w' r)
      (store_added-Splits c rows bs w h)

-- A row of the table matched, with its flag as it is configured.
matched-Splits :
    (c : NewStore) (s : SecretStore) (rows : List SecretStore) (bs : List StoreConf) (w : Tables)
    (xs : List SecretStore) (h : Splits rows bs w)
    → Memᴰ s rows
    → fn_match c s ≡ true
    → ((ys : List SecretStore)
        → Permᴰ w.db.secret_stores (s ∷ ys)
        → Permᴰ xs (flagged c.global_default s ∷ ys))
    → Splits (without s.id rows) (new_backend c ∷ bs) (record w { db = with_stores xs w.db })
matched-Splits c s rows bs w xs h m f to_front =
    let ys : List SecretStore = without s.id rows ++ h.done in
    let left : Distinct rows =
      append-Distinct rows h.done (Distinct-Permᴰ h.split h.keyed.distinct) in
    let front : Permᴰ w.db.secret_stores (s ∷ ys) =
      Permᴰ.trans h.split (Permᴰ.append_right h.done (front-without s rows m left)) in
    let now : Permᴰ xs (flagged c.global_default s ∷ ys) = to_front ys front in
    record {
      done = flagged c.global_default s ∷ h.done;
      split =
          Permᴰ.trans now
            (Permᴰ.symm (Permᴰ.middle (flagged c.global_default s) (without s.id rows) h.done));
      backends = Permᴰ.cons (fn_match-backend c s f) h.backends;
      keyed = record {
        distinct = Distinct-Permᴰ (Permᴰ.symm now) (Distinct-Permᴰ front h.keyed.distinct);
        fresh = All-Permᴰ _ (Permᴰ.symm now) (All-Permᴰ _ front h.keyed.fresh);
      };
    }

saved-run :
    (c : NewStore) (s : SecretStore) (w w1 : Tables) (b : Bool) (u : Unit)
    → (if b then pure tt else save_default s.id c.global_default) w ≡ (ok u, w1)
    → (b ≡ true → s.global_default ≡ c.global_default)
    → Distinct w.db.secret_stores
    → (xs : List SecretStore) × (record w { db = with_stores xs w.db } ≡ w1)
      × ((ys : List SecretStore)
          → Permᴰ w.db.secret_stores (s ∷ ys)
          → Permᴰ xs (flagged c.global_default s ∷ ys))
unfolding pure save_default
saved-run c s w w1 true u r e k = (
  w.db.secret_stores,
  (run-inj r).1,
  λ ys. λ d. subst (λ b. Permᴰ w.db.secret_stores (flagged b s ∷ ys)) (e refl) d,
)
saved-run c s w w1 false u r e k = (
  set_default s.id c.global_default w.db.secret_stores,
  (run-inj r).1,
  λ ys. λ d. set_default-front c.global_default s w.db.secret_stores ys d k,
)

pub sync_match-Splits :
    (c : NewStore) (rows : List SecretStore) (bs : List StoreConf) (w w' : Tables)
    (rest : List SecretStore)
    → sync_match c (first_such (fn_match c) rows) rows w ≡ (ok rest, w')
    → Splits rows bs w
    → Splits rest (new_backend c ∷ bs) w'
unfolding pure
sync_match-Splits c rows bs w w' rest r h = elim (Option-cases (first_such (fn_match c) rows)) [
  | inl e ↦
      let (u, w1, r1, r2) = bind-run _ _ w rest w' (rw e at r) in
      let (same, now) = run-inj r2 in
      subst (λ rs. Splits rs (new_backend c ∷ bs) w') same
        (subst (Splits rows (new_backend c ∷ bs)) now (create_store-Splits c rows bs w w1 r1 h))
  | inr (s, e) ↦
      let (m, f) = first_such-Memᴰ (fn_match c) rows s e in
      let (u, w1, r1, r2) = bind-run _ _ w rest w' (rw e at r) in
      let (same, now) = run-inj r2 in
      let (xs, state, to_front) =
        saved-run c s w w1 _ u r1 (bool_eq→≡ s.global_default c.global_default) h.keyed.distinct in
      subst (λ rs. Splits rs (new_backend c ∷ bs) w') same
        (subst (Splits (without s.id rows) (new_backend c ∷ bs)) (state ∙ now)
          (matched-Splits c s rows bs w xs h m f to_front))
]
