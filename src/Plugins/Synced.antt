-- ===== src/Plugins/Synced.antt =====
-- After a synchronization that returns, the table of secret stores is the configuration, up to order:
-- the contract in the docstring of sync_secret_stores of barbican/plugin/util/multiple_backends.py.
use mathlib.Core.Path.{subst}
use mathlib.Core.List.{Permᴰ, Perm}
use mathlib.Core.List.Permᴰ
use barbican.Shared.{
  ℕ, String, ◌≡◌, refl, sym, ap, ◌∙◌, inl, inr, true, Bool-cases, Option, none, some, List, [], ◌∷◌,
  ◌++◌, map, ◌==◌, ◌||◌, str_eq,
}
use barbican.Shared.Result.{Result, ok, raised}
use barbican.Shared.Exec.{pure, raise, lift, gets, ◌>>=◌, ok-inj, bind-run, run-inj}
use barbican.Plugins.{PluginError, SecretStore}
use barbican.Plugins.Config.{StoreConf}
use barbican.Plugins.RoundTrip.{}
use barbican.Plugins.Distinct.{without, All-Permᴰ, Distinct-Permᴰ, without-front}
use barbican.Plugins.Splits.{
  backend, configured, new_backend, AreKeyed, Splits, create_store-Splits, sync_match-Splits,
  raised-not-ok,
}
use barbican.Plugins.Sync.{
  Tables, NewStore, with_stores, delete_store, sync_confs, remove_unused, remove_stores,
  create_stores, sync_rows, sync_secret_stores, conf_stores, new_store, friendly_name, cons_ok,
}

Splits-Permᴰ :
    {rows : List SecretStore} {bs cs : List StoreConf} {w : Tables}
    → Permᴰ bs cs
    → Splits rows bs w
    → Splits rows cs w
Splits-Permᴰ d h = record {
  done = h.done;
  split = h.split;
  backends = Permᴰ.trans h.backends d;
  keyed = h.keyed;
}

sync_confs-Splits :
    (cs : List NewStore) (rows : List SecretStore) (bs : List StoreConf) (w w' : Tables)
    (rest : List SecretStore)
    → sync_confs cs rows w ≡ (ok rest, w')
    → Splits rows bs w
    → Splits rest (map new_backend cs ++ bs) w'
unfolding sync_confs pure
sync_confs-Splits [] rows bs w w' rest r h =
    let (same, now) = run-inj r in subst (λ rs. Splits rs bs w') same (subst (Splits rows bs) now h)
sync_confs-Splits (c ∷ cs) rows bs w w' rest r h =
    let (rows1, w1, r1, r2) = bind-run _ _ w rest w' r in
    Splits-Permᴰ (Permᴰ.middle (new_backend c) (map new_backend cs) bs) (
      sync_confs-Splits cs rows1 (new_backend c ∷ bs) w1 w' rest r2
        (sync_match-Splits c rows bs w w1 rows1 r1 h))

create_stores-Splits :
    (cs : List NewStore) (bs : List StoreConf) (w w' : Tables)
    → create_stores cs w ≡ (ok tt, w')
    → Splits [] bs w
    → Splits [] (map new_backend cs ++ bs) w'
unfolding create_stores pure
create_stores-Splits [] bs w w' r h = subst (Splits [] bs) (run-inj r).1 h
create_stores-Splits (c ∷ cs) bs w w' r h =
    let (u, w1, r1, r2) = bind-run _ _ w tt w' r in
    Splits-Permᴰ (Permᴰ.middle (new_backend c) (map new_backend cs) bs) (
      create_stores-Splits cs (new_backend c ∷ bs) w1 w' r2 (create_store-Splits c [] bs w w1 r1 h))

delete_store-Splits :
    (s : SecretStore) (ss : List SecretStore) (bs : List StoreConf) (w : Tables)
    → Splits (s ∷ ss) bs w
    → Splits ss bs (record w { db = with_stores (without s.id w.db.secret_stores) w.db })
delete_store-Splits s ss bs w h =
    let left : Permᴰ (without s.id w.db.secret_stores) (ss ++ h.done) =
      without-front s w.db.secret_stores (ss ++ h.done) h.split h.keyed.distinct in
    let back : Permᴰ (ss ++ h.done) (without s.id w.db.secret_stores) = Permᴰ.symm left in
    record {
      done = h.done;
      split = left;
      backends = h.backends;
      keyed = record {
        distinct = Distinct-Permᴰ back (Distinct-Permᴰ h.split h.keyed.distinct).1;
        fresh = All-Permᴰ _ back (All-Permᴰ _ h.split h.keyed.fresh).1;
      };
    }

remove_unused-Splits :
    (s : SecretStore) (ss : List SecretStore) (bs : List StoreConf) (count : ℕ) (w w' : Tables)
    → remove_unused s count w ≡ (ok tt, w')
    → Splits (s ∷ ss) bs w
    → Splits ss bs w'
unfolding raise delete_store
remove_unused-Splits s ss bs count w w' r h = elim (Bool-cases (count == 0)) [
  | inl e ↦ subst (Splits ss bs) (run-inj (rw e at r)).1 (delete_store-Splits s ss bs w h)
  | inr e ↦ absurd (raised-not-ok (ap (λ p. p.0) (rw e at r)))
]

remove_stores-Splits :
    (ss : List SecretStore) (bs : List StoreConf) (w w' : Tables)
    → remove_stores ss w ≡ (ok tt, w')
    → Splits ss bs w
    → Splits [] bs w'
unfolding remove_stores pure gets
remove_stores-Splits [] bs w w' r h = subst (Splits [] bs) (run-inj r).1 h
remove_stores-Splits (s ∷ ss) bs w w' r h =
    let (count, w0, r0, r1) = bind-run _ _ w tt w' r in
    let (u, w1, r2, r3) = bind-run _ _ w0 tt w' r1 in
    remove_stores-Splits ss bs w1 w' r3
      (remove_unused-Splits s ss bs count w0 w1 r2 (subst (Splits (s ∷ ss) bs) (run-inj r0).1 h))

sync_rows-Splits :
    (rows : List SecretStore) (cs : List NewStore) (w w' : Tables)
    → sync_rows rows cs w ≡ (ok tt, w')
    → Splits rows [] w
    → Splits [] (map new_backend cs ++ []) w'
sync_rows-Splits [] cs w w' r h = create_stores-Splits cs [] w w' r h
sync_rows-Splits (s ∷ ss) cs w w' r h =
    let (rest, w1, r1, r2) = bind-run _ _ w tt w' r in
    remove_stores-Splits rest _ w1 w' r2 (sync_confs-Splits cs (s ∷ ss) [] w w1 rest r1 h)

new_store-configured :
    (n : Option String) (conf : StoreConf) (c : NewStore)
    → new_store n conf ≡ ok c
    → new_backend c ≡ configured conf
new_store-configured none conf c r = cc
new_store-configured (some n) conf c r =
    elim (Bool-cases (str_eq n "" || str_eq conf.store_plugin "")) [
      | inl e ↦ cc (rw e at r)
      | inr e ↦ ap new_backend (sym (ok-inj (rw e at r)))
    ]

cons_ok-run :
    (r : Result PluginError NewStore) (rs : Result PluginError (List NewStore)) (cs : List NewStore)
    → cons_ok r rs ≡ ok cs
    → (c : NewStore) × (ds : List NewStore) × (r ≡ ok c) × (rs ≡ ok ds) × (c ∷ ds ≡ cs)
cons_ok-run (raised x) rs cs h = cc
cons_ok-run (ok c) (raised x) cs h = cc
cons_ok-run (ok c) (ok ds) cs h = (c, ds, refl, refl, ok-inj h)

conf_stores-configured :
    (ss_names crypto_names : List (String × String)) (conf : List StoreConf) (cs : List NewStore)
    → conf_stores ss_names crypto_names conf ≡ ok cs
    → map new_backend cs ≡ map configured conf
unfolding conf_stores
conf_stores-configured ss_names crypto_names [] cs h = ap (map new_backend) (sym (ok-inj h))
conf_stores-configured ss_names crypto_names (c ∷ conf) cs h =
    let (d, ds, r, rs, same) = cons_ok-run _ _ cs h in
    let e = new_store-configured (friendly_name ss_names crypto_names c) c d r in
    let f = conf_stores-configured ss_names crypto_names conf ds rs in
    sym (ap (map new_backend) same) ∙ cc

-- From rows with their own ids, below the next one: where synchronizing with a configuration
-- returns, the rows of the table are the configured backends, one for one and with the configured
-- flags, in some order; and the rows still have their own ids.
pub sync_secret_stores_lem :
    (ss_names crypto_names : List (String × String)) (conf : List StoreConf) (w w' : Tables)
    → AreKeyed w
    → sync_secret_stores true ss_names crypto_names conf w ≡ (ok tt, w')
    → Perm (map backend w'.db.secret_stores) (map configured conf) × AreKeyed w'
unfolding sync_secret_stores lift gets ◌>>=◌
sync_secret_stores_lem ss_names crypto_names conf w w' k r =
    let (cs, w1, r1, r2) =
      bind-run (lift (conf_stores ss_names crypto_names conf)) (sync_rows w.db.secret_stores) w tt
        w' r in
    let start : Splits w.db.secret_stores [] w = record {
      done = [];
      split = Permᴰ.symm (Permᴰ.append-nil w.db.secret_stores);
      backends = Permᴰ.nil;
      keyed = k;
    } in
    let end : Splits [] (map new_backend cs ++ []) w' =
      sync_rows-Splits w.db.secret_stores cs w1 w' r2
        (subst (Splits w.db.secret_stores []) (ap (λ p. p.1) r1) start) in
    let same : map new_backend cs ≡ map configured conf =
      conf_stores-configured ss_names crypto_names conf cs (ap (λ p. p.0) r1) in
    (
      ∣ Permᴰ.trans (Permᴰ.map backend end.split) (
          Permᴰ.trans end.backends (
            subst (Permᴰ (map new_backend cs ++ [])) same
              (Permᴰ.append-nil (map new_backend cs)))) ∣₁,
      end.keyed,
    )
