-- ===== src/Secrets/Binding.antt =====
-- A key is bound to its plugin once: _find_or_create_kek_objects of barbican/plugin/store_crypto.py.
use mathlib.Core.Path.{subst}
use barbican.Shared.{Bool-cases, inl, inr, String, ◌≡◌, refl, sym, ap, ◌∙◌, Bool, true, false, some}
use barbican.Shared.Result.{ok, some_or}
use barbican.Shared.Exec.{lift, pure, bind-run, run-bind, run-inj}
use barbican.Secrets.Data.{KekMetaDto, kek_binding}
use barbican.Secrets.World.{
  Project, KekDatum, World, find_kek, is_active_kek, put_kek, find_or_create_kek_datum, save_kek,
  on_device,
}
use barbican.Secrets.Crypto.{
  CryptoOps, kek_meta_of, indicate_bind_completed, bound_if, find_or_create_kek_objects,
}
use barbican.Secrets.Keks.{
  IsKeyed, IsActiveKek, Found, find_or_create_kek_datum-Found, find_or_create_kek_datum_active,
  put_kek-IsActiveKek, put_kek-IsKeyed, find_kek-put_kek, keep_if_singleton,
}
use barbican.Secrets.Steps.{on_device-run, lift-run, pure-run, some_or_run}
use barbican.Plugins.{Db}
use barbican.Secrets.Data.{Codec}

-- A plugin does not change the name and the label of the key that it binds.
pub record KeepsLabel {C S : Type 0} (ops : CryptoOps C S) : Type 0 where
  pub kept :
      (plugin : C) (dto dto' : KekMetaDto) (s s' : S)
      → ops.bind_kek_metadata plugin dto s ≡ (ok (some dto'), s')
      → (dto'.plugin_name ≡ dto.plugin_name) × (dto'.kek_label ≡ dto.kek_label)

-- The new version of a key, with the answer of its plugin.
meta-indicate_bind_completed :
    (k : KekDatum) (d : KekMetaDto)
    → d.plugin_name ≡ k.plugin_name
    → d.kek_label ≡ k.kek_label
    → d ≡ kek_meta_of (indicate_bind_completed d k)
unfolding indicate_bind_completed
meta-indicate_bind_completed k d n l = cc

completed : (d : KekMetaDto) (k : KekDatum) → (indicate_bind_completed d k).bind_completed ≡ true
unfolding indicate_bind_completed
completed d k = refl

module _ {P C S : Type 0} (codec : Codec) (ops : CryptoOps C S) (enabled : Bool) (db : Db) where
  -- What binding a key comes to.
  pub record IsBound (project : Project) (plugin : C) (k : KekDatum) (dto : KekMetaDto)
      (w w' : World P C S) : Type 0 where
    pub bind_completed : k.bind_completed ≡ true
    pub meta : dto ≡ kek_meta_of k
    pub found : Found project (ops.fullname plugin) k w w'

  found-indicate_bind_completed :
      (project : Project) (name : String) (k : KekDatum) (d : KekMetaDto) (w w1 : World P C S)
      (s : S)
      → Found project name k w w1
      → let k' = indicate_bind_completed d k in
        Found project name k' w (record w1 { device = s; keks = put_kek k' w1.keks })
  unfolding indicate_bind_completed
  found-indicate_bind_completed project name k d w w1 s f = record {
    named = f.named;
    active =
        put_kek-IsActiveKek project name k (indicate_bind_completed d k) w1.keks refl
          (keep_if_singleton (is_active_kek project.id name) w1.keks k f.active) f.active;
    keyed = λ keyed. (
      put_kek-IsKeyed (indicate_bind_completed d k) w1.keks (f.keyed keyed).0,
      find_kek-put_kek (indicate_bind_completed d k) w1.keks,
    );
    untouched = record {
      encrypted_data = f.untouched.encrypted_data;
      metadata = f.untouched.metadata;
      stores = f.untouched.stores;
      cryptos = f.untouched.cryptos;
      grows = f.untouched.grows;
    };
  }

  new_binding :
      (project : Project) (plugin : C) (k k' : KekDatum) (dto : KekMetaDto) (w w1 w' : World P C S)
      → KeepsLabel ops
      → Found project (ops.fullname plugin) k w w1
      → bound_if codec ops enabled db false plugin k w1 ≡ (ok (k', dto), w')
      → IsBound project plugin k' dto w w'
  unfolding save_kek
  new_binding project plugin k k' dto w w1 w' keeps found h =
      let (answer, wa, ea, h1) =
        bind-run (on_device (ops.bind_kek_metadata plugin (kek_meta_of k))) _ w1 (k', dto) w' h in
      let (d, wb, eb, h2) =
        bind-run (lift (some_or answer (kek_binding (ops.fullname plugin)))) _ wa (k', dto) w' h1 in
      let (u, wc, ec, h3) =
        bind-run (save_kek (indicate_bind_completed d k)) _ wb (k', dto) w' h2 in
      let (run, wa_is) = on_device-run _ answer w1 wa ea in
      let (there, wb_is) = lift-run _ d wa wb eb in
      let (same, after) = pure-run (indicate_bind_completed d k, d) (k', dto) wc w' h3 in
      let k2 = indicate_bind_completed d k in
      let answered = run ∙ ap (λ a. (ok a, wa.device)) (some_or_run answer _ d there) in
      let (n, l) = keeps.kept plugin (kek_meta_of k) d w1.device wa.device answered in
      let chain =
        ap (λ (z : World P C S). record z { keks = put_kek k2 z.keks }) (wa_is ∙ wb_is)
        ∙ (run-inj ec).1
        ∙ after in
      let v : World P C S = record w1 { device = wa.device; keks = put_kek k2 w1.keks } in
      let base : IsBound project plugin k2 d w v = record {
        bind_completed = completed d k;
        meta = meta-indicate_bind_completed k d n l;
        found =
            found-indicate_bind_completed project (ops.fullname plugin) k d w w1 wa.device found;
      } in
      subst (λ z. IsBound project plugin k' dto w z) chain
        (subst (λ (p : KekDatum × KekMetaDto). IsBound project plugin p.0 p.1 w v) same base)

  bind_lem :
      (project : Project) (plugin : C) (k k' : KekDatum) (dto : KekMetaDto) (w w1 w' : World P C S)
      → KeepsLabel ops
      → Found project (ops.fullname plugin) k w w1
      → bound_if codec ops enabled db k.bind_completed plugin k w1 ≡ (ok (k', dto), w')
      → IsBound project plugin k' dto w w'
  bind_lem project plugin k k' dto w w1 w' keeps found h = elim (Bool-cases k.bind_completed) [
    | inl e ↦
        let (same, after) =
          pure-run (k, kek_meta_of k) (k', dto) w1 w'
            (subst (λ b. bound_if codec ops enabled db b plugin k w1 ≡ (ok (k', dto), w')) e h) in
        let base : IsBound project plugin k (kek_meta_of k) w w1 = record {
          bind_completed = e;
          meta = refl;
          found = found;
        } in
        subst (λ z. IsBound project plugin k' dto w z) after
          (subst (λ (p : KekDatum × KekMetaDto). IsBound project plugin p.0 p.1 w w1) same base)
    | inr e ↦
        new_binding project plugin k k' dto w w1 w' keeps found
          (subst (λ b. bound_if codec ops enabled db b plugin k w1 ≡ (ok (k', dto), w')) e h)
  ]

  pub find_or_create_kek_objects-IsBound :
      (project : Project) (plugin : C) (k : KekDatum) (dto : KekMetaDto) (w w' : World P C S)
      → KeepsLabel ops
      → find_or_create_kek_objects codec ops enabled db plugin project w ≡ (ok (k, dto), w')
      → IsBound project plugin k dto w w'
  unfolding find_or_create_kek_objects
  find_or_create_kek_objects-IsBound project plugin k dto w w' keeps h =
      let (k1, w1, e, h1) =
        bind-run (find_or_create_kek_datum project (ops.fullname plugin)) _ w (k, dto) w' h in
      bind_lem project plugin k1 k dto w w1 w' keeps
        (find_or_create_kek_datum-Found project (ops.fullname plugin) w k1 w1 e) h1

  -- The one active key, bound, with unique identifiers, that is found again.
  abbrev pub IsSettled : Project → C → KekDatum → KekMetaDto → World P C S → Type 0
  IsSettled project plugin k dto w' =
      IsActiveKek project (ops.fullname plugin) k w'.keks
      × (k.bind_completed ≡ true)
      × IsKeyed w'.keks
      × (find_kek k.id w'.keks ≡ some k)
      × (dto ≡ kek_meta_of k)
      × (find_or_create_kek_objects codec ops enabled db plugin project w' ≡ (ok (k, dto), w'))

  -- After a key was found or made for a project and a plugin, and bound, it is the one active key
  -- that they have, it is bound, and its identifier finds it; the metadata that the plugin gets is
  -- what the row holds. Asking again gives the same key, does not call the plugin and changes
  -- nothing. The identifiers stay unique.
  pub find_or_create_kek_objects_idem :
      (project : Project) (plugin : C) (k : KekDatum) (dto : KekMetaDto) (w w' : World P C S)
      → KeepsLabel ops
      → IsKeyed w.keks
      → find_or_create_kek_objects codec ops enabled db plugin project w ≡ (ok (k, dto), w')
      → IsSettled project plugin k dto w'
  unfolding find_or_create_kek_objects pure
  find_or_create_kek_objects_idem project plugin k dto w w' keeps keyed h =
      let b = find_or_create_kek_objects-IsBound project plugin k dto w w' keeps h in
      let (unique, finds) = b.found.keyed keyed in
      let again =
        run-bind (find_or_create_kek_datum project (ops.fullname plugin))
          (λ k. bound_if codec ops enabled db k.bind_completed plugin k) w' w' k
          (find_or_create_kek_datum_active project (ops.fullname plugin) w' k b.found.named
            b.found.active) in
      (
        b.found.active,
        b.bind_completed,
        unique,
        finds,
        b.meta,
        again
            ∙ ap (λ t. bound_if codec ops enabled db t plugin k w') b.bind_completed
            ∙ ap (λ d. (ok (k, d), w')) (sym b.meta),
      )
