-- ===== src/Secrets/Guards.antt =====
-- What store_secret of barbican/plugin/resources.py refuses.
use mathlib.Core.Bool.{false≢true}
use barbican.Shared.{
  Bool-cases, inl, inr, ℕ, String, ◌≡◌, refl, sym, ap, ◌∙◌, Bool, true, false, Option, none, some,
  List, [], ◌∷◌, arith, keep_if, str_eq,
}
use barbican.Shared.Int.{pos, ◌≤ℤ◌}
use barbican.Shared.Result.{Result, ok, raised}
use barbican.Shared.Exec.{Exec, continue, ◌>>=◌, raise}
use barbican.Plugins.{Db}
use barbican.Plugins.Managers.{get_plugin_store}
use barbican.Paging.{PagingConf, clean_paging_values, bound_offset, bound_limit, page, int}
use barbican.Secrets.Data.{
  Payload, has_payload, SecretError, already_stored, attribute_error, not_found, Codec, KeySpec,
}
use barbican.Secrets.World.{
  Project, Secret, TransportKey, World, on_stores, data_of, get_metadata_for_secret,
}
use barbican.Secrets.Crypto.{CryptoOps}
use barbican.Secrets.Keks.{IsKeyed}
use barbican.Secrets.Encrypted.{IsCrypto}
use barbican.Secrets.Rows.{IsFresh, get_metadata_for_secret_added}
use barbican.Secrets.Resources.{
  StorePlugin, adapter, VendorOps, store_ops, adapter_name, key_spec_of, get_latest_transport_key,
  get_transport_key_model, current_or_new, is_nil,
}
use barbican.Secrets.Requests.{store_secret, secret_already_has_stored_data, has_rows}
use barbican.Secrets.Kept.{store_payload-Kept}
use barbican.Secrets.RoundTrip.{Kept-NoRows, store_secret_payload}

-- A run that raises.
abbrev pub Raises : {S A : Type 0} → Exec S SecretError A → S → Type 0
Raises m s = (x : SecretError) × ((m s).0 ≡ raised x)

module _ {S A B : Type 0} where
  Raises-continue :
      (p : Result SecretError A × S) (f : A → Exec S SecretError B)
      → ((a : A) → Raises (f a) p.1)
      → (x : SecretError) × ((let (r, s) = p in continue r f s).0 ≡ raised x)
  Raises-continue (ok a, s) f h = h a
  Raises-continue (raised x, s) f h = (x, refl)

  -- What follows raises whatever came before.
  Raises-after :
      (m : Exec S SecretError A) (f : A → Exec S SecretError B) (s : S)
      → ((a : A) (t : S) → Raises (f a) t)
      → Raises (m >>= f) s
  unfolding ◌>>=◌
  Raises-after m f s h = Raises-continue (m s) f (λ a. h a (m s).1)

  Raises-first :
      (p : Result SecretError A × S) (f : A → Exec S SecretError B) (x : SecretError)
      → p.0 ≡ raised x
      → (x : SecretError) × ((let (r, s) = p in continue r f s).0 ≡ raised x)
  Raises-first (ok a, s) f x h = cc
  Raises-first (raised y, s) f x h = (y, refl)

  Raises-before :
      (m : Exec S SecretError A) (f : A → Exec S SecretError B) (s : S)
      → Raises m s
      → Raises (m >>= f) s
  unfolding ◌>>=◌
  Raises-before m f s (x, h) = Raises-first (m s) f x h

first_page :
    (conf : PagingConf)
    → pos 1 ≤ℤ conf.max_limit_paging
    → clean_paging_values conf (int (pos 0)) (int (pos 1)) ≡ (pos 0, pos 1)
unfolding clean_paging_values bound_offset bound_limit
first_page conf h = ground arith

page_first :
    {A : Type 0} (conf : PagingConf) (xs : List A)
    → pos 1 ≤ℤ conf.max_limit_paging
    → is_nil xs ≡ false
    → let q = clean_paging_values conf (int (pos 0)) (int (pos 1)) in
      (x : A) × (page q.0 q.1 xs ≡ x ∷ [])
unfolding page
page_first conf [] l h = absurd (false≢true (sym h))
page_first conf (x ∷ xs) l h = (x, ap (λ q. page q.0 q.1 (x ∷ xs)) (first_page conf l))

has_rows-true :
    {P C S : Type 0} (i : ℕ) (w : World P C S)
    → is_nil (get_metadata_for_secret i w) ≡ false
    → has_rows (some i) w ≡ true
has_rows-true i w h = elim (Bool-cases (is_nil (data_of i w))) [ inl e ↦ rw (e, h) | inr e ↦ rw e ]

module _ {B C S : Type 0} (codec : Codec) (conf : PagingConf) (ops : VendorOps B S)
    (crypto : CryptoOps C S) (enabled : Bool) (db : Db) where
  current_or_new-Raises :
      {A : Type 0} (p : StorePlugin B) (name : String)
      (f : TransportKey → Exec (World (StorePlugin B) C S) SecretError A)
      (w : World (StorePlugin B) C S)
      → pos 1 ≤ℤ conf.max_limit_paging
      → Raises
          (get_latest_transport_key codec conf ops crypto enabled db name >>= λ rows.
            (current_or_new codec conf ops crypto enabled db p rows >>= f))
          w
  unfolding ◌>>=◌ get_latest_transport_key raise
  current_or_new-Raises p name f w h =
      let rows = keep_if (λ (k : TransportKey). str_eq k.plugin_name name) w.transport_keys in
      elim (Bool-cases (is_nil rows)) [
        | inl e ↦ (not_found, rw e)
        | inr e ↦ let (k, first) = page_first conf rows h e in (attribute_error, rw (e, first))
      ]

  get_transport_key_model-Raises :
      (k : KeySpec) (i : ℕ) (w : World (StorePlugin B) C S)
      → pos 1 ≤ℤ conf.max_limit_paging
      → Raises (get_transport_key_model codec conf ops crypto enabled db k true i) w
  unfolding get_transport_key_model
  get_transport_key_model-Raises k i w h =
      Raises-after (on_stores _) _ w
        (λ p t. current_or_new-Raises p ((store_ops ops).fullname p) _ t h)

  -- A request to make a secret without a payload, for which the client wants a transport key, always
  -- raises, whatever plugins and transport keys there are.
  pub store_secret_refuses :
      (m : String) (enc : Option String) (secret : Secret) (project : Project) (key : Option ℕ)
      (w : World (StorePlugin B) C S)
      → pos 1 ≤ℤ conf.max_limit_paging
      → Raises (store_secret codec conf ops crypto enabled db none m enc secret project true key) w
  unfolding store_secret
  store_secret_refuses m enc secret project key w h =
      elim (Bool-cases (secret_already_has_stored_data secret w)) [
        | inl e ↦ rw e (already_stored, refl)
        | inr e ↦ rw e (
            Raises-before
              (get_transport_key_model codec conf ops crypto enabled db (key_spec_of secret) true
                project.id)
              _ w (get_transport_key_model-Raises (key_spec_of secret) project.id w h))
      ]

  -- A secret whose payload was stored through the crypto adapter is not stored again: with any other
  -- payload, type and encoding, and any transport key, the request raises that there is data
  -- already, and changes nothing.
  pub store_secret_once :
      (p : Payload) (q : Option Payload) (m m' : String) (enc enc' : Option String)
      (secret row : Secret) (project : Project) (needed needed' : Bool) (key : Option TransportKey)
      (key' : Option ℕ) (w w' : World (StorePlugin B) C S)
      → IsCrypto crypto
      → IsFresh w
      → IsKeyed w.keks
      → (get_plugin_store
          (store_ops ops)
          enabled
          db
          (key_spec_of secret)
          none
          false
          project.id
          w.stores).0
        ≡ ok adapter
      → has_payload p ≡ true
      → store_secret codec conf ops crypto enabled db (some p) m enc secret project needed none w
        ≡ (ok (row, key), w')
      → store_secret codec conf ops crypto enabled db q m' enc' row project needed' key' w'
        ≡ (raised already_stored, w')
  unfolding store_secret secret_already_has_stored_data
  store_secret_once p q m m' enc enc' secret row project needed needed' key key' w w' is fresh keyed
        chooses has h =
      let (empty, run) =
        store_secret_payload codec conf ops crypto enabled db p m enc secret row project needed key
          w w' has h in
      let k =
        store_payload-Kept codec conf ops crypto enabled db p m enc secret row project key w w' is
          keyed chooses run in
      let before =
        Kept-NoRows codec conf ops crypto enabled db p m enc secret row project w w' fresh empty
          k in
      let metadata =
        get_metadata_for_secret_added k.id w w' adapter_name k.type before k.metadata in
      let stored : has_rows row.id w' ≡ true =
        ap (λ o. has_rows o w') k.row_id ∙ has_rows-true k.id w' (ap is_nil metadata) in
      rw stored refl
