-- ===== src/Secrets/Steps.antt =====
-- What a single step that returned has done to the world.
use barbican.Shared.{◌≡◌, sym, ap, ◌∙◌, Option, none, some}
use barbican.Shared.Result.{Result, ok, raised, some_or}
use barbican.Shared.Exec.{lift, pure, gets, run-inj}
use barbican.Plugins.{PluginError, Manager}
use barbican.Secrets.Data.{SecretError}
use barbican.Secrets.World.{World, on_device, on_stores, on_cryptos, as_error}

pub ok_of_pair :
    {A X S : Type 0} (p : Result X A × S) (a : A) (s : S) → p.0 ≡ ok a → p.1 ≡ s → p ≡ (ok a, s)
ok_of_pair (r, t) a s e d = cc

as_error_ok : {A : Type 0} (r : Result PluginError A) (a : A) → as_error r ≡ ok a → r ≡ ok a
as_error_ok (ok b) a h = cc
as_error_ok (raised x) a h = cc

pub some_or_run :
    {A : Type 0} (o : Option A) (x : SecretError) (a : A) → some_or o x ≡ ok a → o ≡ some a
some_or_run none x a h = cc
some_or_run (some b) x a h = cc

module _ {S X A : Type 0} where
  pub lift-run : (r : Result X A) (a : A) (s s' : S) → lift r s ≡ (ok a, s') → (r ≡ ok a) × (s ≡ s')
  unfolding lift
  lift-run r a s s' h = (ap (λ p. p.0) h, ap (λ p. p.1) h)

  pub pure-run : (a b : A) (s s' : S) → pure {X = X} a s ≡ (ok b, s') → (a ≡ b) × (s ≡ s')
  unfolding pure
  pure-run a b s s' h = run-inj h

  pub gets-run :
      (f : S → A) (a : A) (s s' : S) → gets {X = X} f s ≡ (ok a, s') → (f s ≡ a) × (s ≡ s')
  unfolding gets
  gets-run f a s s' h = run-inj h

module _ {P C S A : Type 0} where
  pub on_device-run :
      (f : S → Result SecretError A × S) (a : A) (w w' : World P C S)
      → on_device f w ≡ (ok a, w')
      → (f w.device ≡ (ok a, w'.device)) × (record w { device = w'.device } ≡ w')
  unfolding on_device
  on_device-run f a w w' h =
      let after = ap (λ p. p.1) h in
      let held = ap (λ (v : World P C S). v.device) after in
      (
        ok_of_pair (f w.device) a w'.device (ap (λ p. p.0) h) held,
        ap (λ s. record w { device = s }) (sym held) ∙ after,
      )

  pub on_cryptos-run :
      (f : Manager C → Result PluginError A × Manager C) (a : A) (w w' : World P C S)
      → on_cryptos f w ≡ (ok a, w')
      → (f w.cryptos ≡ (ok a, w'.cryptos)) × (record w { cryptos = w'.cryptos } ≡ w')
  unfolding on_cryptos
  on_cryptos-run f a w w' h =
      let after = ap (λ p. p.1) h in
      let held = ap (λ (v : World P C S). v.cryptos) after in
      (
        ok_of_pair (f w.cryptos) a w'.cryptos (as_error_ok _ a (ap (λ p. p.0) h)) held,
        ap (λ s. record w { cryptos = s }) (sym held) ∙ after,
      )

  pub on_stores-run :
      (f : Manager P → Result PluginError A × Manager P) (a : A) (w w' : World P C S)
      → on_stores f w ≡ (ok a, w')
      → (f w.stores ≡ (ok a, w'.stores)) × (record w { stores = w'.stores } ≡ w')
  unfolding on_stores
  on_stores-run f a w w' h =
      let after = ap (λ p. p.1) h in
      let held = ap (λ (v : World P C S). v.stores) after in
      (
        ok_of_pair (f w.stores) a w'.stores (as_error_ok _ a (ap (λ p. p.0) h)) held,
        ap (λ s. record w { stores = s }) (sym held) ∙ after,
      )
