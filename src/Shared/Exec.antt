-- ===== src/Shared/Exec.antt =====
-- Python methods that change state and may raise. What was written before a raise stays written,
-- so the state comes back beside the exception too.
use mathlib.Core.Path.{◌≡◌, refl, ap}
use barbican.Shared.Result.{Result, ok, raised}

abbrev pub Exec : Type 0 → Type 0 → Type 0 → Type 0
Exec S X A = S → Result X A × S

module _ {S X A : Type 0} where
  unfoldable pub pure : A → Exec S X A
  pure a s = (ok a, s)

  unfoldable pub raise : X → Exec S X A
  raise x s = (raised x, s)

  unfoldable pub lift : Result X A → Exec S X A
  lift r s = (r, s)

  unfoldable pub gets : (S → A) → Exec S X A
  gets f s = (ok (f s), s)

unfoldable pub modify : {S X : Type 0} → (S → S) → Exec S X Unit
modify f s = (ok tt, f s)

module _ {S X A B : Type 0} where
  abbrev pub continue : Result X A → (A → Exec S X B) → Exec S X B
  continue (ok a) f s = f a s
  continue (raised x) f s = (raised x, s)

  infixl 10 ◌>>=◌ ◌>>◌
  -- opening this opens `pure`, `raise`, `lift`, `gets` and `modify` too
  unfoldable pub ◌>>=◌ : Exec S X A → (A → Exec S X B) → Exec S X B
  unfolding pure raise lift gets modify
  ◌>>=◌ m f s = let (r, s') = m s in continue r f s'

  abbrev pub ◌>>◌ : Exec S X A → Exec S X B → Exec S X B
  m >> n = m >>= λ _. n

module _ {S X A : Type 0} where
  -- `try: m  except x: h x`, from the state that `m` left.
  abbrev pub handle : Result X A → (X → Exec S X A) → Exec S X A
  handle (ok a) h s = (ok a, s)
  handle (raised x) h s = h x s

  unfoldable pub try_except : Exec S X A → (X → Exec S X A) → Exec S X A
  try_except m h s = let (r, s') = m s in handle r h s'

module _ {S X A B : Type 0} where
  continue-run :
      (p : Result X A × S) (f : A → Exec S X B) (b : B) (s' : S)
      → continue p.0 f p.1 ≡ (ok b, s')
      → (a : A) × (s : S) × (p ≡ (ok a, s)) × (f a s ≡ (ok b, s'))
  continue-run (ok a, s) f b s' h = (a, s, refl, h)
  continue-run (raised x, s) f b s' h = cc

  -- What a run that returns went through.
  pub bind-run :
      (m : Exec S X A) (f : A → Exec S X B) (s : S) (b : B) (s' : S)
      → (m >>= f) s ≡ (ok b, s')
      → (a : A) × (s1 : S) × (m s ≡ (ok a, s1)) × (f a s1 ≡ (ok b, s'))
  unfolding ◌>>=◌
  bind-run m f s b s' h = continue-run (m s) f b s' h

  pub run-bind :
      (m : Exec S X A) (f : A → Exec S X B) (s s1 : S) (a : A)
      → m s ≡ (ok a, s1)
      → (m >>= f) s ≡ f a s1
  unfolding ◌>>=◌
  run-bind m f s s1 a h = rw h

pub ok-inj : {X A : Type 0} {a b : A} → ◌≡◌ {A = Result X A} (ok a) (ok b) → a ≡ b
ok-inj h = cc

-- Two runs that return the same.
pub run-inj :
    {S X A : Type 0} {a b : A} {s t : S}
    → ◌≡◌ {A = Result X A × S} (ok a, s) (ok b, t)
    → (a ≡ b) × (s ≡ t)
run-inj h = (ok-inj (ap (λ p. p.0) h), ap (λ p. p.1) h)
