-- ===== src/Plugins/Distinct.antt =====
-- Tables of secret stores with an id to each row, up to the order of the rows.
use mathlib.Core.List.{Memᴰ, Permᴰ}
use mathlib.Core.List.Memᴰ
use mathlib.Core.List.Permᴰ
use mathlib.Core.Path.{subst}
use barbican.Shared.{
  ℕ, ◌≡◌, ◌≢◌, refl, sym, ap, ◌∙◌, inl, inr, Bool, true, false, not, if◌then◌else◌, List, [], ◌∷◌,
  ◌++◌, ◌==◌, keep_if, arith,
}
use barbican.Plugins.{SecretStore}
use barbican.Plugins.Sync.{with_default, set_default}

abbrev pub All : (SecretStore → Type 0) → List SecretStore → Type 0
All P [] = Unit
All P (x ∷ xs) = P x × All P xs

abbrev pub Distinct : List SecretStore → Type 0
Distinct [] = Unit
Distinct (x ∷ xs) = All (λ y. y.id ≢ x.id) xs × Distinct xs

abbrev pub flagged : Bool → SecretStore → SecretStore
flagged b s = record s { global_default = b }

abbrev pub without : ℕ → List SecretStore → List SecretStore
without i xs = keep_if (λ s. not (s.id == i)) xs

module _ (P : SecretStore → Type 0) where
  pub All-Permᴰ : {xs ys : List SecretStore} → Permᴰ xs ys → All P xs → All P ys
  All-Permᴰ Permᴰ.nil h = h
  All-Permᴰ (Permᴰ.cons e d) (p, h) = (subst P e p, All-Permᴰ d h)
  All-Permᴰ (Permᴰ.swap e f) (p, (q, h)) = (subst P f q, (subst P e p, h))
  All-Permᴰ (Permᴰ.trans d e) h = All-Permᴰ e (All-Permᴰ d h)

  append-All : (xs ys : List SecretStore) → All P (xs ++ ys) → All P xs
  append-All [] ys h = tt
  append-All (x ∷ xs) ys (p, h) = (p, append-All xs ys h)

abbrev Apart : SecretStore → SecretStore → Type 0
Apart x y = y.id ≢ x.id

pub Distinct-Permᴰ : {xs ys : List SecretStore} → Permᴰ xs ys → Distinct xs → Distinct ys
Distinct-Permᴰ Permᴰ.nil h = h
Distinct-Permᴰ (Permᴰ.cons {l₂ = l₂} e d) (n, h) =
    (subst (λ x. All (Apart x) l₂) e (All-Permᴰ _ d n), Distinct-Permᴰ d h)
Distinct-Permᴰ (Permᴰ.swap {l = l} e f) ((n, m), (k, h)) = (
  (λ q. n (ap (λ x. x.id) f ∙ sym q ∙ sym (ap (λ x. x.id) e)), subst (λ x. All (Apart x) l) f k),
  (subst (λ x. All (Apart x) l) e m, h),
)
Distinct-Permᴰ (Permᴰ.trans d e) h = Distinct-Permᴰ e (Distinct-Permᴰ d h)

pub append-Distinct : (xs ys : List SecretStore) → Distinct (xs ++ ys) → Distinct xs
append-Distinct [] ys h = tt
append-Distinct (x ∷ xs) ys (n, h) = (append-All _ xs ys n, append-Distinct xs ys h)

set_default-Permᴰ :
    (i : ℕ) (b : Bool) {xs ys : List SecretStore}
    → Permᴰ xs ys
    → Permᴰ (set_default i b xs) (set_default i b ys)
set_default-Permᴰ i b Permᴰ.nil = Permᴰ.nil
set_default-Permᴰ i b (Permᴰ.cons e d) =
    Permᴰ.cons (ap (with_default i b) e) (set_default-Permᴰ i b d)
set_default-Permᴰ i b (Permᴰ.swap {l = l} e f) =
    Permᴰ.swap {l = set_default i b l} (ap (with_default i b) e) (ap (with_default i b) f)
set_default-Permᴰ i b (Permᴰ.trans d e) =
    Permᴰ.trans (set_default-Permᴰ i b d) (set_default-Permᴰ i b e)

set_default-other :
    (i : ℕ) (b : Bool) (xs : List SecretStore) → All (λ y. y.id ≢ i) xs → set_default i b xs ≡ xs
set_default-other i b [] h = refl
set_default-other i b (x ∷ xs) (n, h) = ground (arith, set_default-other i b xs h)

-- The row whose flag is set, in front of the others.
pub set_default-front :
    (b : Bool) (s : SecretStore) (xs ys : List SecretStore)
    → Permᴰ xs (s ∷ ys)
    → Distinct xs
    → Permᴰ (set_default s.id b xs) (flagged b s ∷ ys)
set_default-front b s xs ys d h = Permᴰ.trans (set_default-Permᴰ s.id b d) (
    Permᴰ.cons (ground arith) (
      subst (λ zs. Permᴰ zs ys) (sym (set_default-other s.id b ys (Distinct-Permᴰ d h).0))
        (Permᴰ.refl ys)))

keep-cons :
    (b c : Bool) {x y : SecretStore} {xs ys : List SecretStore}
    → b ≡ c
    → x ≡ y
    → Permᴰ xs ys
    → Permᴰ (if b then x ∷ xs else xs) (if c then y ∷ ys else ys)
keep-cons true true e q d = Permᴰ.cons q d
keep-cons false false e q d = d
keep-cons true false e q d = cc
keep-cons false true e q d = cc

keep-swap :
    (b c b' c' : Bool) {x y x' y' : SecretStore} (l : List SecretStore)
    → b ≡ c'
    → c ≡ b'
    → x ≡ y'
    → y ≡ x'
    → Permᴰ
        (if b then x ∷ (if c then y ∷ l else l) else (if c then y ∷ l else l))
        (if b' then x' ∷ (if c' then y' ∷ l else l) else (if c' then y' ∷ l else l))
keep-swap true true b' c' l e f q r = rw (← e, ← f) (Permᴰ.swap q r)
keep-swap true false b' c' l e f q r = rw (← e, ← f) (Permᴰ.cons q (Permᴰ.refl l))
keep-swap false true b' c' l e f q r = rw (← e, ← f) (Permᴰ.cons r (Permᴰ.refl l))
keep-swap false false b' c' l e f q r = rw (← e, ← f) (Permᴰ.refl l)

keep_if-Permᴰ :
    (f : SecretStore → Bool) {xs ys : List SecretStore}
    → Permᴰ xs ys
    → Permᴰ (keep_if f xs) (keep_if f ys)
keep_if-Permᴰ f Permᴰ.nil = Permᴰ.nil
keep_if-Permᴰ f (Permᴰ.cons e d) = keep-cons _ _ (ap f e) e (keep_if-Permᴰ f d)
keep_if-Permᴰ f (Permᴰ.swap {l = l} e g) = keep-swap _ _ _ _ (keep_if f l) (ap f e) (ap f g) e g
keep_if-Permᴰ f (Permᴰ.trans d e) = Permᴰ.trans (keep_if-Permᴰ f d) (keep_if-Permᴰ f e)

without-other : (i : ℕ) (xs : List SecretStore) → All (λ y. y.id ≢ i) xs → without i xs ≡ xs
without-other i [] h = refl
without-other i (x ∷ xs) (n, h) = ground (arith, without-other i xs h)

pub without-front :
    (s : SecretStore) (xs ys : List SecretStore)
    → Permᴰ xs (s ∷ ys)
    → Distinct xs
    → Permᴰ (without s.id xs) ys
without-front s xs ys d h =
    let rest : without s.id (s ∷ ys) ≡ ys =
      ground (arith, without-other s.id ys (Distinct-Permᴰ d h).0) in
    subst (Permᴰ (without s.id xs)) rest (keep_if-Permᴰ (λ t. not (t.id == s.id)) d)

-- A row of the table, in front of the others.
pub Memᴰ-front :
    (s : SecretStore) (xs : List SecretStore)
    → Memᴰ s xs
    → (ys : List SecretStore) × Permᴰ xs (s ∷ ys)
Memᴰ-front s [] m = absurd (Memᴰ.not-nil m)
Memᴰ-front s (x ∷ xs) m = elim (Memᴰ.cases_cons m) [
  | inl q ↦ (xs, Permᴰ.cons (sym q) (Permᴰ.refl xs))
  | inr k ↦
      let (ys, d) = Memᴰ-front s xs k in
      (x ∷ ys, Permᴰ.trans (Permᴰ.cons refl d) (Permᴰ.swap refl refl))
]

pub front-without :
    (s : SecretStore) (xs : List SecretStore)
    → Memᴰ s xs
    → Distinct xs
    → Permᴰ xs (s ∷ without s.id xs)
front-without s xs m h =
    let (ys, d) = Memᴰ-front s xs m in
    Permᴰ.trans d (Permᴰ.cons refl (Permᴰ.symm (without-front s xs ys d h)))
