-- ===== src/Secrets/Keks.antt =====
-- The key encryption keys of a project: a plugin has one that is active, bound once.
use mathlib.Core.List.{Memᴰ}
use mathlib.Core.List.Memᴰ
use mathlib.Core.Path.{subst}
use barbican.Shared.{
  Bool-cases, inl, inr, eq_refl, ℕ, String, ◌≡◌, refl, sym, ap, ◌∙◌, Bool, true, false, not, some,
  List, [], ◌∷◌, arith, str_eq, ◌==◌, ◌≤◌, keep_if,
}
use barbican.Shared.Result.{ok}
use barbican.Shared.Exec.{run-inj}
use barbican.Plugins.{first_such}
use barbican.Secrets.Data.{}
use barbican.Secrets.World.{
  Project, KekDatum, World, put_kek, find_kek, is_active_kek, one_or_new, new_kek,
  find_or_create_kek_datum,
}
use barbican.Secrets.Crypto.{}

module _ {A : Type 0} where
  keep_if_comm :
      (f g : A → Bool) (xs : List A) → keep_if f (keep_if g xs) ≡ keep_if g (keep_if f xs)
  keep_if_comm f g [] = refl
  keep_if_comm f g (x ∷ xs) = ground (arith, keep_if_comm f g xs)

  pub keep_if-Memᴰ :
      (f : A → Bool) (xs : List A) (x : A) → Memᴰ x (keep_if f xs) → Memᴰ x xs × (f x ≡ true)
  keep_if-Memᴰ f [] x m = absurd (Memᴰ.not-nil m)
  keep_if-Memᴰ f (y ∷ ys) x m = elim (Bool-cases (f y)) [
    | inl e ↦ elim (Memᴰ.cases_cons {a = x} {b = y} {l = keep_if f ys} (rw e at m)) [
      | inl q ↦ (Memᴰ.head q, subst (λ z. f z ≡ true) (sym q) e)
      | inr k ↦ let (t, h) = keep_if-Memᴰ f ys x k in (Memᴰ.tail t, h)
    ]
    | inr e ↦ let (t, h) = keep_if-Memᴰ f ys x (rw e at m) in (Memᴰ.tail t, h)
  ]

-- A row is what its identifier finds.
abbrev pub IsKeyed : List KekDatum → Type 0
IsKeyed rows = (r : KekDatum) → Memᴰ r rows → find_kek r.id rows ≡ some r

find_kek-keep_if :
    (i j : ℕ) (rows : List KekDatum)
    → (i == j) ≡ false
    → find_kek i (keep_if (λ (r : KekDatum). not (r.id == j)) rows) ≡ find_kek i rows
unfolding find_kek first_such
find_kek-keep_if i j [] h = refl
find_kek-keep_if i j (r ∷ rs) h = elim (Bool-cases (r.id == j)) [
  | inl e ↦
      let other : (r.id == i) ≡ false = ground arith in rw (e, other) (find_kek-keep_if i j rs h)
  | inr e ↦ elim (Bool-cases (r.id == i)) [
    | inl d ↦ rw (e, d)
    | inr d ↦ rw (e, d) (find_kek-keep_if i j rs h)
  ]
]

pub id_refl : (i : ℕ) → (i == i) ≡ true
id_refl i = ground arith

pub find_kek-put_kek :
    (k : KekDatum) (rows : List KekDatum) → find_kek k.id (put_kek k rows) ≡ some k
unfolding find_kek first_such put_kek
find_kek-put_kek k rows = rw (id_refl k.id)

pub put_kek-IsKeyed :
    (k : KekDatum) (rows : List KekDatum) → IsKeyed rows → IsKeyed (put_kek k rows)
unfolding put_kek find_kek first_such
put_kek-IsKeyed k rows keyed r m =
    elim (Memᴰ.cases_cons {a = r} {b = k} {l = keep_if (λ (r : KekDatum). not (r.id == k.id)) rows}
      m) [
        | inl q ↦
            subst (λ z. find_kek z.id (put_kek k rows) ≡ some z) (sym q) (find_kek-put_kek k rows)
        | inr t ↦
            let (h, d) = keep_if-Memᴰ (λ (r : KekDatum). not (r.id == k.id)) rows r t in
            let apart : (r.id == k.id) ≡ false = ground arith in
            let apart' : (k.id == r.id) ≡ false = ground arith in
            rw apart' (find_kek-keep_if r.id k.id rows apart ∙ keyed r h)
      ]

keep_if_nil_comm :
    {A : Type 0} (f g : A → Bool) (xs : List A) → keep_if f xs ≡ [] → keep_if f (keep_if g xs) ≡ []
keep_if_nil_comm f g xs h = keep_if_comm f g xs ∙ ap (keep_if g) h

-- The key that a project and a plugin have, and no other.
abbrev pub IsActiveKek : Project → String → KekDatum → List KekDatum → Type 0
IsActiveKek project name k rows = keep_if (is_active_kek project.id name) rows ≡ k ∷ []

pub keep_if_singleton :
    {A : Type 0} (f : A → Bool) (xs : List A) (x : A) → keep_if f xs ≡ x ∷ [] → f x ≡ true
keep_if_singleton f xs x h = (keep_if-Memᴰ f xs x (subst (Memᴰ x) (sym h) (Memᴰ.head refl))).1

-- A new version of the active key is the active one.
pub put_kek-IsActiveKek :
    (project : Project) (name : String) (k k' : KekDatum) (rows : List KekDatum)
    → k'.id ≡ k.id
    → is_active_kek project.id name k' ≡ true
    → IsActiveKek project name k rows
    → IsActiveKek project name k' (put_kek k' rows)
unfolding put_kek
put_kek-IsActiveKek project name k k' rows same active h =
    let f = is_active_kek project.id name in
    let g : KekDatum → Bool = λ r. not (r.id == k'.id) in
    let dropped : (k.id == k'.id) ≡ true = ground arith in
    let others : keep_if f (keep_if g rows) ≡ [] =
      keep_if_comm f g rows ∙ ap (keep_if g) h ∙ rw dropped refl in
    rw active (ap (λ t. k' ∷ t) others)

new_kek_active :
    (project : Project) (name : String) (i : ℕ)
    → is_active_kek project.id name (new_kek project name i) ≡ true
new_kek_active project name i = rw (id_refl project.id, eq_refl name) refl

module _ {P C S : Type 0} where
  one_or_new-IsActiveKek :
      (project : Project) (name : String) (w : World P C S) (rows : List KekDatum) (k : KekDatum)
      (w' : World P C S)
      → keep_if (is_active_kek project.id name) w.keks ≡ rows
      → one_or_new project name rows w ≡ (ok k, w')
      → IsActiveKek project name k w'.keks
  unfolding put_kek
  one_or_new-IsActiveKek project name w [] k w' e h =
      let (same, after) = run-inj h in
      let k0 = new_kek project name w.next_id in
      let f = is_active_kek project.id name in
      let base : IsActiveKek project name k0 (put_kek k0 w.keks) =
        rw (new_kek_active project name w.next_id)
          (ap (λ t. k0 ∷ t) (keep_if_nil_comm f (λ r. not (r.id == k0.id)) w.keks e)) in
      subst (λ z. IsActiveKek project name k z.keks) after
        (subst (λ z. IsActiveKek project name z (put_kek k0 w.keks)) same base)
  one_or_new-IsActiveKek project name w (r ∷ []) k w' e h =
      let (same, after) = run-inj h in
      subst (λ z. IsActiveKek project name k z.keks) after
        (subst (λ z. IsActiveKek project name z w.keks) same e)
  one_or_new-IsActiveKek project name w (r ∷ r' ∷ rs) k w' e h = cc

  one_or_new-IsKeyed :
      (project : Project) (name : String) (w : World P C S) (rows : List KekDatum) (k : KekDatum)
      (w' : World P C S)
      → keep_if (is_active_kek project.id name) w.keks ≡ rows
      → one_or_new project name rows w ≡ (ok k, w')
      → IsKeyed w.keks
      → IsKeyed w'.keks × (find_kek k.id w'.keks ≡ some k)
  unfolding put_kek
  one_or_new-IsKeyed project name w [] k w' e h keyed =
      let (same, after) = run-inj h in
      let k0 = new_kek project name w.next_id in
      subst (λ z. IsKeyed z.keks × (find_kek k.id z.keks ≡ some k)) after
        (
          put_kek-IsKeyed k0 w.keks keyed,
          subst (λ z. find_kek z.id (put_kek k0 w.keks) ≡ some z) same (find_kek-put_kek k0 w.keks),
        )
  one_or_new-IsKeyed project name w (r ∷ []) k w' e h keyed =
      let (same, after) = run-inj h in
      let (m, t) =
        keep_if-Memᴰ (is_active_kek project.id name) w.keks r
          (subst (Memᴰ r) (sym e) (Memᴰ.head refl)) in
      subst (λ z. IsKeyed z.keks × (find_kek k.id z.keks ≡ some k)) after
        (keyed, subst (λ z. find_kek z.id w.keks ≡ some z) same (keyed r m))
  one_or_new-IsKeyed project name w (r ∷ r' ∷ rs) k w' e h keyed = cc

  -- What stays as it was while a key is found or made.
  pub record Untouched (w w' : World P C S) : Type 0 where
    pub encrypted_data : w'.encrypted_data ≡ w.encrypted_data
    pub metadata : w'.metadata ≡ w.metadata
    pub stores : w'.stores ≡ w.stores
    pub cryptos : w'.cryptos ≡ w.cryptos
    pub grows : w.next_id ≤ w'.next_id

  one_or_new-Untouched :
      (project : Project) (name : String) (w : World P C S) (rows : List KekDatum) (k : KekDatum)
      (w' : World P C S)
      → one_or_new project name rows w ≡ (ok k, w')
      → Untouched w w'
  unfolding put_kek
  one_or_new-Untouched project name w [] k w' h = subst (Untouched w) (run-inj h).1 (record {
    encrypted_data = refl;
    metadata = refl;
    stores = refl;
    cryptos = refl;
    grows = omega arith;
  })
  one_or_new-Untouched project name w (r ∷ []) k w' h = subst (Untouched w) (run-inj h).1 (record {
    encrypted_data = refl;
    metadata = refl;
    stores = refl;
    cryptos = refl;
    grows = omega arith;
  })
  one_or_new-Untouched project name w (r ∷ r' ∷ rs) k w' h = cc

  -- What a run that finds or makes a key comes to.
  pub record Found (project : Project) (name : String) (k : KekDatum) (w w' : World P C S)
      : Type 0 where
    pub named : str_eq name "" ≡ false
    pub active : IsActiveKek project name k w'.keks
    pub keyed : IsKeyed w.keks → IsKeyed w'.keks × (find_kek k.id w'.keks ≡ some k)
    pub untouched : Untouched w w'

  pub find_or_create_kek_datum-Found :
      (project : Project) (name : String) (w : World P C S) (k : KekDatum) (w' : World P C S)
      → find_or_create_kek_datum project name w ≡ (ok k, w')
      → Found project name k w w'
  unfolding find_or_create_kek_datum
  find_or_create_kek_datum-Found project name w k w' h = elim (Bool-cases (str_eq name "")) [
    | inl e ↦ cc (rw e at h)
    | inr e ↦
        let rows = keep_if (is_active_kek project.id name) w.keks in
        let run : one_or_new project name rows w ≡ (ok k, w') = rw e at h in
        record {
          named = e;
          active = one_or_new-IsActiveKek project name w rows k w' refl run;
          keyed = one_or_new-IsKeyed project name w rows k w' refl run;
          untouched = one_or_new-Untouched project name w rows k w' run;
        }
  ]

  -- The active key is what is found, and nothing changes.
  pub find_or_create_kek_datum_active :
      (project : Project) (name : String) (w : World P C S) (k : KekDatum)
      → str_eq name "" ≡ false
      → IsActiveKek project name k w.keks
      → find_or_create_kek_datum project name w ≡ (ok k, w)
  unfolding find_or_create_kek_datum
  find_or_create_kek_datum_active project name w k e h = rw (e, h)
