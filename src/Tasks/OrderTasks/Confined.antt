-- ===== src/Tasks/OrderTasks/Confined.antt =====
-- What a task on one order may touch.
use barbican.Shared.{
  String, ◌≡◌, refl, ◌∙◌, ap, Bool, true, false, Option, none, some, List, [], ◌∷◌, arith, str_eq,
  eq_iff, if◌then◌else◌,
}
use barbican.Shared.Result.{Result, ok, raised}
use barbican.Shared.Exec.{Exec, modify, pure, raise, continue, ◌>>=◌}
use barbican.Tasks.FollowOn.{}
use barbican.Tasks.Orders.{Order, Db, TaskError, Work, row_of, find_order, write_row, write_order}
use barbican.Tasks.OrderTasks.{on_rest}

abbrev map_some : (Order → Order) → Option Order → Option Order
map_some f none = none
map_some f (some o) = some (f o)

pub row_of-write_row :
    (i j : String) (f : Order → Order) (os : List Order)
    → ((o : Order) → (f o).id ≡ o.id)
    → row_of j (write_row i f os) ≡ (if str_eq i j then map_some f (row_of j os) else row_of j os)
unfolding row_of write_row
row_of-write_row i j f [] same = ground arith
row_of-write_row i j f (o ∷ os) same =
    ground (arith, same o, eq_iff o.id i, eq_iff o.id j, eq_iff i j, row_of-write_row i j f os same)

abbrev pub is_there : Option Order → Bool
is_there none = false
is_there (some o) = true

-- What a query for an order looks at; no task writes it.
abbrev pub keys : Order → String × (String × Bool)
keys o = (o.id, (o.project, o.deleted))

abbrev pub KeepsKeys : (Order → Order) → Type 0
KeepsKeys f = (o : Order) → keys (f o) ≡ keys o

pub keeps_id : (f : Order → Order) → KeepsKeys f → (o : Order) → (f o).id ≡ o.id
keeps_id f same o = ap (λ (k : String × (String × Bool)). k.0) (same o)

pub find_order-write_row :
    (i j p : String) (f : Order → Order) (os : List Order)
    → KeepsKeys f
    → is_there (find_order j p (write_row i f os)) ≡ is_there (find_order j p os)
unfolding find_order write_row
find_order-write_row i j p f [] same = refl
find_order-write_row i j p f (o ∷ os) same =
    let e = keeps_id f same o in
    let e' = ap (λ (k : String × (String × Bool)). k.1.0) (same o) in
    let e'' = ap (λ (k : String × (String × Bool)). k.1.1) (same o) in
    ground (arith, e, e', e'', find_order-write_row i j p f os same)

module _ {W : Type 0} where
  pub record Touches (i : String) (before after : Db W) : Type 0 where
    pub others : (j : String) → str_eq i j ≡ false → row_of j after.orders ≡ row_of j before.orders
    pub retries : after.retries ≡ before.retries
    pub next_id : after.next_id ≡ before.next_id
    pub now : after.now ≡ before.now
    pub there : is_there (row_of i after.orders) ≡ is_there (row_of i before.orders)
    pub finds :
        (j p : String)
        → is_there (find_order j p after.orders) ≡ is_there (find_order j p before.orders)

  pub Touches-refl : (i : String) (db : Db W) → Touches i db db
  Touches-refl i db = record {
    others = λ j h. refl;
    retries = refl;
    next_id = refl;
    now = refl;
    there = refl;
    finds = λ j p. refl;
  }

  pub Touches-trans : (i : String) (a b c : Db W) → Touches i a b → Touches i b c → Touches i a c
  Touches-trans i a b c p q = record {
    others = λ j h. q.others j h ∙ p.others j h;
    retries = q.retries ∙ p.retries;
    next_id = q.next_id ∙ p.next_id;
    now = q.now ∙ p.now;
    there = q.there ∙ p.there;
    finds = λ j n. q.finds j n ∙ p.finds j n;
  }

-- Whether it returns or raises, the action touches the row of `i` alone.
pub record Confined {W A : Type 0} (i : String) (m : Work W A) : Type 0 where
  pub at : (db : Db W) → Touches i db (m db).1

module _ {W A : Type 0} (i : String) where
  pub Confined-pure : (a : A) → Confined i (pure {S = Db W} {X = TaskError} a)
  unfolding pure
  Confined-pure a = record { at = λ db. Touches-refl i db }

  pub Confined-raise : (x : TaskError) → Confined {W = W} {A = A} i (raise x)
  unfolding raise
  Confined-raise x = record { at = λ db. Touches-refl i db }

  pub Confined-on_rest : (m : Exec W TaskError A) → Confined i (on_rest m)
  unfolding on_rest
  Confined-on_rest m = record {
    at = λ db. record {
      others = λ j h. refl;
      retries = refl;
      next_id = refl;
      now = refl;
      there = refl;
      finds = λ j p. refl;
    };
  }

module _ {W A B : Type 0} (i : String) where
  continue-Touches :
      (r : Result TaskError A) (f : A → Work W B) (db : Db W)
      → ((a : A) → Confined i (f a))
      → Touches i db (continue r f db).1
  continue-Touches (ok a) f db k = (k a).at db
  continue-Touches (raised x) f db k = Touches-refl i db

  pub Confined-bind :
      (m : Work W A) (f : A → Work W B)
      → Confined i m
      → ((a : A) → Confined i (f a))
      → Confined i (m >>= f)
  unfolding ◌>>=◌
  Confined-bind m f c k = record {
    at = λ db.
        let (r, db') = m db in
        Touches-trans i db db' (continue r f db').1 (c.at db) (continue-Touches r f db' k);
  }

module _ {W : Type 0} (i : String) where
  pub Confined-write : (f : Order → Order) → KeepsKeys f → Confined {W = W} i (write_order i f)
  unfolding write_order modify
  Confined-write f same = record {
    at = λ db. record {
      others = λ j h. row_of-write_row i j f db.orders (keeps_id f same) ∙ rw h;
      retries = refl;
      next_id = refl;
      now = refl;
      there = ground (arith, row_of-write_row i i f db.orders (keeps_id f same), eq_iff i i);
      finds = λ j p. find_order-write_row i j p f db.orders same;
    };
  }
