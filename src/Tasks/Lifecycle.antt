-- ===== src/Tasks/Lifecycle.antt =====
-- The life of an order across the processes: the POST of OrdersController and the PUT of
-- OrderController in barbican/api/controllers/orders.py, the worker of barbican/queue/server.py, the
-- scheduler of barbican/queue/retry_scheduler.py, and the clock, in any interleaving. Every process
-- works in a transaction of its own, so one transaction is one step.
pub mod Account
pub mod PostBatch
pub mod Accounted
mod Tests
use barbican.Shared.{
  ℕ, String, ◌≡◌, refl, Bool, true, false, not, Option, none, some, List, [], ◌∷◌, ◌++◌, str_eq,
}
use barbican.Shared.Result.{Result, ok, raised}
use barbican.Session
use barbican.Session.{Session}
use barbican.Paging.{PagingConf}
use barbican.Quota.{QuotaError}
use barbican.Tasks.Orders.{
  pending, OrderType, certificate, Order, OrderRetryTask, Db, TaskError, find_order, row_of,
}
use barbican.Tasks.Certificates.{Backend}
use barbican.Tasks.OrderTasks.{ExceptionKind}
use barbican.Tasks.Server.{CallArgs, RpcCall, process_type_order, serve}
use barbican.Tasks.Scheduler.{World, Fault, process_retry_tasks}

-- The fields of a POST that matter here; the id is the one that the database makes.
pub record NewOrder : Type 0 where
  pub order_id : String
  pub order_type : OrderType
  pub request_type : Option String
  pub external_project_id : String
  pub request_id : String

abbrev pub fresh_order : NewOrder → Order
fresh_order n = record {
  id = n.order_id;
  project = n.external_project_id;
  type = n.order_type;
  request_type = n.request_type;
  status = pending;
  error_status_code = none;
  error_reason = none;
  secret_id = none;
  container_id = none;
  sub_status = none;
  sub_status_message = none;
  deleted = false;
}

abbrev pub first_call : NewOrder → RpcCall
first_call n = process_type_order (record {
  order_id = n.order_id;
  project_id = n.external_project_id;
  request_id = n.request_id;
})

module _ {W : Type 0} where
  abbrev add_order : Order → Db W → Db W
  add_order o db = record db { orders = db.orders ++ o ∷ [] }

  -- OrdersController.on_post after validation, with the outcome of the quota check: the order is
  -- created and committed, and then its call is cast. The result is the id in the reference.
  unfoldable pub post_order :
      Result QuotaError Unit → NewOrder → World W → Result QuotaError String × World W
  post_order (raised x) n w = (raised x, w)
  post_order (ok _) n w = (
    ok n.order_id,
    record w {
      session =
          Session.commit
            (record w.session { current = add_order (fresh_order n) w.session.current });
      sent = w.sent ++ first_call n ∷ [];
    },
  )

  abbrev pub set_now : ℕ → Db W → Db W
  set_now t db = record db { now = t }

  abbrev pub ticked : ℕ → World W → World W
  ticked t w = record w {
    session = record {
      committed = set_now t w.session.committed;
      current = set_now t w.session.current;
    };
  }

-- A queue and what is left of it once a worker has taken `c`.
pub data Takes (c : RpcCall) : List RpcCall → List RpcCall → Type 0 where
  next : {cs : List RpcCall} → Takes c (c ∷ cs) cs
  later : {d : RpcCall} {cs ds : List RpcCall} → Takes c cs ds → Takes c (d ∷ cs) (d ∷ ds)

module _ {W : Type 0} (backend : Backend W) (kind_of : TaskError → ExceptionKind) where
  abbrev pub worked : RpcCall → List RpcCall → World W → World W
  worked c rest w = record w {
    session = (serve backend kind_of true none c w.session).1;
    sent = rest;
  }

  pub data Step : World W → World W → Type 0 where
    -- The id that the database makes is not empty.
    post :
        (quota : Result QuotaError Unit) (n : NewOrder) (w : World W)
        → str_eq n.order_id "" ≡ false
        → Step w (post_order quota n w).1
    -- A worker takes any call of the queue; its database does not fail, its backend may.
    work :
        (c : RpcCall) (rest : List RpcCall) (w : World W)
        → Takes c w.sent rest
        → Step w (worked c rest w)
    -- The scheduler runs a batch, in which any cast and any commit may fail.
    batch :
        (conf : PagingConf) (faults : OrderRetryTask → Fault) (w : World W)
        → Step w (process_retry_tasks conf faults w).1
    tick : (t : ℕ) (w : World W) → Step w (ticked t w)

  pub data Reach (w : World W) : World W → Type 0 where
    start : Reach w w
    step : {u v : World W} → Reach w u → Step u v → Reach w v
