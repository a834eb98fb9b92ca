-- ===== src/Tasks/Lifecycle/Tests.antt =====
-- The life of one order, from its POST to a batch of the scheduler.
use barbican.Shared.{some}
use barbican.Shared.{ℕ, refl, []}
use barbican.Shared.Int.{}
use barbican.Shared.Result.{ok}
use barbican.Shared.Exec.{}
use barbican.Session.{}
use barbican.Paging.{}
use barbican.Tasks.FollowOn.{}
use barbican.Tasks.BaseTask.{}
use barbican.Tasks.Orders.{certificate, Db, row_of}
use barbican.Tasks.Certificates.{}
use barbican.Tasks.OrderTasks.{}
use barbican.Tasks.OrderTasks.Outcome.{}
use barbican.Tasks.OrderTasks.Process.{}
use barbican.Tasks.Server.{}
use barbican.Tasks.Server.Serve.{}
use barbican.Tasks.OrderUpdate.{}
use barbican.Tasks.Lifecycle.{
  NewOrder, post_order, Takes, next, worked, ticked, post, work, batch, tick, Reach, start, step,
}
use barbican.Tasks.Lifecycle.Account.{IsAccounted}
use barbican.Tasks.Lifecycle.Accounted.{no_order_is_forgotten}
use barbican.Tasks.Scheduler.Frame.{Below}
use barbican.Tasks.Scheduler.{World, process_retry_tasks}
use barbican.Tasks.Scheduler.AtLeastOnce.{}
use barbican.Tasks.Scheduler.Drain.{no_fault}
use barbican.Tasks.Samples.{ca, kind_of, call, conf}

abbrev empty_db : Db ℕ
empty_db = record { orders = []; retries = []; next_id = 1; now = 1000; rest = 0 }

abbrev empty_world : World ℕ
empty_world = record { session = record { committed = empty_db; current = empty_db }; sent = [] }

empty_world-IsAccounted : IsAccounted empty_world
unfolding Below row_of
empty_world-IsAccounted = record {
  fresh = refl;
  books = record { below = tt; named = refl; accounts = λ i waits. cc };
}

abbrev posted : NewOrder
posted = record {
  order_id = "order-1";
  order_type = certificate;
  request_type = some "stored-key";
  external_project_id = "project-1";
  request_id = "req-1";
}

abbrev posted_world : World ℕ
posted_world = (post_order (ok tt) posted empty_world).1

-- The order is posted, a worker takes its call, and the scheduler runs once the retry is due.
abbrev served_world : World ℕ
served_world = worked ca kind_of call [] posted_world

posted_call : Takes call posted_world.sent []
unfolding post_order
posted_call = next

life : Reach ca kind_of empty_world (process_retry_tasks conf no_fault (ticked 7000 served_world)).1
life =
    step
      (step
        (step (step start (post (ok tt) posted empty_world refl))
          (work call [] posted_world posted_call))
        (tick 7000 served_world))
      (batch conf no_fault (ticked 7000 served_world))

no_order_is_forgotten_example :
    IsAccounted (process_retry_tasks conf no_fault (ticked 7000 served_world)).1
no_order_is_forgotten_example = no_order_is_forgotten ca kind_of life empty_world-IsAccounted
