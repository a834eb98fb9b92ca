-- ===== src/Tasks/Tests.antt =====
-- Runs of the task queue at concrete inputs, and its theorems applied to them.
use barbican.Tasks.Orders.{not_implemented, Order}
use barbican.Tasks.OrderTasks.{
  update_type_order, update_order, update_type, generate_safe_exception_message,
}
use barbican.Tasks.Certificates.{modify_certificate_request}
use barbican.Tasks.OrderTasks.Process.{run}
use barbican.Tasks.OrderTasks.Report.{Tells, task_reports}
use barbican.Shared.{◌≡◌, refl, true, none, some, [], ◌∷◌}
use barbican.Shared.Int.{}
use barbican.Shared.Result.{ok, raised}
use barbican.Shared.Exec.{◌>>=◌, try_except}
use barbican.Session.{}
use barbican.Paging.{bound_offset, bound_limit, clean_paging_values, page}
use barbican.Tasks.FollowOn.{is_follow_on_needed}
use barbican.Tasks.BaseTask.{process, process_and_suppress_exceptions}
use barbican.Tasks.Orders.{
  pending, failure, find_order, row_of, write_row, write_order, get_order, status_of,
}
use barbican.Quota.{dict_get}
use barbican.Plugins.{dict_set}
use barbican.Tasks.Certificates.{
  get_cert_plugin, csr_for, handle_task_result, issue_certificate_request, update_result_follow_on,
}
use barbican.Tasks.OrderTasks.{
  begin_type_order, handle_order, begin_order, begin_type, set_container, on_rest, order_task,
  finish, handle_success, retrieve_entity,
}
use barbican.Tasks.OrderTasks.Outcome.{expected_state}
use barbican.Tasks.OrderTasks.Process.{IsSettled, task_settles}
use barbican.Tasks.Server.{
  check_certificate_status, kwargs_of, serve, invoke, transactional, kwarg, retry_method,
  create_retry, schedule_order_retry_tasks, client_call,
}
use barbican.Tasks.Server.Serve.{IsServed, serve_records, serve_rolls_back}
use barbican.Tasks.OrderUpdate.{
  PutError, attribute_error, put_order, on_put, lookup, cast_update, put_order_fails,
}
use barbican.Tasks.Lifecycle.{}
use barbican.Tasks.Lifecycle.Account.{}
use barbican.Tasks.Lifecycle.Accounted.{}
use barbican.Tasks.Scheduler.Frame.{}
use barbican.Tasks.Scheduler.{get_by_create_date, process_retry_tasks}
use barbican.Tasks.Scheduler.AtLeastOnce.{Kept, retry_at_least_once}
use barbican.Tasks.Scheduler.Drain.{no_fault, IsDrained, faultless_drains}
use barbican.Tasks.Samples.{
  ca, kind_of, order, db, session, call_args, order_args, call, check_row, conf, world, cast_fault,
}

found : find_order "order-1" "project-1" db.orders ≡ some order
unfolding find_order
found = refl

-- The first call leaves the order waiting, with a retry that checks it five seconds later.
first_call :
    (status_of (serve ca kind_of true none call session).1.committed "order-1" ≡ some pending)
    × ((serve ca kind_of true none call session).1.committed.retries ≡ check_row ∷ [])
unfolding serve transactional invoke process_and_suppress_exceptions process order_task
    retrieve_entity get_order find_order handle_order begin_order begin_type set_container on_rest
    issue_certificate_request get_cert_plugin csr_for dict_get dict_set handle_task_result
    update_result_follow_on handle_success finish write_order write_row is_follow_on_needed
    schedule_order_retry_tasks create_retry retry_method kwarg row_of ◌>>=◌ try_except
first_call = (refl, refl)

task_settles_example :
    IsSettled ca kind_of begin_type_order order_args
      (handle_order ca kind_of begin_type_order order db).0
      db
      (process_and_suppress_exceptions (order_task ca kind_of begin_type_order) order_args db)
task_settles_example = task_settles ca kind_of begin_type_order order_args order db found

update_raises : (handle_order ca kind_of update_type_order order db).0 ≡ raised not_implemented
unfolding handle_order update_order update_type on_rest modify_certificate_request ◌>>=◌
update_raises = refl

task_reports_example :
    (p : Order) × (row_of "order-1" (run ca kind_of update_type_order order_args db).1.orders
      ≡ some p)
    × Tells (500, some "Update Order failure seen - please contact site administrator.") p
unfolding generate_safe_exception_message
task_reports_example =
    task_reports ca kind_of update_type_order order_args order db not_implemented found
      update_raises

serve_records_example :
    let (r, s') = serve ca kind_of true none call session in
    (r ≡ ok tt) × (s'.current ≡ s'.committed) × IsServed ca kind_of call order db s'.committed
serve_records_example = serve_records ca kind_of call order session found refl

call_waits : expected_state (handle_order ca kind_of begin_type_order order db).0 ≡ pending
unfolding handle_order begin_order begin_type set_container on_rest issue_certificate_request
    get_cert_plugin csr_for dict_get dict_set handle_task_result update_result_follow_on
    is_follow_on_needed ◌>>=◌
call_waits = refl

serve_rolls_back_example :
    serve ca kind_of true (some (failure "database")) call session ≡ (ok tt, session)
serve_rolls_back_example =
    serve_rolls_back ca kind_of call (failure "database") order session found call_waits refl

retry_at_least_once_example :
    Kept
      (get_by_create_date conf 7000 (check_row ∷ [])).0
      world
      (process_retry_tasks conf cast_fault world).1
retry_at_least_once_example = retry_at_least_once conf cast_fault world

due_page : (get_by_create_date conf 7000 (check_row ∷ [])).0 ≡ check_row ∷ []
unfolding get_by_create_date clean_paging_values bound_offset bound_limit page
due_page = refl

check_call :
    client_call "check_certificate_status" (kwargs_of call)
    ≡ some (check_certificate_status call_args)
unfolding client_call kwarg
check_call = refl

faultless_drains_example : IsDrained check_row (process_retry_tasks conf no_fault world).1
faultless_drains_example =
    faultless_drains conf world [] [] check_row (check_certificate_status call_args) due_page
      check_call

put_order_fails_example :
    (x : PutError) × (put_order call_args
        (ok (record { type = "certificate"; meta = "meta" }))
        (ok tt)
        world
      ≡ (raised x, world))
put_order_fails_example =
    put_order_fails call_args (ok (record { type = "certificate"; meta = "meta" })) (ok tt) world

-- An update that passes every check ends in an AttributeError.
pending_update :
    put_order call_args (ok (record { type = "certificate"; meta = "meta" })) (ok tt) world
    ≡ (raised attribute_error, world)
unfolding put_order on_put lookup cast_update find_order ◌>>=◌
pending_update = refl
