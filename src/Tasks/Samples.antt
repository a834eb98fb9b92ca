-- ===== src/Tasks/Samples.antt =====
-- The inputs of the tests: a certificate authority that lets the first request wait and has the
-- certificate at the check, an order, its calls, and a world in which its retry is due.
use barbican.Tasks.Orders.{not_found}
use barbican.Shared.Exec.{raise}
use barbican.Shared.{ℕ, true, false, none, some, [], ◌∷◌}
use barbican.Shared.Int.{pos}
use barbican.Shared.Result.{}
use barbican.Shared.Exec.{pure}
use barbican.Session.{Session}
use barbican.Paging.{PagingConf}
use barbican.Tasks.FollowOn.{}
use barbican.Tasks.BaseTask.{}
use barbican.Tasks.Orders.{pending, certificate, Order, OrderRetryTask, Db, TaskError}
use barbican.Tasks.Certificates.{
  CertificateStatus, waiting_for_ca, certificate_generated, CaResult, Backend,
}
use barbican.Tasks.OrderTasks.{ExceptionKind, other_exception, OrderArgs}
use barbican.Tasks.OrderTasks.Outcome.{}
use barbican.Tasks.OrderTasks.Process.{}
use barbican.Tasks.Server.{CallArgs, RpcCall, process_type_order, kwargs_of}
use barbican.Tasks.Server.Serve.{}
use barbican.Tasks.OrderUpdate.{}
use barbican.Tasks.Lifecycle.{}
use barbican.Tasks.Lifecycle.Account.{}
use barbican.Tasks.Lifecycle.Accounted.{}
use barbican.Tasks.Scheduler.Frame.{}
use barbican.Tasks.Scheduler.{World, Fault}
use barbican.Tasks.Scheduler.AtLeastOnce.{}
use barbican.Tasks.Scheduler.Drain.{}

abbrev pub answer : CertificateStatus → CaResult
answer status = record {
  status = status;
  status_message = "";
  certificate = some "cert";
  intermediates = none;
  retry_msec = pos 5000;
}

abbrev pub ca : Backend ℕ
ca = record {
  get_project = λ o. pure tt;
  generate_secret = λ o. pure "secret-1";
  generate_asymmetric_secret = λ o. pure "container-1";
  get_plugin_meta = λ o. pure [];
  get_barbican_meta = λ o. pure [];
  save_plugin_metadata = λ o m. pure tt;
  save_barbican_metadata = λ o m. pure tt;
  refresh_ca_table = pure tt;
  get_plugin_by_name = λ n. pure "ca.Plugin";
  get_plugin = λ o. pure "ca.Plugin";
  get_ca_id = λ o. pure none;
  get_ca = λ i. raise not_found;
  generate_csr_from_private_key = λ o. pure "csr";
  plugin_issue = λ p o m i csr. pure (answer waiting_for_ca, m);
  plugin_check = λ p o m. pure (answer certificate_generated, m);
  save_secrets = λ r o. pure "container-2";
  notify_ca_unavailable = λ o r. pure tt;
  rolled_back = λ committed reached. committed;
}

abbrev pub kind_of : TaskError → ExceptionKind
kind_of x = other_exception

abbrev pub order : Order
order = record {
  id = "order-1";
  project = "project-1";
  type = certificate;
  request_type = some "stored-key";
  status = pending;
  error_status_code = none;
  error_reason = none;
  secret_id = none;
  container_id = none;
  sub_status = none;
  sub_status_message = none;
  deleted = false;
}

abbrev pub db : Db ℕ
db = record { orders = order ∷ []; retries = []; next_id = 1; now = 1000; rest = 0 }

abbrev pub session : Session (Db ℕ)
session = record { committed = db; current = db }

abbrev pub call_args : CallArgs
call_args = record { order_id = "order-1"; project_id = "project-1"; request_id = "req-1" }

abbrev pub order_args : OrderArgs
order_args = record { order_id = "order-1"; external_project_id = "project-1" }

abbrev pub call : RpcCall
call = process_type_order call_args

abbrev pub check_row : OrderRetryTask
check_row = record {
  id = 1;
  order_id = "order-1";
  retry_task = "check_certificate_status";
  retry_at = 6000;
  retry_kwargs = kwargs_of call;
  retry_count = 0;
  deleted = false;
}

abbrev pub conf : PagingConf
conf = record { default_limit_paging = pos 10; max_limit_paging = pos 100 }

abbrev pub world : World ℕ
world = record {
  session = record {
    committed = record db { retries = check_row ∷ []; now = 7000 };
    current = record db { retries = check_row ∷ []; now = 7000 };
  };
  sent = [];
}

abbrev pub cast_fault : OrderRetryTask → Fault
cast_fault t = record { cast_fails = false; commit_fails = true }
