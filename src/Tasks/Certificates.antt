-- ===== src/Tasks/Certificates.antt =====
-- barbican/tasks/certificate_resources.py: what the answer of a certificate authority does to an
-- order. The plugins, their managers, and what stores secrets and metadata are the operations of
-- `Backend`.
use barbican.Shared.{ℕ, String, Bool, false, Option, none, some, ltb, str_eq, if◌then◌else◌}
use barbican.Shared.Int.{ℤ, pos, pos_part}
use barbican.Shared.Exec.{Exec, pure, raise, ◌>>=◌, ◌>>◌}
use barbican.Tasks.FollowOn.{
  RetryTask, invoke_same_task, no_action_required, invoke_cert_status_check_task,
  retry_msec_default, FollowOn,
}
use barbican.Quota.{dict_get}
use barbican.Plugins.{dict_set}
use barbican.Tasks.Orders.{
  Kwargs, Order, TaskError, not_implemented, client_data_issue, invalid_operation,
  status_not_supported,
}

-- CertificateStatus, and any other text
pub data CertificateStatus : Type 0 where
  certificate_generated waiting_for_ca client_data_issue_seen : CertificateStatus
  ca_unavailable_for_request request_canceled invalid_operation_seen : CertificateStatus
  other_status : String → CertificateStatus

abbrev status_text : CertificateStatus → String
status_text certificate_generated = "certificate generated"
status_text waiting_for_ca = "waiting for CA"
status_text client_data_issue_seen = "client data issue seen"
status_text ca_unavailable_for_request = "CA unavailable for request"
status_text request_canceled = "request canceled"
status_text invalid_operation_seen = "invalid operation"
status_text (other_status s) = s

-- ResultDTO
pub record CaResult : Type 0 where
  pub status : CertificateStatus
  pub status_message : String
  pub certificate : Option String
  pub intermediates : Option String
  pub retry_msec : ℤ

-- models.OrderStatus
pub record OrderStatus : Type 0 where
  pub id : String
  pub message : String

abbrev pub order_status_request_pending : OrderStatus
order_status_request_pending = record {
  id = "cert_request_pending";
  message = "Request has been submitted to the CA.  Waiting for certificate to be generated";
}

abbrev pub order_status_cert_generated : OrderStatus
order_status_cert_generated = record {
  id = "cert_generated";
  message = "Certificate has been generated";
}

abbrev pub order_status_ca_unavail_for_issue : OrderStatus
order_status_ca_unavail_for_issue = record {
  id = "cert_ca_unavail_for_issue";
  message = "Unable to submit certificate request.  CA unavailable";
}

abbrev pub order_status_ca_unavail_for_check : OrderStatus
order_status_ca_unavail_for_check = record {
  id = "cert_ca_unavail_for_status_check";
  message = "Unable to get certificate request status.  CA unavailable.";
}

abbrev pub error_retry_msec : ℤ
error_retry_msec = pos 300000

-- `if retry_msec and retry_msec >= 0`: zero and negative intervals leave the field as it is.
abbrev or_kept : ℕ → ℤ → ℕ
or_kept old msec = if ltb 0 (pos_part msec) then pos_part msec else old

unfoldable pub update_result_follow_on : OrderStatus → RetryTask → ℤ → FollowOn → FollowOn
update_result_follow_on order_status task msec f = record {
  status = order_status.id;
  status_message = order_status.message;
  retry_task = some task;
  retry_msec = or_kept f.retry_msec msec;
}

-- The row of a certificate authority, as far as the choice of its plugin goes.
pub record CertificateAuthority : Type 0 where
  pub plugin_name : String
  pub plugin_ca_id : String

-- What this package asks of the plugins, of their managers and of the other modules that store
-- secrets. A certificate plugin is told by its full name.
pub record Backend (W : Type 0) : Type 0 where
  -- project_repo.get(order.project_id)
  pub get_project : Order → Exec W TaskError Unit
  -- the id of the secret, or of the container, that was made
  pub generate_secret : Order → Exec W TaskError String
  pub generate_asymmetric_secret : Order → Exec W TaskError String
  -- the metadata tables of an order
  pub get_plugin_meta : Order → Exec W TaskError Kwargs
  pub get_barbican_meta : Order → Exec W TaskError Kwargs
  pub save_plugin_metadata : Order → Kwargs → Exec W TaskError Unit
  pub save_barbican_metadata : Order → Kwargs → Exec W TaskError Unit
  -- CertificatePluginManager
  pub refresh_ca_table : Exec W TaskError Unit
  pub get_plugin_by_name : Option String → Exec W TaskError String
  pub get_plugin : Order → Exec W TaskError String
  -- _get_ca_id, and the row of that authority
  pub get_ca_id : Order → Exec W TaskError (Option String)
  pub get_ca : String → Exec W TaskError CertificateAuthority
  pub generate_csr_from_private_key : Order → Exec W TaskError String
  -- a plugin's answer, and the plugin metadata as it left it
  pub plugin_issue :
      String → Order → Kwargs → Option String → Option String → Exec W TaskError (CaResult × Kwargs)
  pub plugin_check : String → Order → Kwargs → Exec W TaskError (CaResult × Kwargs)
  -- the id of the new container
  pub save_secrets : CaResult → Order → Exec W TaskError String
  pub notify_ca_unavailable : Order → CaResult → Exec W TaskError Unit
  -- what a rollback leaves, from the state that was committed and the state that was reached: the
  -- rows go back, and what the certificate authorities keep does not
  pub rolled_back : W → W → W

abbrev non_empty : Option String → Option String
non_empty none = none
non_empty (some s) = if str_eq s "" then none else some s

abbrev is_stored_key : Option String → Bool
is_stored_key none = false
is_stored_key (some t) = str_eq t "stored-key"

module _ {W : Type 0} (backend : Backend W) where
  -- The container, if the certificate is there, and the follow-on object as it was updated.
  unfoldable pub handle_task_result :
      CaResult → FollowOn → Order → OrderStatus → Exec W TaskError (Option String × FollowOn)
  unfolding update_result_follow_on
  handle_task_result result f order unavailable_status = elim result.status [
    | waiting_for_ca ↦ pure (
      none,
      update_result_follow_on order_status_request_pending invoke_cert_status_check_task
          result.retry_msec f,
    )
    | certificate_generated ↦ do
      container ← backend.save_secrets result order
      pure (
        some container,
        update_result_follow_on order_status_cert_generated no_action_required
            (pos retry_msec_default) f,
      )
    | client_data_issue_seen ↦ raise (client_data_issue result.status_message)
    | ca_unavailable_for_request ↦ do
      backend.notify_ca_unavailable order result
      pure (none, update_result_follow_on unavailable_status invoke_same_task error_retry_msec f)
    | invalid_operation_seen ↦ raise (invalid_operation result.status_message)
    | request_canceled ↦ raise (status_not_supported (status_text request_canceled))
    | other_status s ↦ raise (status_not_supported s)
  ]

  -- The plugin, and the id by which it knows the authority.
  unfoldable pub get_cert_plugin : Kwargs → Order → Exec W TaskError (String × Option String)
  get_cert_plugin barbican_meta order = elim (non_empty (dict_get "plugin_name" barbican_meta)) [
    | some n ↦ do plugin ← backend.get_plugin_by_name (some n); pure (plugin, none)
    | none ↦ do
      ca_id ← backend.get_ca_id order
      elim (non_empty ca_id) [
        | some i ↦ do
          ca ← backend.get_ca i
          plugin ← backend.get_plugin_by_name (some ca.plugin_name)
          pure (plugin, some ca.plugin_ca_id)
        | none ↦ do plugin ← backend.get_plugin order; pure (plugin, none)
      ]
  ]

  -- The request that a stored key needs, and the metadata that keeps it for a retry.
  unfoldable pub csr_for : Kwargs → Order → Exec W TaskError (Option String × Kwargs)
  csr_for barbican_meta order =
      if is_stored_key order.request_type
      then (elim (dict_get "generated_csr" barbican_meta) [
        | some csr ↦ pure (some csr, barbican_meta)
        | none ↦ do
          csr ← backend.generate_csr_from_private_key order
          pure (some csr, dict_set "generated_csr" csr barbican_meta)
      ])
      else pure (none, barbican_meta)

  unfoldable pub issue_certificate_request :
      Order → FollowOn → Exec W TaskError (Option String × FollowOn)
  unfolding handle_task_result get_cert_plugin csr_for
  issue_certificate_request order f = do
    plugin_meta ← backend.get_plugin_meta order
    barbican_meta ← backend.get_barbican_meta order
    backend.refresh_ca_table
    choice ← get_cert_plugin barbican_meta order
    csr ← csr_for (dict_set "plugin_name" choice.0 barbican_meta) order
    answer ← backend.plugin_issue choice.0 order plugin_meta choice.1 csr.0
    backend.save_plugin_metadata order answer.1
    backend.save_barbican_metadata order csr.1
    handle_task_result answer.0 f order order_status_ca_unavail_for_issue

  unfoldable pub check_certificate_request :
      Order → FollowOn → Exec W TaskError (Option String × FollowOn)
  unfolding handle_task_result
  check_certificate_request order f = do
    plugin_meta ← backend.get_plugin_meta order
    barbican_meta ← backend.get_barbican_meta order
    plugin ← backend.get_plugin_by_name (dict_get "plugin_name" barbican_meta)
    answer ← backend.plugin_check plugin order plugin_meta
    backend.save_plugin_metadata order answer.1
    handle_task_result answer.0 f order order_status_ca_unavail_for_check

  -- Not written yet: it always raises NotImplementedError.
  unfoldable pub modify_certificate_request : Order → Exec W TaskError Unit
  modify_certificate_request order = raise not_implemented
