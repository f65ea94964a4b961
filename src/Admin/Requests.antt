-- ===== src/Admin/Requests.antt =====
-- The requests of the admin page: lib/data/role-requests.ts, lib/data/settings.ts,
-- lib/data/deletion.ts and lib/data/notify.ts. A reply of the backend is an argument.
use sensepro.Prelude.{ℕ, String, Bool, Option, none, some, List, str_eq, if◌then◌else◌}
use sensepro.Http.{Reply, replied, refused, thrown, Outcome, ok, err}

-- What a request throws: the detail of the reply, a sentence with its status, or the exception.
pub data Failure : Type 0 where
  detail : String → Failure
  with_status : String → ℕ → Option String → Failure
  exception : String → Failure

pub data Status : Type 0 where
  pending approved rejected : Status

pub record RoleRequestRow : Type 0 where
  pub id : String
  pub user_id : String
  pub email : String
  pub full_name : Option String
  pub requested_role : String
  pub reason : Option String
  pub status : Status
  pub created_at : String
  pub resolved_at : Option String
  pub resolved_by : Option String
  pub resolved_role : Option String

pub record RoleQueue : Type 0 where
  pub items : List RoleRequestRow
  pub pending_count : ℕ

-- `if (!res.ok) throw new Error(body.detail ?? `… (${res.status})`); return res.json()`.
unfoldable pub or_detail {ℓ} : {A : Type ℓ} → String → Reply A → Outcome A Failure
or_detail what (replied a) = ok a
or_detail what (refused status (some d)) = err (detail d)
or_detail what (refused status none) = err (with_status what status none)
or_detail what (thrown e) = err (exception e)

-- `throw new Error(`… (${res.status})${detail ? `: ${detail}` : ""}`)`; the body is not read.
unfoldable pub or_text {ℓ} : {A : Type ℓ} → String → Reply A → Outcome A Failure
or_text what (replied a) = ok a
or_text what (refused status none) = err (with_status what status none)
or_text what (refused status (some d)) =
    err (with_status what status (if str_eq d "" then none else some d))
or_text what (thrown e) = err (exception e)

unfoldable pub submit_role_request {ℓ} : {A : Type ℓ} → Reply A → Outcome A Failure
unfolding or_detail
submit_role_request reply = or_detail "Submit failed" reply

-- `if (!res.ok) return null; return data.request ?? null`.
unfoldable pub request_or_null {ℓ} : {A : Type ℓ} → Reply (Option A) → Outcome (Option A) Failure
request_or_null (replied a) = ok a
request_or_null (refused _ _) = ok none
request_or_null (thrown e) = err (exception e)

unfoldable pub fetch_my_role_request_status :
    Reply (Option RoleRequestRow) → Outcome (Option RoleRequestRow) Failure
unfolding request_or_null
fetch_my_role_request_status reply = request_or_null reply

unfoldable pub fetch_admin_role_requests : Reply RoleQueue → Outcome RoleQueue Failure
unfolding or_detail
fetch_admin_role_requests reply = or_detail "Fetch role requests failed" reply

unfoldable pub resolve_admin_role_request : Reply RoleRequestRow → Outcome RoleRequestRow Failure
unfolding or_detail
resolve_admin_role_request reply = or_detail "Resolve failed" reply

unfoldable pub send_admin_role_digest {ℓ} : {A : Type ℓ} → Reply A → Outcome A Failure
unfolding or_detail
send_admin_role_digest reply = or_detail "Send digest failed" reply

-- The value of a setting, as a Boolean; the detail of a refusal is not read.
unfoldable pub fetch_setting : Reply Bool → Outcome Bool Failure
fetch_setting (replied value) = ok value
fetch_setting (refused status _) = err (with_status "Could not load setting" status none)
fetch_setting (thrown e) = err (exception e)

unfoldable pub update_setting : Reply (Unit {0}) → Outcome (Unit {0}) Failure
unfolding or_text
update_setting reply = or_text "Update failed" reply

pub record MyDeletionRequest : Type 0 where
  pub id : String
  pub status : String
  pub requested_at : String
  pub resolved_at : Option String

unfoldable pub request_my_deletion : Reply MyDeletionRequest → Outcome MyDeletionRequest Failure
unfolding or_text
request_my_deletion reply = or_text "Deletion request failed" reply

unfoldable pub fetch_my_deletion_request :
    Reply (Option MyDeletionRequest) → Outcome (Option MyDeletionRequest) Failure
unfolding request_or_null
fetch_my_deletion_request reply = request_or_null reply

unfoldable pub resolve_deletion_request : Reply (Unit {0}) → Outcome (Unit {0}) Failure
unfolding or_text
resolve_deletion_request reply = or_text "Resolve failed" reply

pub record NotificationStatus : Type 0 where
  pub configured : Bool
  pub provider : String
  pub from_email : String
  pub admin_notify_email : String

unfoldable pub fetch_notification_status :
    Reply NotificationStatus → Outcome NotificationStatus Failure
fetch_notification_status (replied s) = ok s
fetch_notification_status (refused status _) =
    err (with_status "Failed to fetch notification status" status none)
fetch_notification_status (thrown e) = err (exception e)

-- `throw new Error(err.detail || "…")`.
unfoldable pub or_sentence {ℓ} : {A : Type ℓ} → String → Reply A → Outcome A Failure
or_sentence what (replied a) = ok a
or_sentence what (refused status none) = err (detail what)
or_sentence what (refused status (some d)) = err (detail (if str_eq d "" then what else d))
or_sentence what (thrown e) = err (exception e)

unfoldable pub send_test_notification {ℓ} : {A : Type ℓ} → Reply A → Outcome A Failure
unfolding or_sentence
send_test_notification reply = or_sentence "Failed to send test email" reply

unfoldable pub send_session_summary_notification {ℓ} : {A : Type ℓ} → Reply A → Outcome A Failure
unfolding or_sentence
send_session_summary_notification reply = or_sentence "Failed to send session summary email" reply
