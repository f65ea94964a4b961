-- ===== src/Admin.antt =====
-- routes/_shell.admin.tsx: the state of `AdminPage` and its handlers. A handler that awaits a request is
-- two functions, what it does before and what it does with the outcome.
pub mod Requests
pub mod Tables
pub mod Chain
pub mod Actions
pub mod Toggle
pub mod Pending
mod Tests
use sensepro.Prelude.{
  ℕ, ◌-◌, String, Bool, true, false, ◌||◌, not, Option, none, some, List, [], map, str_eq,
  if◌then◌else◌, get_or_default,
}
use sensepro.Http.{Outcome, ok, err}
use Requests.{
  Failure, Status, pending, approved, rejected, RoleRequestRow, RoleQueue, NotificationStatus,
}
use Tables.{DeviceRow, ConsentRecord, AuditEntry, Decision, DeletionRequestRow}

pub data Load : Type 0 where
  loading ready error : Load

pub record Page : Type 0 where
  pub load : Load
  pub devices : List DeviceRow
  pub consents : List ConsentRecord
  pub audit : List AuditEntry
  pub deletions : List DeletionRequestRow
  pub role_requests : List RoleRequestRow
  pub pending_role_count : ℕ
  pub sending_digest : Bool
  pub qr_enabled : Option Bool
  pub qr_toggling : Bool
  pub notify_status : Option NotificationStatus
  pub test_email : String
  pub sending_test : Bool

-- What the seven requests of the first effect come to.
pub record Fetched : Type 0 where
  pub devices : Outcome (List DeviceRow) String
  pub consents : Outcome (List ConsentRecord) String
  pub audit : Outcome (List AuditEntry) String
  pub deletions : Outcome (List DeletionRequestRow) String
  pub qr : Outcome Bool Failure
  pub notification : Outcome NotificationStatus Failure
  pub roles : Outcome RoleQueue Failure

-- `.catch(() => d)`.
abbrev pub or_caught {ℓ} : {A : Type ℓ} {E : Type 0} → Outcome A E → A → A
or_caught (ok a) d = a
or_caught (err e) d = d

abbrev pub no_requests : RoleQueue
no_requests = record { items = []; pending_count = 0 }

unfoldable pub take_status : Outcome NotificationStatus Failure → Page → Page
take_status (err e) p = p
take_status (ok s) p = record p {
  notify_status = some s;
  test_email = if str_eq s.admin_notify_email "" then p.test_email else s.admin_notify_email;
}

-- The first effect, once its requests have come back.
unfoldable pub load_end : Fetched → Page → Page
unfolding take_status
load_end f p = take_status f.notification (record p {
  devices = or_caught f.devices [];
  consents = or_caught f.consents [];
  audit = or_caught f.audit [];
  deletions = or_caught f.deletions [];
  qr_enabled = some (or_caught f.qr true);
  role_requests = (or_caught f.roles no_requests).items;
  pending_role_count = (or_caught f.roles no_requests).pending_count;
  load = ready;
})

-- `handleQrToggle`: the value that it sends, and the page that shows it already.
unfoldable pub qr_toggle_begin : Page → Option (Bool × Page)
qr_toggle_begin p = elim p.qr_enabled [
  | none ↦ none
  | some on ↦
      if p.qr_toggling
      then none
      else some (not on, record p { qr_toggling = true; qr_enabled = some (not on) })
]

unfoldable pub qr_toggle_end : Bool → Outcome (Unit {0}) Failure → Page → Page
qr_toggle_end next (ok _) p = record p { qr_toggling = false }
qr_toggle_end next (err e) p = record p { qr_enabled = some (not next); qr_toggling = false }

-- `handleResolve`.
unfoldable pub decide : String → Bool → DeletionRequestRow → DeletionRequestRow
decide id approve r =
    if str_eq r.id id
    then record r { status = if approve then Decision.approved else Decision.denied }
    else r

unfoldable pub resolve_begin : String → Bool → Page → Page
unfolding decide
resolve_begin id approve p = record p { deletions = map (decide id approve) p.deletions }

-- After an error the queue is fetched again; the last argument is what that comes to.
unfoldable pub resolve_end :
    Outcome (Unit {0}) Failure → Outcome (List DeletionRequestRow) String → Page → Page
resolve_end (ok _) again p = p
resolve_end (err e) again p = record p { deletions = or_caught again p.deletions }

-- `handleResolveRole`; its role is missing when the request is rejected.
unfoldable pub assign : String → Bool → Option String → RoleRequestRow → RoleRequestRow
assign id approve role r =
    if str_eq r.id id
    then record r {
      status = if approve then approved else rejected;
      resolved_role = some (get_or_default role r.requested_role);
    }
    else r

unfoldable pub resolve_role_begin : String → Bool → Option String → Page → Page
unfolding assign
resolve_role_begin id approve role p = record p {
  role_requests = map (assign id approve role) p.role_requests;
  pending_role_count = p.pending_role_count - 1;
}

unfoldable pub resolve_role_end :
    Outcome RoleRequestRow Failure → Outcome RoleQueue Failure → Page → Page
resolve_role_end (ok _) again p = p
resolve_role_end (err e) (ok q) p = record p {
  role_requests = q.items;
  pending_role_count = q.pending_count;
}
resolve_role_end (err e) (err f) p = p

-- `handleSendTest`, given `testEmail.trim()`: the address that it sends to.
unfoldable pub send_test_begin : String → Page → Option (String × Page)
send_test_begin trimmed p =
    if str_eq trimmed "" || p.sending_test
    then none
    else some (trimmed, record p { sending_test = true })

unfoldable pub send_test_end : Page → Page
send_test_end p = record p { sending_test = false }

-- `handleSendRoleDigest`.
unfoldable pub send_digest_begin : Page → Page
send_digest_begin p = record p { sending_digest = true }

unfoldable pub send_digest_end : Page → Page
send_digest_end p = record p { sending_digest = false }
