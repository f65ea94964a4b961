-- ===== src/NoRole.antt =====
-- routes/no-role.tsx: the page of a user without a role, who asks for one. The answers of Clerk and of the
-- backend are arguments.
mod Tests
pub mod Granted
use sensepro.Prelude.{
  String, Bool, true, false, not, ◌&&◌, Option, none, some, str_eq, if◌then◌else◌, is_some,
}
use sensepro.Http.{Outcome, ok, err}
use sensepro.Auth.Roles.{or_else, truthy}
use sensepro.Auth.Resolve.{ClerkUser}
use sensepro.Auth.SelfRole.{existing_role, with_role}
use sensepro.Admin.Requests.{RoleRequestRow, Status, approved, Failure}

pub record Page : Type 0 where
  pub user : Option ClerkUser
  pub existing : Option RoleRequestRow
  pub loading_status : Bool
  pub selected_role : String
  pub submitting : Bool
  pub refreshing : Bool
  pub at : Option String  -- the page that was last navigated to

-- The page of a role; another text is no role and goes nowhere.
unfoldable pub role_page : String → Option String
role_page role =
    if str_eq role "teacher"
    then some "/teacher"
    else if str_eq role "management"
    then some "/management"
    else if str_eq role "admin"
    then some "/admin"
    else if str_eq role "student"
    then some "/me"
    else none

abbrev landed : Option String → Option String → Option String
landed none at = at
landed (some to) at = some to

unfoldable pub go_to : String → Page → Page
go_to role p = record p { at = landed (role_page role) p.at }

abbrev pub current_role : Option ClerkUser → Option String
current_role none = none
current_role (some u) = existing_role u

abbrev pub is_approved : Status → Bool
is_approved approved = true
is_approved _ = false

-- The role of an approved request, `req.resolved_role || req.requested_role`.
unfoldable pub approved_role_of : Option RoleRequestRow → Option String
approved_role_of none = none
approved_role_of (some req) =
    if is_approved req.status then or_else req.resolved_role (some req.requested_role) else none

abbrev saved_user : String → Bool → Option ClerkUser → Option ClerkUser
saved_user role accepted none = none
saved_user role accepted (some u) = if accepted then some (with_role role u) else some u

-- `user.update`, whose failure is ignored, and the navigation.
unfoldable pub grant : String → Bool → Page → Page
unfolding go_to
grant role accepted p = go_to role (record p { user = saved_user role accepted p.user })

-- The effect before its request: the page, and whether it asks for the request's status.
abbrev status_for : Option String → Bool → Page → Page × Bool
status_for none signed_in p = (p, signed_in)
status_for (some role) signed_in p = (go_to role p, false)

unfoldable pub status_begin : Bool → Page → Page × Bool
unfolding go_to
status_begin signed_in p = status_for (current_role p.user) signed_in p

abbrev requested_of : Option RoleRequestRow → String → String
requested_of none role = role
requested_of (some req) role = if str_eq req.requested_role "" then role else req.requested_role

abbrev status_shown : Option RoleRequestRow → Option String → Bool → Page → Page
status_shown req (some role) accepted p = grant role accepted (record p { existing = req })
status_shown req none accepted p = record p {
  existing = req;
  selected_role = requested_of req p.selected_role;
  loading_status = false;
}

-- The effect after its request, on a mounted page; `accepted` is whether Clerk takes the update.
unfoldable pub status_end : Outcome (Option RoleRequestRow) Failure → Bool → Page → Page
unfolding approved_role_of grant
status_end (ok req) accepted p = status_shown req (approved_role_of req) accepted p
status_end (err e) accepted p = record p { loading_status = false }

-- `handleQuickActivate`, before and after its update.
unfoldable pub activate_begin : Page → Page
activate_begin p = if is_some p.user then record p { submitting = true } else p

unfoldable pub activate_end : String → Bool → Page → Page
unfolding grant
activate_end role accepted p =
    if accepted
    then record (grant role true p) { submitting = false }
    else record p { submitting = false }

-- `handleRefreshStatus` before its first call.
unfoldable pub refresh_begin : Page → Page
refresh_begin p = if is_some p.user then record p { refreshing = true } else p

abbrev refresh_for : Option String → Page → Page × Bool
refresh_for none p = (p, true)
refresh_for (some role) p = (record (go_to role p) { refreshing = false }, false)

-- After `user.reload`: the page, and whether it asks for the request's status.
unfoldable pub refresh_reloaded : Outcome ClerkUser Failure → Page → Page × Bool
unfolding go_to
refresh_reloaded (ok u) p = refresh_for (existing_role u) (record p { user = some u })
refresh_reloaded (err e) p = (record p { refreshing = false }, false)

abbrev refresh_shown : Option RoleRequestRow → Option String → Bool → Page → Page
refresh_shown req (some role) accepted p =
    record (grant role accepted (record p { existing = req })) { refreshing = false }
refresh_shown req none accepted p = record p { existing = req; refreshing = false }

unfoldable pub refresh_end : Outcome (Option RoleRequestRow) Failure → Bool → Page → Page
unfolding approved_role_of grant
refresh_end (ok req) accepted p = refresh_shown req (approved_role_of req) accepted p
refresh_end (err e) accepted p = record p { refreshing = false }

-- `handleSubmit`, before its request for the user's address, and after it.
unfoldable pub submit_begin : String → Page → Option Page
submit_begin email p = if str_eq email "" then none else some (record p { submitting = true })

unfoldable pub submit_end : Outcome RoleRequestRow Failure → Page → Page
submit_end (ok req) p = record p { existing = some req; submitting = false }
submit_end (err e) p = record p { submitting = false }
