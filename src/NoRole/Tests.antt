-- ===== src/NoRole/Tests.antt =====
-- A newcomer whose request for the teacher's role was approved as management.
use sensepro.Prelude.{◌≡◌, refl, true, false, none, some}
use sensepro.Auth.Resolve.{ClerkUser, Browser}
use sensepro.Admin.Requests.{RoleRequestRow, approved}
use sensepro.NoRole.{Page, approved_role_of}

abbrev newcomer : ClerkUser
newcomer = record { id = some "u1"; email = some "t@x"; public_role = none; unsafe_role = none }

abbrev browser : Browser
browser = record {
  has_window = true;
  clerk_at = λ _. none;
  dev = false;
  role_request = λ _ _. none;
  session = none;
  parse_claims = λ _. none;
  location = "/no-role";
}

abbrev decided : RoleRequestRow
decided = record {
  id = "r1";
  user_id = "u1";
  email = "t@x";
  full_name = none;
  requested_role = "teacher";
  reason = none;
  status = approved;
  created_at = "t";
  resolved_at = none;
  resolved_by = none;
  resolved_role = some "management";
}

abbrev waiting : Page
waiting = record {
  user = some newcomer;
  existing = none;
  loading_status = true;
  selected_role = "teacher";
  submitting = false;
  refreshing = false;
  at = none;
}

decided_role : approved_role_of (some decided) ≡ some "management"
unfolding approved_role_of
decided_role = refl
