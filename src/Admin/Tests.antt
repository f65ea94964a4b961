-- ===== src/Admin/Tests.antt =====
-- The admin page on a few rows.
use sensepro.Prelude.{refl, ℕ, String, true, false, none, some, List, [], ◌∷◌}
use sensepro.Http.{ok, err}
use sensepro.Admin.{
  Page, Fetched, loading, load_end, take_status, qr_toggle_begin, qr_toggle_end, resolve_role_begin,
}
use sensepro.Admin.Requests.{exception, pending, RoleRequestRow, RoleQueue}
use sensepro.Admin.Tables.{AuditEntry}
use sensepro.Admin.Actions.{Buttons}
use sensepro.Admin.Toggle
use sensepro.Admin.Pending

abbrev seen_at_0 : String → ℕ
seen_at_0 at = 0

abbrev entry : ℕ → String → String → AuditEntry
entry seq hash prev_hash = record {
  seq = seq;
  ts = "t";
  actor = "a";
  action = "x";
  hash = hash;
  prev_hash = prev_hash;
}

abbrev entries : List AuditEntry
entries = entry 2 "h2" "h1" ∷ entry 1 "h1" "h0" ∷ []

abbrev quiet : Buttons
quiet = record { confirming = false; busy = false }

abbrev request : String → RoleRequestRow
request id = record {
  id = id;
  user_id = "u";
  email = "e";
  full_name = none;
  requested_role = "teacher";
  reason = none;
  status = pending;
  created_at = "t";
  resolved_at = none;
  resolved_by = none;
  resolved_role = none;
}

abbrev queue : RoleQueue
queue = record { items = request "r1" ∷ request "r2" ∷ []; pending_count = 3 }

abbrev fetched : Fetched
fetched = record {
  devices = ok [];
  consents = ok [];
  audit = ok [];
  deletions = err "no table";
  qr = ok true;
  notification = err (exception "down");
  roles = ok queue;
}

abbrev opening : Page
opening = record {
  load = loading;
  devices = [];
  consents = [];
  audit = [];
  deletions = [];
  role_requests = [];
  pending_role_count = 0;
  sending_digest = false;
  qr_enabled = none;
  qr_toggling = false;
  notify_status = none;
  test_email = "";
  sending_test = false;
}

abbrev opened : Page
opened = load_end fetched opening

-- The backend has a third pending request, which its answer does not list.
abbrev opened_system : Pending.System
opened_system = record { page = opened; left_out = 1 }

abbrev resolved_system : Pending.System
resolved_system = record { page = resolve_role_begin "r2" true none opened; left_out = 1 }

opened-Reach : Pending.Reach opened_system
opened-Reach = Pending.start fetched opening 1 (refl, (refl, (refl, tt)))

resolved-Reach : Pending.Reach resolved_system
unfolding load_end take_status
resolved-Reach = Pending.later opened-Reach (Pending.resolves "r2" true none refl)

Reach-Counted_example : Pending.Counted resolved_system
Reach-Counted_example = Pending.Reach-Counted resolved-Reach

-- Switched off, which the backend refuses.
abbrev refused_page : Page
refused_page =
    qr_toggle_end false (err (exception "offline"))
      (record opened { qr_toggling = true; qr_enabled = some false })

abbrev refused : Toggle.System
refused = record { page = refused_page; saved = true; known = true; asked = none }

refused-Reach : Toggle.Reach refused
unfolding load_end take_status qr_toggle_begin
refused-Reach =
    Toggle.later
      (Toggle.later (Toggle.start fetched opening true refl refl) (Toggle.pressed false refl))
      (Toggle.refuses false (exception "offline") refl)

Reach-Shown_example : Toggle.Shown refused none
Reach-Shown_example = Toggle.Reach-Shown refused-Reach
