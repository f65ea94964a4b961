-- ===== src/Admin/Tables.antt =====
-- lib/data/live.ts, the tables of the admin page: devices with their status, consents, the audit log
-- and the queue of deletion requests. The queries and `Date.parse` are arguments.
use sensepro.Prelude.{
  ℕ, ◌-◌, ◌*◌, ◌≤◌, ◌<◌, ◌+◌, ◌≡◌, ◌↔◌, String, false, Option, none, some, List, map, leb, str_eq,
  if◌then◌else◌, get_or_default, arith,
}
use sensepro.Http.{Query, Outcome, ok, checked, ◌>>=◌}

pub data DeviceStatus : Type 0 where
  online idle offline : DeviceStatus

pub record DeviceRow : Type 0 where
  pub id : String
  pub label : String
  pub room : String
  pub last_seen : String
  pub status : DeviceStatus

-- A row of the devices table.
pub record Device : Type 0 where
  pub id : String
  pub label : String
  pub room : Option String
  pub last_seen_at : Option String

module _ (now : ℕ) (parse : String → ℕ) where
  -- The age is compared in milliseconds.
  unfoldable pub status_at : String → DeviceStatus
  status_at at =
      if leb (now - parse at) (30 * 1000)
      then online
      else if leb (now - parse at) (5 * 60 * 1000)
      then idle
      else offline

  unfoldable pub device_status : Option String → DeviceStatus
  unfolding status_at
  device_status none = offline
  device_status (some at) = if str_eq at "" then offline else status_at at

  unfoldable pub device_row : Device → DeviceRow
  unfolding device_status
  device_row d = record {
    id = d.id;
    label = d.label;
    room = get_or_default d.room "—";
    last_seen = get_or_default d.last_seen_at "";
    status = device_status d.last_seen_at;
  }

  unfoldable pub fetch_devices_live : Query (List Device) → Outcome (List DeviceRow) String
  unfolding device_row
  fetch_devices_live q = checked q >>= λ ds. ok (map device_row ds)

-- A device that was seen at a time is online for 30 s, idle until 5 minutes have passed, and offline
-- from then on.
pub device_status_lem :
    (now : ℕ) (parse : String → ℕ) (at : String)
    → str_eq at "" ≡ false
    → ((device_status now parse (some at) ≡ online) ↔ (now ≤ parse at + 30000))
      × ((device_status now parse (some at) ≡ idle)
          ↔ ((parse at + 30000 < now) × (now ≤ parse at + 300000)))
      × ((device_status now parse (some at) ≡ offline) ↔ (parse at + 300000 < now))
unfolding device_status status_at
device_status_lem now parse at h = ground arith

-- The joined student of a row.
pub record Named : Type 0 where
  pub reg_no : String
  pub full_name : String

abbrev pub name_of : Option Named → String
name_of none = "Unknown"
name_of (some n) = n.full_name

abbrev pub reg_no_of : Option Named → String
reg_no_of none = "—"
reg_no_of (some n) = n.reg_no

pub data ConsentStatus : Type 0 where
  active withdrawn : ConsentStatus

pub record ConsentRecord : Type 0 where
  pub student_id : String
  pub name : String
  pub reg_no : String
  pub version : String
  pub signed_at : String
  pub status : ConsentStatus

pub record ConsentJoinRow : Type 0 where
  pub student_id : String
  pub consent_version : String
  pub signed_at : String
  pub withdrawn_at : Option String
  pub students : Option Named

abbrev pub consent_status : Option String → ConsentStatus
consent_status none = active
consent_status (some at) = if str_eq at "" then active else withdrawn

unfoldable pub consent_record : ConsentJoinRow → ConsentRecord
consent_record c = record {
  student_id = c.student_id;
  name = name_of c.students;
  reg_no = reg_no_of c.students;
  version = c.consent_version;
  signed_at = c.signed_at;
  status = consent_status c.withdrawn_at;
}

unfoldable pub fetch_consents_live :
    Query (List ConsentJoinRow) → Outcome (List ConsentRecord) String
unfolding consent_record
fetch_consents_live q = checked q >>= λ cs. ok (map consent_record cs)

pub record AuditEntry : Type 0 where
  pub seq : ℕ
  pub ts : String
  pub actor : String
  pub action : String
  pub hash : String
  pub prev_hash : String

pub record AuditRow : Type 0 where
  pub seq : ℕ
  pub at : String
  pub actor : String
  pub action : String
  pub hash : String
  pub prev_hash : String

unfoldable pub audit_entry : AuditRow → AuditEntry
audit_entry a = record {
  seq = a.seq;
  ts = a.at;
  actor = a.actor;
  action = a.action;
  hash = a.hash;
  prev_hash = a.prev_hash;
}

unfoldable pub fetch_audit_live : Query (List AuditRow) → Outcome (List AuditEntry) String
unfolding audit_entry
fetch_audit_live q = checked q >>= λ rs. ok (map audit_entry rs)

pub data Decision : Type 0 where
  pending approved denied : Decision

pub record DeletionRequestRow : Type 0 where
  pub id : String
  pub student_id : String
  pub name : String
  pub reg_no : String
  pub requested_at : String
  pub status : Decision

pub record DeletionJoinRow : Type 0 where
  pub id : String
  pub student_id : String
  pub requested_at : String
  pub status : Decision
  pub students : Option Named

unfoldable pub deletion_row : DeletionJoinRow → DeletionRequestRow
deletion_row d = record {
  id = d.id;
  student_id = d.student_id;
  name = name_of d.students;
  reg_no = reg_no_of d.students;
  requested_at = d.requested_at;
  status = d.status;
}

unfoldable pub fetch_deletion_requests_live :
    Query (List DeletionJoinRow) → Outcome (List DeletionRequestRow) String
unfolding deletion_row
fetch_deletion_requests_live q = checked q >>= λ rs. ok (map deletion_row rs)
