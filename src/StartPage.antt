-- ===== src/StartPage.antt =====
-- routes/_shell.start.tsx: `launch` of the start wizard. `trim` is the browser's: the texts of the form
-- are given trimmed. The reply of the backend is an argument.
mod Tests
use sensepro.Prelude.{
  ℕ, ◌≡◌, refl, ◌↔◌, String, Bool, true, false, not, ◌||◌, ◌&&◌, Option, none, some, str_eq,
  if◌then◌else◌, arith, is_some,
}
use sensepro.Http.{Reply, replied, refused, thrown, is_replied}
use sensepro.Capture.Types.{SessionMode, lecture, exam, workshop}
use sensepro.Capture.Starting.{is_lecture}

pub record Form : Type 0 where
  pub mode : SessionMode
  pub section : String
  pub title : String
  pub room : String

-- The query of the address that opens the capture page.
pub record Query : Type 0 where
  pub mode : SessionMode
  pub title : String
  pub section : String
  pub room : Option String
  pub session_id : Option String

-- What the page says, in order of the source's toasts.
pub data Notice : Type 0 where
  enter_section needs_backend retries_later : Notice
  not_created not_persisted : ℕ → Option String → Notice

-- How a launch ends: the query with which the capture page is opened, if it is, and the notices.
pub record Launch : Type 0 where
  pub opened : Option Query
  pub busy : Bool
  pub refused_with : Option Notice
  pub retries : Bool

unfoldable pub subject_of : Form → String
subject_of f =
    if not (str_eq f.title "")
    then f.title
    else (elim f.mode [ lecture ↦ "Lecture" | exam ↦ "Examination" | workshop ↦ "Workshop" ])

abbrev non_empty : String → Option String
non_empty s = if str_eq s "" then none else some s

abbrev id_of : Option String → Option String
id_of none = none
id_of (some id) = non_empty id

unfoldable pub open_capture : Form → Option String → Option Notice → Launch
unfolding subject_of
open_capture f id notice = record {
  opened = some (record {
    mode = f.mode;
    title = subject_of f;
    section = f.section;
    room = non_empty f.room;
    session_id = id_of id;
  });
  busy = true;
  refused_with = notice;
  retries = not (is_some (id_of id));
}

unfoldable pub stay : Notice → Launch
stay n = record { opened = none; busy = false; refused_with = some n; retries = false }

-- After the request for the session's record.
unfoldable pub launched : Form → Reply String → Launch
unfolding open_capture stay
launched f (replied id) = open_capture f (some id) none
launched f (refused status detail) =
    if is_lecture f.mode
    then open_capture f none (some (not_persisted status detail))
    else stay (not_created status detail)
launched f (thrown e) = if is_lecture f.mode then open_capture f none none else stay needs_backend

unfoldable pub launch : Form → Reply String → Launch
unfolding launched stay
launch f reply = if str_eq f.section "" then stay enter_section else launched f reply

abbrev pub session_of : Option Query → Option String
session_of none = none
session_of (some q) = q.session_id

-- The session that a reply names.
abbrev pub answered_id : Reply String → Option String
answered_id (replied id) = non_empty id
answered_id _ = none

-- The wizard opens the capture page exactly for a form with a section whose session is a lecture or was
-- answered by the backend; the form stays busy exactly where the page opens. With a section, the page
-- carries exactly the session id that the backend answered, an empty id counting as none.
pub launch-opened_iff :
    (f : Form) (reply : Reply String)
    → ((is_some (launch f reply).opened ≡ true)
        ↔ ((str_eq f.section "" ≡ false) × (is_lecture f.mode || is_replied reply ≡ true)))
      × ((launch f reply).busy ≡ is_some (launch f reply).opened)
      × (str_eq f.section "" ≡ false → session_of (launch f reply).opened ≡ answered_id reply)
unfolding launch launched open_capture stay
launch-opened_iff f (replied id) = ground arith
launch-opened_iff f (refused status detail) = ground arith
launch-opened_iff f (thrown e) = ground arith
