-- ===== src/Capture/Messages/Modes.antt =====
-- What each mode of the capture page leaves alone: a workshop the roster, the attendance and the exam events,
-- an exam the attendance, a lecture the exam events; and attendance only grows.
use sensepro.Prelude.{ℕ, ◌≡◌, refl, String, true, Option, none, some, List, arith}
use sensepro.Prelude.Dict.{Dict}
use sensepro.Prelude.Upsert.{contains, contains-add_all}
use sensepro.Capture.Types.{SessionMode, lecture, exam, workshop, Box, WsPresent, NameEntry}
use sensepro.Capture.Roster.{merge_attended}
use sensepro.Capture.Messages.{
  see_lecture, see_exam, see_present, see_attended, see_frame, answered, handle_message,
}
use sensepro.Capture.Page.{Page, Message, session_ended, error, result, other}

module _ (interpolate : Box → Box → ℕ → Box) (names : Dict NameEntry) (clock now : ℕ) where
  abbrev pub after : SessionMode → Message → Page → Page
  after mode msg p = (handle_message interpolate names mode clock now msg p).0

  -- In a workshop no message changes the present rows, the first-seen times, the roster, the attended set, the
  -- toasts, the live exam state or the log of exam events; the tracks of the faces follow every
  -- result in a workshop too.
  pub handle_message-workshop :
      (msg : Message) (p : Page)
      → let q = after workshop msg p in
        (q.rows ≡ p.rows)
        × (q.first_seen ≡ p.first_seen)
        × (q.roster ≡ p.roster)
        × (q.attended ≡ p.attended)
        × (q.toasts ≡ p.toasts)
        × (q.proctor_flags ≡ p.proctor_flags)
        × (q.proctor_live ≡ p.proctor_live)
  unfolding handle_message
  handle_message-workshop (session_ended persisted warning window) p = ground arith
  handle_message-workshop (error fatal detail) p = ground arith
  handle_message-workshop (result msg) p = ground arith
  handle_message-workshop other p = ground arith

  -- In an exam no message changes the present rows, the first-seen times or the attended set;
  -- in a lecture none changes the exam mode, the detections, the live exam state or the log of
  -- exam events.
  pub handle_message-separate :
      (msg : Message) (p : Page)
      → let e = after exam msg p in
        let l = after lecture msg p in
        (e.rows ≡ p.rows)
        × (e.first_seen ≡ p.first_seen)
        × (e.attended ≡ p.attended)
        × (l.exam_mode ≡ p.exam_mode)
        × (l.dets ≡ p.dets)
        × (l.proctor_live ≡ p.proctor_live)
        × (l.proctor_flags ≡ p.proctor_flags)
  unfolding handle_message see_exam see_lecture
  handle_message-separate (session_ended persisted warning window) p = ground arith
  handle_message-separate (error fatal detail) p = ground arith
  handle_message-separate (result msg) p = ground arith
  handle_message-separate other p = ground arith

  see_present-attended :
      (o : Option (List WsPresent)) (p : Page)
      → (see_present names clock now o p).attended ≡ p.attended
  see_present-attended none p = refl
  see_present-attended (some ps) p = refl

  see_attended-attended :
      (o : Option (List String)) (p : Page) (id : String)
      → contains p.attended id ≡ true
      → contains (see_attended names clock now o p).attended id ≡ true
  unfolding merge_attended
  see_attended-attended none p id h = h
  see_attended-attended (some ids) p id h = ground (arith, contains-add_all id ids p.attended)

  -- Whoever is on the attended set stays on it, whatever message arrives in whatever mode.
  pub handle_message-attended :
      (mode : SessionMode) (msg : Message) (p : Page) (id : String)
      → contains p.attended id ≡ true
      → contains (after mode msg p).attended id ≡ true
  unfolding handle_message see_lecture see_exam
  handle_message-attended mode (session_ended persisted warning window) p id h = ground arith
  handle_message-attended mode (error fatal detail) p id h = ground arith
  handle_message-attended lecture (result msg) p id h =
      let q =
        see_present names clock now msg.present (see_frame interpolate now msg (answered p)) in
      see_attended-attended msg.attended q id
        (rw (see_present-attended msg.present (see_frame interpolate now msg (answered p))) h)
  handle_message-attended exam (result msg) p id h = ground arith
  handle_message-attended workshop (result msg) p id h = h
  handle_message-attended mode other p id h = h
