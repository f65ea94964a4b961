-- ===== src/Capture/Messages/Caps.antt =====
-- The bounds of what the page accumulates: four toasts and fifty exam events.
use sensepro.Prelude.{
  ℕ, ◌≤◌, ◌≡◌, refl, ◌∙◌, Bool-cases, inl, inr, String, Option, none, some, List, [], ◌∷◌, arith,
  length, take, length-take-le, str_eq,
}
use sensepro.Prelude.Dict.{Dict}
use sensepro.Capture.Types.{
  SessionMode, lecture, exam, workshop, Box, WsResult, NameEntry, Toast, WsTransition,
  WsProctorFlag, ProctorAlert, Kind, WsPresent, WsProctor, candidate_event,
}
use sensepro.Capture.Roster.{push_toast}
use sensepro.Capture.Messages.{
  see_lecture, see_exam, show_transitions, log_flags, handle_message, transition_toast,
  transition_name, transition_kind, name_of, kind_toast, see_present, see_attended, see_candidates,
  see_proctor, see_frame, answered,
}
use sensepro.Capture.Page.{Page, Message, session_ended, error, result, other}

length-push_toast : (ts : List Toast) (t : Toast) → length (push_toast ts t) ≤ 4
unfolding push_toast
length-push_toast [] t = omega arith
length-push_toast (a ∷ []) t = omega arith
length-push_toast (a ∷ b ∷ []) t = omega arith
length-push_toast (a ∷ b ∷ c ∷ []) t = omega arith
length-push_toast (a ∷ b ∷ c ∷ d ∷ rest) t = length-push_toast (b ∷ c ∷ d ∷ rest) t

length-transition_toast :
    (name : String) (k : Option Kind) (ts : List Toast)
    → length ts ≤ 4
    → length (transition_toast name k ts) ≤ 4
length-transition_toast name none ts h = h
length-transition_toast name (some k) ts h = elim (Bool-cases (str_eq name "")) [
  | inl e ↦ rw e h
  | inr e ↦ rw e (length-push_toast ts (kind_toast name k))
]

length-show_transitions :
    (names : Dict NameEntry) (us : List WsTransition) (ts : List Toast)
    → length ts ≤ 4
    → length (show_transitions names us ts) ≤ 4
unfolding show_transitions
length-show_transitions names [] ts h = h
length-show_transitions names (u ∷ us) ts h =
    length-show_transitions names us
      (transition_toast (transition_name names u) (transition_kind u) ts)
      (length-transition_toast (transition_name names u) (transition_kind u) ts h)

log_flags_caps :
    (names : Dict NameEntry) (now : ℕ) (fs : List WsProctorFlag) (log : List ProctorAlert)
    (ts : List Toast)
    → length log ≤ 50
    → length ts ≤ 4
    → (length (log_flags names now fs log ts).0 ≤ 50)
      × (length (log_flags names now fs log ts).1 ≤ 4)
unfolding log_flags
log_flags_caps names now [] log ts h k = (h, k)
log_flags_caps names now (f ∷ fs) log ts h k =
    let name = name_of names f.student_id in
    log_flags_caps names now fs (record { type = f.flag_type; name = name; ts = now } ∷ take 49 log)
      (push_toast ts (candidate_event f.flag_type name)) (omega (arith, length-take-le 49 log))
      (length-push_toast ts (candidate_event f.flag_type name))

pub record IsCapped (p : Page) : Type 0 where
  pub few_toasts : length p.toasts ≤ 4
  pub few_flags : length p.proctor_flags ≤ 50

module _ (names : Dict NameEntry) (clock now : ℕ) where
  see_present-toasts :
      (o : Option (List WsPresent)) (p : Page)
      → ((see_present names clock now o p).toasts ≡ p.toasts)
        × ((see_present names clock now o p).proctor_flags ≡ p.proctor_flags)
  see_present-toasts none p = (refl, refl)
  see_present-toasts (some ps) p = (refl, refl)

  see_attended-toasts :
      (o : Option (List String)) (p : Page)
      → ((see_attended names clock now o p).toasts ≡ p.toasts)
        × ((see_attended names clock now o p).proctor_flags ≡ p.proctor_flags)
  see_attended-toasts none p = (refl, refl)
  see_attended-toasts (some ids) p = (refl, refl)

  see_lecture-IsCapped :
      (msg : WsResult) (p : Page) → IsCapped p → IsCapped (see_lecture names clock now msg p)
  unfolding see_lecture
  see_lecture-IsCapped msg p h =
      let q = see_present names clock now msg.present p in
      let (t₁, f₁) = see_present-toasts msg.present p in
      let (t₂, f₂) = see_attended-toasts msg.attended q in
      record {
        few_toasts =
            length-show_transitions names msg.transitions
              (see_attended names clock now msg.attended q).toasts (rw (t₂ ∙ t₁) h.few_toasts);
        few_flags = rw (f₂ ∙ f₁) h.few_flags;
      }

  see_proctor-IsCapped :
      (o : Option WsProctor) (p : Page) → IsCapped p → IsCapped (see_proctor names clock now o p)
  see_proctor-IsCapped none p h = h
  see_proctor-IsCapped (some w) p h =
      let (f, t) =
        log_flags_caps names clock w.flags p.proctor_flags p.toasts h.few_flags h.few_toasts in
      record { few_toasts = t; few_flags = f }

-- No message makes the page hold more than four toasts or more than fifty exam events.
pub handle_message-IsCapped :
    (interpolate : Box → Box → ℕ → Box) (names : Dict NameEntry) (mode : SessionMode)
    (clock now : ℕ) (msg : Message) (p : Page)
    → IsCapped p
    → IsCapped (handle_message interpolate names mode clock now msg p).0
unfolding handle_message see_exam
handle_message-IsCapped i names mode clock now (session_ended persisted warning window) p h =
    ground arith
handle_message-IsCapped i names mode clock now (error fatal detail) p h = ground arith
handle_message-IsCapped i names lecture clock now (result msg) p h =
    see_lecture-IsCapped names clock now msg (see_frame i now msg (answered p))
      (record { few_toasts = h.few_toasts; few_flags = h.few_flags })
handle_message-IsCapped i names exam clock now (result msg) p h =
    see_proctor-IsCapped names clock now msg.proctor
      (see_candidates names clock now msg (see_frame i now msg (answered p)))
      (record { few_toasts = h.few_toasts; few_flags = h.few_flags })
handle_message-IsCapped i names workshop clock now (result msg) p h = ground arith
handle_message-IsCapped i names mode clock now other p h = h
