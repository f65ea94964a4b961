-- ===== src/Admin/Toggle.antt =====
-- What the switch of the admin page says of the setting that the backend has saved.
use sensepro.Prelude.{◌≡◌, String, Bool, true, false, not, Option, none, some, List, arith}
use sensepro.Http.{Outcome, ok, err}
use sensepro.Admin.{
  Page, Fetched, load_end, take_status, qr_toggle_begin, qr_toggle_end, resolve_begin, resolve_end,
  resolve_role_begin, resolve_role_end, send_test_begin, send_test_end, send_digest_begin,
  send_digest_end,
}
use sensepro.Admin.Requests.{Failure, RoleRequestRow, RoleQueue}
use sensepro.Admin.Tables.{DeletionRequestRow}

-- The page, the value that the backend has saved, whether the page has had word of it, and the value of
-- the request in flight.
pub record System : Type 0 where
  pub page : Page
  pub saved : Bool
  pub known : Bool
  pub asked : Option Bool

-- The other handlers of the page.
pub data Handler : Type 0 where
  decides : String → Bool → Handler
  decided : Outcome (Unit {0}) Failure → Outcome (List DeletionRequestRow) String → Handler
  resolves : String → Bool → Option String → Handler
  resolved : Outcome RoleRequestRow Failure → Outcome RoleQueue Failure → Handler
  tests : String → Handler
  tested : Handler
  digests : Handler
  digested : Handler
  types : String → Handler

abbrev page_or : Page → Option (String × Page) → Page
page_or p none = p
page_or p (some (address, q)) = q

unfoldable pub handle : Handler → Page → Page
unfolding resolve_begin resolve_end resolve_role_begin resolve_role_end send_test_begin
    send_test_end send_digest_begin send_digest_end
handle (decides id approve) p = resolve_begin id approve p
handle (decided outcome again) p = resolve_end outcome again p
handle (resolves id approve role) p = resolve_role_begin id approve role p
handle (resolved outcome again) p = resolve_role_end outcome again p
handle (tests trimmed) p = page_or p (send_test_begin trimmed p)
handle tested p = send_test_end p
handle digests p = send_digest_begin p
handle digested p = send_digest_end p
handle (types email) p = record p { test_email = email }

-- The switch is pressed; the backend saves the value and its answer arrives, or refuses it, or saves it
-- and the answer is lost; another handler runs.
pub data Step (s : System) : System → Type 0 where
  pressed :
      {q : Page} (next : Bool)
      → qr_toggle_begin s.page ≡ some (next, q)
      → Step s (record s { page = q; asked = some next })
  saves :
      (next : Bool)
      → s.asked ≡ some next
      → Step s (record {
        page = qr_toggle_end next (ok tt) s.page;
        saved = next;
        known = true;
        asked = none;
      })
  refuses :
      (next : Bool) (f : Failure)
      → s.asked ≡ some next
      → Step s (record s { page = qr_toggle_end next (err f) s.page; asked = none })
  loses :
      (next : Bool) (f : Failure)
      → s.asked ≡ some next
      → Step s (record {
        page = qr_toggle_end next (err f) s.page;
        saved = next;
        known = false;
        asked = none;
      })
  handles : (h : Handler) → Step s (record s { page = handle h s.page })

-- The setting could be fetched when the page was opened, or could not.
pub data Reach : System → Type 0 where
  start :
      (f : Fetched) (p : Page) (saved : Bool)
      → f.qr ≡ ok saved
      → p.qr_toggling ≡ false
      → Reach (record { page = load_end f p; saved = saved; known = true; asked = none })
  start_unknown :
      (f : Fetched) (p : Page) (saved : Bool) (e : Failure)
      → f.qr ≡ err e
      → p.qr_toggling ≡ false
      → Reach (record { page = load_end f p; saved = saved; known = false; asked = none })
  later : {r s : System} → Reach r → Step r s → Reach s

-- At rest the switch can be pressed; in flight it shows the value that was asked for, and takes no press.
-- Where the page has word of the setting, it shows it at rest and asks for the other value.
abbrev pub Shown : System → Option Bool → Type 0
Shown s none = (s.page.qr_toggling ≡ false) × (s.known ≡ true → s.page.qr_enabled ≡ some s.saved)
Shown s (some next) =
    (s.page.qr_toggling ≡ true)
    × (s.page.qr_enabled ≡ some next)
    × (s.known ≡ true → next ≡ not s.saved)

handle-qr :
    (h : Handler) (p : Page)
    → ((handle h p).qr_enabled ≡ p.qr_enabled) × ((handle h p).qr_toggling ≡ p.qr_toggling)
unfolding handle
handle-qr (decides id approve) p = ground arith
handle-qr (decided (ok u) again) p = ground arith
handle-qr (decided (err e) again) p = ground arith
handle-qr (resolves id approve role) p = ground arith
handle-qr (resolved (ok r) again) p = ground arith
handle-qr (resolved (err e) (ok q)) p = ground arith
handle-qr (resolved (err e) (err f)) p = ground arith
handle-qr (tests trimmed) p = ground arith
handle-qr tested p = ground arith
handle-qr digests p = ground arith
handle-qr digested p = ground arith
handle-qr (types email) p = ground arith

Step-Shown : {r s : System} → Step r s → Shown r r.asked → Shown s s.asked
unfolding qr_toggle_begin qr_toggle_end
Step-Shown {r} (pressed next b) h = ground arith
Step-Shown {r} (saves next a) h = ground arith
Step-Shown {r} (refuses next f a) h = ground arith
Step-Shown {r} (loses next f a) h = ground arith
Step-Shown {r} (handles k) h = ground (arith, handle-qr k r.page)

-- However presses, answers, lost answers and the page's other handlers interleave: while a request is in flight
-- the switch shows the value that was asked for and takes no press, and at rest it can be pressed. As
-- long as the page has word of the setting, by the first fetch or by its last answered save, it
-- shows at rest what is saved, also after a refusal, and asks for the other value; nothing is said
-- of a setting whose fetch failed or whose save was not answered.
pub Reach-Shown : {s : System} → Reach s → Shown s s.asked
unfolding load_end take_status
Reach-Shown (start f p saved e t) = ground arith
Reach-Shown (start_unknown f p saved err_of e t) = ground arith
Reach-Shown (later r st) = Step-Shown st (Reach-Shown r)
