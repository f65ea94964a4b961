-- ===== src/MePage/Deletion.antt =====
-- The request for deletion of routes/_shell.me.tsx: what it takes to send it, and what its notice means.
use sensepro.Prelude.{ℕ, suc, ◌≡◌, refl, Bool, true, false, none, some, if◌then◌else◌, arith}
use sensepro.Http.{Outcome, ok, err}
use sensepro.MyAttendance.{MyAttendanceResult}
use sensepro.Admin.Requests.{MyDeletionRequest, Failure}
use sensepro.MePage.{
  Page, loading, ask, step_one, step_two, panel_of, load_end, deletion_answered, delete_begin,
  delete_end, check_begin, check_end,
}

-- The page, the requests for deletion on their way, and whether the backend has ever accepted one.
pub record System : Type 0 where
  pub page : Page
  pub on_way : ℕ
  pub accepted : Bool

pub data Step (s : System) : System → Type 0 where
  asks : panel_of s.page ≡ ask → Step s (record s { page = record (s.page) { confirming = true } })
  ticks :
      (b : Bool)
      → panel_of s.page ≡ step_one
      → Step s (record s { page = record (s.page) { confirmed = b } })
  cancels :
      panel_of s.page ≡ step_two
      → Step s (record s { page = record (s.page) { confirming = false; confirmed = false } })
  submits :
      panel_of s.page ≡ step_two
      → s.page.deleting ≡ false
      → Step s (record s { page = delete_begin s.page; on_way = suc s.on_way })
  accepts :
      (n : ℕ) (req : MyDeletionRequest)
      → s.on_way ≡ suc n
      → Step s (record { page = delete_end (ok req) s.page; on_way = n; accepted = true })
  fails :
      (n : ℕ) (e : Failure)
      → s.on_way ≡ suc n
      → Step s (record s { page = delete_end (err e) s.page; on_way = n })
  -- The backend names a request only if it has accepted one.
  tells :
      (req : MyDeletionRequest)
      → s.accepted ≡ true
      → Step s (record s { page = deletion_answered (ok (some req)) s.page })
  tells_none : Step s (record s { page = deletion_answered (ok none) s.page })
  loads : (r : MyAttendanceResult) → Step s (record s { page = (load_end r s.page).0 })
  checks : (id : _) → Step s (record s { page = check_begin id s.page })
  checked :
      (reply : Outcome MyAttendanceResult Failure)
      → Step s (record s { page = check_end reply s.page })

pub data Reach : System → Type 0 where
  start : Reach (record {
    page = record {
      result = none;
      confirming = false;
      confirmed = false;
      deleted = false;
      deleting = false;
      checking = none;
      consent = loading;
    };
    on_way = 0;
    accepted = false;
  })
  later : {r s : System} → Reach r → Step r s → Reach s

abbrev pub IsRequested : System → Type 0
IsRequested s =
    (s.on_way ≡ (if s.page.deleting then 1 else 0))
    × (s.page.confirmed ≡ true → s.page.confirming ≡ true)
    × (s.page.deleted ≡ true → s.accepted ≡ true)

Step-IsRequested : {r s : System} → Step r s → IsRequested r → IsRequested s
unfolding panel_of load_end deletion_answered delete_begin delete_end check_begin check_end
Step-IsRequested {r} (asks e) h = ground arith
Step-IsRequested {r} (ticks b e) h = ground arith
Step-IsRequested {r} (cancels e) h = ground arith
Step-IsRequested {r} (submits e d) h = ground arith
Step-IsRequested {r} (accepts n req e) h = ground arith
Step-IsRequested {r} (fails n f e) h = ground arith
Step-IsRequested {r} (tells req e) h = ground arith
Step-IsRequested {r} tells_none h = ground arith
Step-IsRequested {r} (loads l) h = ground arith
Step-IsRequested {r} (checks id) h = ground arith
Step-IsRequested {r} (checked (ok again)) h = ground arith
Step-IsRequested {r} (checked (err e)) h = ground arith

-- However the buttons, answers and reloads follow each other, at most one request for deletion is on its way,
-- which is when the page says that it is submitting; and the page says that a request is submitted only if
-- the backend has accepted one. The understanding is confirmed only within a request that was begun.
pub Reach-IsRequested : {s : System} → Reach s → IsRequested s
Reach-IsRequested start = (refl, λ e. e, λ e. e)
Reach-IsRequested (later r st) = Step-IsRequested st (Reach-IsRequested r)
