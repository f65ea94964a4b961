-- ===== src/Capture/Starting/Tests.antt =====
-- Starting a session against a backend that is down.
use sensepro.Prelude.{refl, none, some}
use sensepro.Http.{refused, thrown, ok}
use sensepro.Capture.Types.{exam}
use sensepro.Capture.Starting.{Start, start}
use sensepro.Capture.Starting.Closed.{IsFailClosed, start-IsFailClosed}

abbrev backend_down : Start
backend_down = record {
  blocked = none;
  ready = ok tt;
  authorization = ok tt;
  created = refused 503 none;
  device = none;
  exact = ok tt;
  loose = ok tt;
  closing = thrown "offline";
}

start-IsFailClosed_example : IsFailClosed exam (start exam (some "s1") backend_down)
start-IsFailClosed_example = start-IsFailClosed exam (some "s1") backend_down refl
