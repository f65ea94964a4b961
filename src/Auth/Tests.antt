-- ===== src/Auth/Tests.antt =====
-- Signing in at concrete browsers.
use sensepro.Prelude.{
  All, ◌≡◌, refl, ap, ◌⊎◌, ◌↔◌, String, true, false, Option, none, some, List, [], ◌∷◌, arith,
  differ,
}
use sensepro.Auth.Roles.{app_roles, includes, staff}
use sensepro.Auth.Token.{normalise_payload, payload_part}
use sensepro.Auth.Resolve.{
  Browser, Claims, Clerk, ClerkUser, Session, resolve_auth, token_role, session_role, is_loaded,
  wait_loop, wait_for_clerk, rounds, clerk_candidate, metadata_candidate,
}
use sensepro.Prelude.Dict.{get}
use sensepro.Auth.Navigation.{route_guards, LeadsTo, visible_nav, visible_nav-LeadsTo}
use sensepro.Auth.Guard.{roles, proceed, to_home, guard_route}
use sensepro.Auth.Views.{finish_target, ClerkProfile, ClerkState}
use sensepro.Auth.Laws.{guard_route-proceed_iff, guard_route-home, resolve_auth-role}
use sensepro.Auth.Waiting.{wait_for_clerk-loaded}
use sensepro.Auth.Redirects.{IsLocal, finish_target-same_site}

-- A claim as a decoder of `{"app_role": …}` returns it.
abbrev claim : String → String → Option Claims
claim role _ = some (record { app_role = some role })

abbrev signed_in : Session
signed_in = record {
  access_token = some "h.p.s";
  user_role = some "student";
  app_meta_role = none;
  app_meta_app_role = none;
}

-- A browser whose Clerk is signed out, with a Supabase session whose token claims `role`.
abbrev with_claim : String → Browser
with_claim role = record {
  has_window = true;
  clerk_at = λ _. some (record { loaded = true; user = none });
  dev = false;
  role_request = λ _ _. none;
  session = some signed_in;
  parse_claims = claim role;
  location = "/capture";
}

abbrev clerk_user : ClerkUser
clerk_user = record {
  id = some "u1";
  email = some "t@x";
  public_role = some "teacher";
  unsafe_role = none;
}

abbrev clerk : Clerk
clerk = record { loaded = true; user = some clerk_user }

-- A browser whose Clerk is loaded from the start.
abbrev with_clerk : Browser
with_clerk = record (with_claim "student") { clerk_at = λ _. some clerk }

wait_for_clerk-loaded_example :
    ((c : Option Clerk) × (wait_loop rounds 0 with_clerk.clerk_at ≡ some c))
    × ((is_loaded (with_clerk.clerk_at 60) ≡ false)
        ⊎ (is_loaded (wait_for_clerk with_clerk) ≡ true))
wait_for_clerk-loaded_example = wait_for_clerk-loaded with_clerk 2 refl (omega arith)

finish_target-same_site_example :
    IsLocal (finish_target (claim "teacher") (some signed_in) (some "//evil.example"))
finish_target-same_site_example =
    finish_target-same_site (claim "teacher") (some signed_in) (some "//evil.example")

-- The role at hand in these browsers, computed.
resolve_auth_tests :
    (resolve_auth (with_claim "teacher") ≡ record { role = some "teacher"; authenticated = true })
    × (resolve_auth (with_claim "owner") ≡ record { role = some "owner"; authenticated = true })
    × (resolve_auth with_clerk ≡ record { role = some "teacher"; authenticated = true })
unfolding resolve_auth wait_for_clerk wait_loop session_role token_role payload_part
    normalise_payload clerk_candidate metadata_candidate
resolve_auth_tests = (refl, refl, refl)

abbrev teacher : String
teacher = "teacher"

guard_route-proceed_iff_example : (guard_route (roles staff) with_clerk ≡ proceed "teacher") ↔ (
    ((resolve_auth with_clerk).authenticated ≡ true)
    × ((resolve_auth with_clerk).role ≡ some "teacher")
    × ((teacher ≡ "admin") ⊎ (includes staff "teacher" ≡ true)))
guard_route-proceed_iff_example =
    guard_route-proceed_iff staff with_clerk "teacher" refl (differ "teacher" "" refl)

guard_route-home_example :
    (guard_route (roles ("admin" ∷ [])) with_clerk ≡ proceed "teacher")
    ⊎ ((path : String) × (rs : List String) × (guard_route (roles ("admin" ∷ [])) with_clerk
          ≡ to_home (some path))
        × (get path route_guards ≡ some rs)
        × (guard_route (roles rs) with_clerk ≡ proceed "teacher"))
guard_route-home_example =
    guard_route-home (roles ("admin" ∷ [])) with_clerk "teacher" refl
      (ap (λ r. r.authenticated) (resolve_auth_tests.2)) (ap (λ r. r.role) (resolve_auth_tests.2))
      refl

resolve_auth-role_example :
    (includes app_roles "owner" ≡ true)
    ⊎ ((s : Session) × (some signed_in ≡ some s)
        × (token_role (claim "owner") s.access_token ≡ some "owner"))
resolve_auth-role_example =
    resolve_auth-role (with_claim "owner") "owner" (ap (λ r. r.role) (resolve_auth_tests.1))

abbrev profile : ClerkProfile
profile = record {
  id = "u1";
  email = some "t@x";
  public_role = some "teacher";
  unsafe_role = none;
  full_name = some "T";
  joined_names = "T";
}

abbrev clerk_state : ClerkState
clerk_state = record { loaded = true; signed_in = true; user = some profile }

-- An account without a role.
abbrev newcomer : ClerkUser
newcomer = record clerk_user { public_role = none; unsafe_role = none }

visible_nav-LeadsTo_example : All (LeadsTo "student") (visible_nav (some "student"))
visible_nav-LeadsTo_example = visible_nav-LeadsTo "student"
