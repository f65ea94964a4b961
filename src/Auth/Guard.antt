-- ===== src/Auth/Guard.antt =====
-- apps/web/src/lib/auth-guard.ts, `guardRoute`: what `beforeLoad` does before a page renders.
use sensepro.Prelude.{String, Bool, true, Option, none, some, List, if◌then◌else◌, ◌||◌, str_eq}
use sensepro.Auth.Roles.{truthy, includes, role_home}
use sensepro.Auth.Resolve.{Browser, AuthResult, resolve_auth}

pub data Allowed : Type 0 where
  authenticated : Allowed
  roles : List String → Allowed

pub data Outcome : Type 0 where
  skipped : Outcome  -- on the server: `return {}`
  proceed : String → Outcome  -- `return { role }`
  to_login : String → Outcome  -- with the destination in `search.redirect`
  to_no_role : Outcome
  to_home : Option String → Outcome  -- `ROLE_HOME[role]`, which may be undefined

abbrev pub admits : Allowed → String → Bool
admits authenticated role = true
admits (roles rs) role = str_eq role "admin" || includes rs role

abbrev pub check_role : Allowed → Option String → Outcome
check_role allowed none = to_no_role
check_role allowed (some role) =
    if admits allowed role then proceed role else to_home (role_home role)

abbrev pub guard_result : Allowed → Browser → AuthResult → Outcome
guard_result allowed b auth =
    if auth.authenticated then check_role allowed (truthy auth.role) else to_login b.location

unfoldable pub guard_route : Allowed → Browser → Outcome
guard_route allowed b = if b.has_window then guard_result allowed b (resolve_auth b) else skipped
