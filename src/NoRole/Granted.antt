-- ===== src/NoRole/Granted.antt =====
-- Where a user arrives from routes/no-role.tsx once a role is granted.
use sensepro.Prelude.{String, ◌≡◌, true, false, Option, none, some, str_eq}
use sensepro.Auth.Roles.{app_roles, includes}
use sensepro.Auth.Resolve.{ClerkUser, Browser}
use sensepro.Auth.Guard.{roles, guard_route, proceed}
use sensepro.Auth.SelfRole.{signed_in_as, with_role}
use sensepro.Auth.Navigation.{guard_of}
use sensepro.NoRole.{Page}

abbrev Named : String → String → Type 0
Named role to =
    (includes app_roles role ≡ true)
    × (str_eq role "" ≡ false)
    × (includes (guard_of to) role ≡ true)

abbrev NamedPage : String → Option String → Type 0
NamedPage role none = Unit
NamedPage role (some to) = Named role to

-- The user has the role in the metadata and stands on a page that the guard renders for that role.
abbrev pub IsRendered : Browser → ClerkUser → String → String → Page → Type 0
IsRendered b u role to p =
    (p.user ≡ some (with_role role u))
    × (p.at ≡ some to)
    × (guard_route (roles (guard_of to)) (signed_in_as b (with_role role u)) ≡ proceed role)
