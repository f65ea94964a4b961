-- ===== src/Auth/Roles.antt =====
-- The role tables of apps/web/src/lib/auth-guard.ts. A role is a text: the source casts texts to
-- `AppRole` without a check, so the model keeps the unknown ones.
use sensepro.Prelude.{
  String, Bool, Option, none, some, List, [], ◌∷◌, any, str_eq, if◌then◌else◌, get_or_default,
}
use sensepro.Prelude.Dict.{Dict, get}

abbrev pub app_roles : List String
app_roles = "teacher" ∷ "management" ∷ "admin" ∷ "student" ∷ []

-- `[…].includes(role)`.
abbrev pub includes : List String → String → Bool
includes roles role = any (λ r. str_eq r role) roles

-- An empty text is falsy.
abbrev pub truthy : Option String → Option String
truthy none = none
truthy (some s) = if str_eq s "" then none else some s

-- `a || b` on texts that may be missing.
abbrev pub or_else : Option String → Option String → Option String
or_else a b = elim (truthy a) [ none ↦ truthy b | some s ↦ some s ]

-- A role that is on the list, else null.
abbrev pub validated : Option String → Option String
validated none = none
validated (some role) = if includes app_roles role then some role else none

abbrev pub role_home_table : Dict String
role_home_table =
    ("teacher", "/teacher")
    ∷ ("management", "/management")
    ∷ ("admin", "/admin")
    ∷ ("student", "/me")
    ∷ []

-- `ROLE_HOME[role]`, undefined for an unknown role.
unfoldable pub role_home : String → Option String
unfolding get
role_home role = get role role_home_table

abbrev pub staff : List String
staff = "teacher" ∷ "admin" ∷ []

abbrev pub managers : List String
managers = "management" ∷ "admin" ∷ []

abbrev pub admins : List String
admins = "admin" ∷ []

abbrev pub students : List String
students = "student" ∷ "admin" ∷ []

abbrev pub route_roles_table : Dict (List String)
route_roles_table =
    ("/start", staff)
    ∷ ("/capture", staff)
    ∷ ("/teacher", staff)
    ∷ ("/sessions", staff)
    ∷ ("/proctor", staff)
    ∷ ("/management", managers)
    ∷ ("/trends", managers)
    ∷ ("/admin", admins)
    ∷ ("/enrollment", admins)
    ∷ ("/me", students)
    ∷ ("/claim", students)
    ∷ []

unfoldable pub route_roles : String → Option (List String)
unfolding get
route_roles path = get path route_roles_table

-- `homeForRole`.
unfoldable pub home_for_role : Option String → String
unfolding role_home
home_for_role role = elim (truthy role) [
  | none ↦ "/no-role"
  | some r ↦ get_or_default (role_home r) "/no-role"
]
