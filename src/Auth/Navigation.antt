-- ===== src/Auth/Navigation.antt =====
-- The navigation of apps/web/src/components/sp/AppShell.tsx, and the guards that the route files of
-- apps/web/src/routes give to `guardRoute`.
use sensepro.Prelude.{
  if◌then◌else◌, Bool-cases, inl, inr, ◌≡◌, String, Bool, true, ◌||◌, Option, none, some, List, [],
  ◌∷◌, filter, str_eq, eq_iff, arith, All, get_or_default,
}
use sensepro.Prelude.Dict.{Dict, get}
use sensepro.Auth.Roles.{includes, route_roles}
use sensepro.Auth.Guard.{admits, roles}

pub record NavItem : Type 0 where
  pub to : String
  pub roles : List String
  pub group : String

abbrev teacher_item : String → NavItem
teacher_item to = record { to = to; roles = "teacher" ∷ []; group = "Teacher" }

abbrev management_item : String → NavItem
management_item to = record { to = to; roles = "management" ∷ []; group = "Management" }

abbrev admin_item : String → NavItem
admin_item to = record { to = to; roles = "admin" ∷ []; group = "Admin" }

abbrev pub nav : List NavItem
nav =
    teacher_item "/start"
    ∷ teacher_item "/teacher"
    ∷ teacher_item "/sessions"
    ∷ teacher_item "/proctor"
    ∷ management_item "/management"
    ∷ management_item "/trends"
    ∷ admin_item "/admin"
    ∷ admin_item "/enrollment"
    ∷ record { to = "/me"; roles = "student" ∷ []; group = "Student" }
    ∷ []

-- Whether the shell shows an entry to a user with a role.
unfoldable pub is_visible : String → NavItem → Bool
is_visible role n = str_eq role "admin" || includes n.roles role

unfoldable pub visible_nav : Option String → List NavItem
unfolding is_visible
visible_nav none = []
visible_nav (some role) = if str_eq role "" then [] else filter (is_visible role) nav

-- `beforeLoad: guardRoute([…])` of the route file behind an entry.
-- The list that each route file gives to `guardRoute`.
abbrev start_guard : List String
start_guard = "teacher" ∷ []

abbrev teacher_guard : List String
teacher_guard = "teacher" ∷ []

abbrev sessions_guard : List String
sessions_guard = "teacher" ∷ []

abbrev proctor_guard : List String
proctor_guard = "teacher" ∷ []

abbrev management_guard : List String
management_guard = "management" ∷ []

abbrev trends_guard : List String
trends_guard = "management" ∷ []

abbrev admin_guard : List String
admin_guard = "admin" ∷ []

abbrev enrollment_guard : List String
enrollment_guard = "admin" ∷ []

abbrev me_guard : List String
me_guard = "student" ∷ []

abbrev pub route_guards : Dict (List String)
route_guards =
    ("/start", start_guard)
    ∷ ("/teacher", teacher_guard)
    ∷ ("/sessions", sessions_guard)
    ∷ ("/proctor", proctor_guard)
    ∷ ("/management", management_guard)
    ∷ ("/trends", trends_guard)
    ∷ ("/admin", admin_guard)
    ∷ ("/enrollment", enrollment_guard)
    ∷ ("/me", me_guard)
    ∷ []

unfoldable pub guard_of : String → List String
unfolding get
guard_of path = get_or_default (get path route_guards) []

-- The guard of the entry's route renders the page for the role, and the route table names the role.
abbrev pub LeadsTo : String → NavItem → Type 0
LeadsTo role n =
    (admits (roles (guard_of n.to)) role ≡ true)
    × (includes (get_or_default (route_roles n.to) []) role ≡ true)

filter-All :
    {A : Type 0} (P : A → Type 0) (p : A → Bool) (xs : List A)
    → All (λ x. p x ≡ true → P x) xs
    → All P (filter p xs)
filter-All P p [] h = tt
filter-All P p (x ∷ xs) (f, h) = elim (Bool-cases (p x)) [
  | inl shown ↦ rw shown (f shown, filter-All P p xs h)
  | inr hidden ↦ rw hidden (filter-All P p xs h)
]

nav-LeadsTo : (role : String) → All (λ n. is_visible role n ≡ true → LeadsTo role n) nav
unfolding is_visible guard_of route_roles
nav-LeadsTo role = ground (arith, eq_iff role "admin", eq_iff "admin" role)

-- Every entry that the shell shows to a role leads to a page whose guard renders it for that role, and the
-- role is among those that the route table names for the page.
pub visible_nav-LeadsTo : (role : String) → All (LeadsTo role) (visible_nav (some role))
unfolding visible_nav
visible_nav-LeadsTo role = elim (Bool-cases (str_eq role "")) [
  | inl empty ↦ rw (empty, visible_nav) tt
  | inr named ↦
      rw (named, visible_nav) (filter-All (LeadsTo role) (is_visible role) nav (nav-LeadsTo role))
]
