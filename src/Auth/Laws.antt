-- ===== src/Auth/Laws.antt =====
-- What `guardRoute` guarantees.
use sensepro.Prelude.{
  ◌≡◌, refl, ap, ◌∙◌, ◌↔◌, ◌⊎◌, inl, inr, ◌≢◌, String, true, false, Option, none, some, List, [],
  ◌∷◌, eq_iff, arith, Option-cases, Bool-cases,
}
use sensepro.Prelude.Dict.{get}
use sensepro.Auth.Roles.{app_roles, includes, truthy, or_else, validated, role_home}
use sensepro.Auth.Navigation.{route_guards}
use mathlib.Core.Path.{subst}
use sensepro.Auth.Resolve.{
  Claims, Session, Browser, wait_for_clerk, clerk_candidate, token_role, session_role,
  resolve_session, resolve_auth,
}
use sensepro.Auth.Guard.{
  Allowed, authenticated, roles, proceed, to_home, admits, check_role, guard_route,
}

pub includes-cases :
    (role : String)
    → includes app_roles role ≡ true
    → (role ≡ "teacher") ⊎ (role ≡ "management") ⊎ (role ≡ "admin") ⊎ (role ≡ "student")
includes-cases role h = ground (
  arith,
  eq_iff "teacher" role,
  eq_iff "management" role,
  eq_iff "admin" role,
  eq_iff "student" role,
)

check_role_iff :
    (rs : List String) (o : Option String) (role : String)
    → role ≢ ""
    → (check_role (roles rs) (truthy o) ≡ proceed role)
      ↔ ((o ≡ some role) × ((role ≡ "admin") ⊎ (includes rs role ≡ true)))
check_role_iff rs none role ne = ground arith
check_role_iff rs (some r) role ne =
    ground (arith, eq_iff r "", eq_iff r "admin", eq_iff role "admin")

-- In the browser, a page behind a list of roles renders with a non-empty role exactly if the user
-- is authenticated, that is the resolved role, and it is admin or on the list.
pub guard_route-proceed_iff :
    (rs : List String) (b : Browser) (role : String)
    → b.has_window ≡ true
    → role ≢ ""
    → (guard_route (roles rs) b ≡ proceed role) ↔ (
        ((resolve_auth b).authenticated ≡ true)
        × ((resolve_auth b).role ≡ some role)
        × ((role ≡ "admin") ⊎ (includes rs role ≡ true)))
unfolding guard_route
guard_route-proceed_iff rs b role w ne =
    ground (arith, check_role_iff rs (resolve_auth b).role role ne)

-- The guard in the route file of each role's home names the role.
role_home-admits :
    (role : String)
    → includes app_roles role ≡ true
    → (path : String) × (rs : List String) × (role_home role ≡ some path)
      × (get path route_guards ≡ some rs)
      × (includes rs role ≡ true)
unfolding role_home get
role_home-admits role h = elim (includes-cases role h) [
  | inl e ↦ rw e ("/teacher", "teacher" ∷ [], refl, refl, refl)
  | inr rest ↦ elim rest [
    | inl e ↦ rw e ("/management", "management" ∷ [], refl, refl, refl)
    | inr rest' ↦ elim rest' [
      | inl e ↦ rw e ("/admin", "admin" ∷ [], refl, refl, refl)
      | inr e ↦ rw e ("/me", "student" ∷ [], refl, refl, refl)
    ]
  ]
]

-- In the browser, a guard lets a signed-in user whose resolved role is one of the four in with it, or sends
-- the user to a page whose route file has a guard that lets the user in.
pub guard_route-home :
    (allowed : Allowed) (b : Browser) (role : String)
    → b.has_window ≡ true
    → (resolve_auth b).authenticated ≡ true
    → (resolve_auth b).role ≡ some role
    → includes app_roles role ≡ true
    → (guard_route allowed b ≡ proceed role)
      ⊎ ((path : String) × (rs : List String) × (guard_route allowed b ≡ to_home (some path))
          × (get path route_guards ≡ some rs)
          × (guard_route (roles rs) b ≡ proceed role))
unfolding guard_route
guard_route-home allowed b role w a r h =
    let (path, rs, home, page, admitted) = role_home-admits role h in
    let ne : role ≢ "" = λ e. cc (ap (includes app_roles) e, h) in
    elim (Bool-cases (admits allowed role)) [
      | inl y ↦ inl (ground (arith, eq_iff role ""))
      | inr n ↦ inr (
        path,
        rs,
        ground (arith, eq_iff role ""),
        page,
        (guard_route-proceed_iff rs b role w ne).1 (a, r, inr admitted),
      )
    ]

validated_sound :
    (o : Option String) (role : String) → validated o ≡ some role → includes app_roles role ≡ true
validated_sound none role h = cc
validated_sound (some r) role h = elim (Bool-cases (includes app_roles r)) [
  | inl y ↦ let e : r ≡ role = cc (rw y at h) in subst (λ x. includes app_roles x ≡ true) e y
  | inr n ↦ cc (rw n at h)
]

session_role_source :
    (parse : String → Option Claims) (s : Session) (role : String)
    → session_role parse s ≡ some role
    → (includes app_roles role ≡ true) ⊎ (token_role parse s.access_token ≡ some role)
unfolding session_role
session_role_source parse s role h = elim (Option-cases (token_role parse s.access_token)) [
  | inl e ↦ inl (
      validated_sound (or_else s.user_role (or_else s.app_meta_role s.app_meta_app_role)) role
        (rw (e, session_role) at h))
  | inr (r, e) ↦ inr (e ∙ rw (e, session_role) at h)
]

-- Every role that a guard sees is one of the four, except the `app_role` claim of the Supabase
-- session's token, which is passed on as it stands.
pub resolve_auth-role :
    (b : Browser) (role : String)
    → (resolve_auth b).role ≡ some role
    → (includes app_roles role ≡ true)
      ⊎ ((s : Session) × (b.session ≡ some s)
          × (token_role b.parse_claims s.access_token ≡ some role))
unfolding resolve_auth
resolve_auth-role b role h = elim (Bool-cases b.has_window) [
  | inl w ↦ elim (Option-cases (wait_for_clerk b)) [
    | inl none_yet ↦ from_session (ground arith)
    | inr (clerk, found) ↦ elim (Bool-cases clerk.loaded) [
      | inl loaded ↦ elim (Option-cases clerk.user) [
        | inl signed_out ↦ from_session (ground arith)
        | inr (u, signed_in) ↦ inl (validated_sound (clerk_candidate b u) role (ground arith))
      ]
      | inr unloaded ↦ from_session (ground arith)
    ]
  ]
  | inr server ↦ from_session (ground arith)
]
  where
    from_session :
        (resolve_session b).role ≡ some role
        → (includes app_roles role ≡ true)
          ⊎ ((s : Session) × (b.session ≡ some s)
              × (token_role b.parse_claims s.access_token ≡ some role))
    from_session e = elim (Option-cases b.session) [
      | inl absent ↦ cc (absent, e)
      | inr (s, present) ↦ elim (session_role_source b.parse_claims s role (ground arith)) [
        | inl y ↦ inl y
        | inr t ↦ inr (s, present, t)
      ]
    ]

-- In the browser, a signed-in user's non-empty role that is neither one of the four nor on the
-- list is believed: a page for any authenticated user renders with it, and a page behind the list
-- redirects to an undefined destination.
pub guard_route-unknown_role :
    (rs : List String) (b : Browser) (role : String)
    → b.has_window ≡ true
    → (resolve_auth b).authenticated ≡ true
    → (resolve_auth b).role ≡ some role
    → role ≢ ""
    → includes app_roles role ≡ false
    → includes rs role ≡ false
    → (guard_route authenticated b ≡ proceed role) × (guard_route (roles rs) b ≡ to_home none)
unfolding guard_route role_home get
guard_route-unknown_role rs b role w a r ne unknown other = (
  ground (arith, eq_iff role ""),
  ground (
    arith,
    eq_iff role "",
    eq_iff role "admin",
    eq_iff "teacher" role,
    eq_iff "management" role,
    eq_iff "admin" role,
    eq_iff "student" role,
  ),
)
