-- ===== src/Auth/SelfRole.antt =====
-- The pages that write a role into the metadata of the signed-in Clerk user: the effect of
-- apps/web/src/routes/login.tsx and `handleQuickActivate` of apps/web/src/routes/no-role.tsx.
use sensepro.Prelude.{
  not, ◌&&◌, ℕ, suc, ◌≡◌, refl, ap, ◌∙◌, String, Bool, true, false, Option, none, some, List,
  str_eq, if◌then◌else◌, get_or_default, arith,
}
use sensepro.Auth.Roles.{app_roles, includes, truthy, or_else, validated, home_for_role, role_home}
use sensepro.Auth.Resolve.{
  ClerkUser, Clerk, Browser, wait_loop, wait_for_clerk, metadata_candidate, clerk_candidate,
  resolve_auth,
}
use sensepro.Auth.Guard.{check_role, guard_result, roles, guard_route, proceed}

-- `validateSearch` of /login: a path of this site, or nothing; `startsWith` on texts is an argument.
unfoldable pub return_target : (String → String → Bool) → Option String → Option String
return_target starts none = none
return_target starts (some r) = if starts r "/" && not (starts r "//") then some r else none

-- `existingRole`.
unfoldable pub existing_role : ClerkUser → Option String
existing_role u = or_else u.public_role u.unsafe_role

-- The role that the effect of /login goes on with.
unfoldable pub login_role : ClerkUser → String
unfolding existing_role
login_role u = get_or_default (existing_role u) "teacher"

-- `user.update({ unsafeMetadata: { …, role } })`.
abbrev pub with_role : String → ClerkUser → ClerkUser
with_role role u = record u { unsafe_role = some role }

-- The user after the effect of /login, when the update is accepted.
unfoldable pub login_user : ClerkUser → ClerkUser
unfolding existing_role login_role
login_user u = elim (existing_role u) [ none ↦ with_role (login_role u) u | some _ ↦ u ]

-- Where the effect goes: `returnTo || homeForRole(role) || "/teacher"`.
unfoldable pub login_target : Option String → ClerkUser → String
unfolding login_role
login_target return_to u =
    get_or_default (or_else return_to (some (home_for_role (some (login_role u))))) "/teacher"

-- The user after `handleQuickActivate`, when the update is accepted.
unfoldable pub quick_activate : String → ClerkUser → ClerkUser
quick_activate role u = with_role role u

abbrev signed_in_clerk : ClerkUser → Clerk
signed_in_clerk u = record { loaded = true; user = some u }

-- A browser in which Clerk is loaded with a user.
abbrev pub signed_in_as : Browser → ClerkUser → Browser
signed_in_as b u = record b { has_window = true; clerk_at = λ _. some (signed_in_clerk u) }

wait_loop-loaded_at_once :
    (fuel : ℕ) (c : Clerk) → c.loaded ≡ true → wait_loop (suc fuel) 0 (λ _. some c) ≡ some (some c)
unfolding wait_loop
wait_loop-loaded_at_once fuel c l = rw l

-- The guard sees the metadata of that user.
resolve_auth-signed_in_as :
    (b : Browser) (u : ClerkUser)
    → resolve_auth (signed_in_as b u)
      ≡ record { role = validated (clerk_candidate (signed_in_as b u) u); authenticated = true }
unfolding resolve_auth wait_for_clerk
resolve_auth-signed_in_as b u = rw (wait_loop-loaded_at_once 84 (signed_in_clerk u) refl)

-- Without a role in the public metadata, the role of the unsafe metadata is the user's.
metadata_candidate-unsafe :
    (dev : Bool) (public_role : Option String) (role : String)
    → truthy public_role ≡ none
    → str_eq role "" ≡ false
    → metadata_candidate dev public_role (some role) ≡ some role
unfolding metadata_candidate
metadata_candidate-unsafe dev none role p e = ground (arith, e)
metadata_candidate-unsafe dev (some s) role p e = ground (arith, p)

clerk_candidate-with_role :
    (b : Browser) (u : ClerkUser) (role : String)
    → truthy u.public_role ≡ none
    → str_eq role "" ≡ false
    → clerk_candidate b (with_role role u) ≡ some role
unfolding clerk_candidate
clerk_candidate-with_role b u role p e =
    rw (metadata_candidate-unsafe b.dev u.public_role role p e, clerk_candidate)

check_role-known :
    (role : String) (allowed : List String)
    → includes app_roles role ≡ true
    → str_eq role "" ≡ false
    → includes allowed role ≡ true
    → check_role (roles allowed) (truthy (validated (some role))) ≡ proceed role
check_role-known role allowed known e allows = ground (arith, known, e, allows)

-- A signed-in user whose account has no public role can choose one: whatever role the user activates
-- on /no-role, `admin` included, every page whose guard names that role then renders.
pub guard_route-quick_activate :
    (b : Browser) (u : ClerkUser) (role : String) (allowed : List String)
    → truthy u.public_role ≡ none
    → includes app_roles role ≡ true
    → str_eq role "" ≡ false
    → includes allowed role ≡ true
    → guard_route (roles allowed) (signed_in_as b (quick_activate role u)) ≡ proceed role
unfolding guard_route quick_activate
guard_route-quick_activate b u role allowed p known e allows =
    let me = signed_in_as b (with_role role u) in
    ap (guard_result (roles allowed) me) (resolve_auth-signed_in_as b (with_role role u))
    ∙ ap (λ c. check_role (roles allowed) (truthy (validated c)))
        (clerk_candidate-with_role me u role p e)
    ∙ check_role-known role allowed known e allows

or_else-none : (a b : Option String) → truthy a ≡ none → or_else a b ≡ truthy b
or_else-none none b h = refl
or_else-none (some s) b h = ground (arith, h)

existing_role-none :
    (u : ClerkUser)
    → truthy u.public_role ≡ none
    → truthy u.unsafe_role ≡ none
    → existing_role u ≡ none
unfolding existing_role
existing_role-none u p q = or_else-none u.public_role u.unsafe_role p ∙ q

login_role-none : (u : ClerkUser) → existing_role u ≡ none → login_role u ≡ "teacher"
unfolding login_role
login_role-none u h = rw h

login_user-none :
    (u : ClerkUser) → existing_role u ≡ none → login_user u ≡ quick_activate "teacher" u
unfolding login_user quick_activate
login_user-none u h = rw (h, login_user, login_role-none u h)

-- A signed-in user whose account has no role at all is a teacher from /login on: once its effect has
-- written the role, every page whose guard names teachers renders, and the effect goes to the
-- address that was asked for or to the teacher's home.
pub guard_route-login_user :
    (b : Browser) (u : ClerkUser) (allowed : List String)
    → truthy u.public_role ≡ none
    → truthy u.unsafe_role ≡ none
    → includes allowed "teacher" ≡ true
    → (guard_route (roles allowed) (signed_in_as b (login_user u)) ≡ proceed "teacher")
      × (login_target none u ≡ "/teacher")
unfolding login_target home_for_role role_home
guard_route-login_user b u allowed p q allows =
    let none_yet = existing_role-none u p q in
    (
      ap (λ v. guard_route (roles allowed) (signed_in_as b v)) (login_user-none u none_yet)
          ∙ guard_route-quick_activate b u "teacher" allowed p refl refl allows,
      ap (λ role. get_or_default (or_else none (some (home_for_role (some role)))) "/teacher")
          (login_role-none u none_yet),
    )
