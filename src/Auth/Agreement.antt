-- ===== src/Auth/Agreement.antt =====
-- Where the several readers of a user's role agree, and where the source lets them differ.
use sensepro.Prelude.{
  ◌≡◌, ap, ◌∙◌, ◌⊎◌, inl, inr, String, true, false, Option, none, some, arith, Option-cases,
  Bool-cases,
}
use sensepro.Auth.Roles.{app_roles, includes, validated}
use sensepro.Auth.Resolve.{
  Claims, Session, Browser, Clerk, ClerkUser, token_role, metadata_role, session_role,
  metadata_candidate, resolve_auth, clerk_candidate, wait_for_clerk, approved_role,
}
use sensepro.Auth.Views.{ClerkProfile, ClerkState, AuthUser, extract_supabase_role, use_auth}

-- The guard's role for a Supabase session is that of `useAuth`, or the token carries a claim
-- outside the four roles: then the guard takes the claim, and `useAuth` the metadata.
pub session_role-extract :
    (parse : String → Option Claims) (s : Session)
    → (session_role parse s ≡ extract_supabase_role parse (some s))
      ⊎ ((claim : String) × (token_role parse s.access_token ≡ some claim)
          × (includes app_roles claim ≡ false)
          × (session_role parse s ≡ some claim)
          × (extract_supabase_role parse (some s) ≡ metadata_role s))
unfolding session_role extract_supabase_role
session_role-extract parse s = elim (Option-cases (token_role parse s.access_token)) [
  | inl e ↦ inl (rw (e, session_role, extract_supabase_role))
  | inr (claim, e) ↦ elim (Bool-cases (includes app_roles claim)) [
    | inl known ↦ inl (ground arith)
    | inr unknown ↦ inr (claim, e, unknown, ground arith, ground arith)
  ]
]

abbrev pub role_of : Option AuthUser → Option String
role_of none = none
role_of (some u) = u.role

resolve_auth-clerk :
    (b : Browser) (clerk : Clerk) (u : ClerkUser)
    → b.has_window ≡ true
    → wait_for_clerk b ≡ some clerk
    → clerk.loaded ≡ true
    → clerk.user ≡ some u
    → (resolve_auth b).role ≡ validated (clerk_candidate b u)
unfolding resolve_auth
resolve_auth-clerk b clerk u w found l s = ground arith

-- In the browser, for a user of a loaded Clerk whose profile has the same metadata, the guard and
-- `useAuth` see the same role, or `useAuth` sees none and the guard takes the role of an approved
-- request.
pub resolve_auth-use_auth :
    (b : Browser) (clerk : Clerk) (u : ClerkUser) (p : ClerkProfile) (stored : Option AuthUser)
    → b.has_window ≡ true
    → wait_for_clerk b ≡ some clerk
    → clerk.loaded ≡ true
    → clerk.user ≡ some u
    → p.public_role ≡ u.public_role
    → p.unsafe_role ≡ u.unsafe_role
    → let state : ClerkState = record { loaded = true; signed_in = true; user = some p } in
      ((resolve_auth b).role ≡ role_of (use_auth b.dev state stored).user)
      ⊎ ((role_of (use_auth b.dev state stored).user ≡ none)
          × ((resolve_auth b).role ≡ validated (approved_role (b.role_request u.email u.id))))
unfolding use_auth clerk_candidate
resolve_auth-use_auth b clerk u p stored w found l s same_public same_unsafe =
    let r = resolve_auth-clerk b clerk u w found l s in
    elim (Option-cases (metadata_candidate b.dev u.public_role u.unsafe_role)) [
      | inl e ↦
          let asked : clerk_candidate b u ≡ approved_role (b.role_request u.email u.id) =
            ground arith in
          rw (same_public, same_unsafe) (inr (ap validated e, r ∙ ap validated asked))
      | inr (role, e) ↦
          let known : clerk_candidate b u ≡ metadata_candidate b.dev u.public_role u.unsafe_role =
            ground arith in
          rw (same_public, same_unsafe) (inl (r ∙ ap validated known))
    ]
