-- ===== src/Auth/Resolve.antt =====
-- apps/web/src/lib/auth-guard.ts, `waitForClerk` and `resolveAuth`. Clerk, Supabase, the decoder of
-- JSON and the role-request endpoint are not code of this repository: what they answer is a value
-- of `Browser`.
use sensepro.Prelude.{
  ℕ, zero, suc, ◌+◌, String, Bool, true, false, Option, none, some, ltb, if◌then◌else◌, str_eq,
}
use sensepro.Auth.Roles.{truthy, or_else, validated}
use sensepro.Auth.Token.{payload_part, normalise_payload}

pub record ClerkUser : Type 0 where
  pub id : Option String
  pub email : Option String
  pub public_role : Option String
  pub unsafe_role : Option String

pub record Clerk : Type 0 where
  pub loaded : Bool
  pub user : Option ClerkUser

-- The claims of a token that the client reads.
pub record Claims : Type 0 where
  pub app_role : Option String

pub record Session : Type 0 where
  pub access_token : Option String
  pub user_role : Option String  -- user_metadata.role
  pub app_meta_role : Option String  -- app_metadata.role
  pub app_meta_app_role : Option String  -- app_metadata.app_role

pub record RoleRequest : Type 0 where
  pub status : String
  pub requested_role : Option String
  pub resolved_role : Option String

pub record Browser : Type 0 where
  pub has_window : Bool
  pub clerk_at : ℕ → Option Clerk  -- `window.Clerk` after so many milliseconds
  pub dev : Bool
  pub role_request : Option String → Option String → Option RoleRequest  -- none also if it throws
  pub session : Option Session
  pub parse_claims : String → Option Claims  -- `JSON.parse(atob(…))`; none if it throws
  pub location : String

pub record AuthResult : Type 0 where
  pub role : Option String
  pub authenticated : Bool

abbrev pub is_loaded : Option Clerk → Bool
is_loaded none = false
is_loaded (some clerk) = clerk.loaded

-- The `while` loop: a poll every 30 ms below 2500 ms, and one more read after the last wait.
unfoldable pub wait_loop : ℕ → ℕ → (ℕ → Option Clerk) → Option (Option Clerk)
wait_loop zero waited clerk_at = none
wait_loop (suc fuel) waited clerk_at =
    let rest = wait_loop fuel (waited + 30) clerk_at in
    if ltb waited 2500
    then if is_loaded (clerk_at waited) then some (clerk_at waited) else rest
    else some (clerk_at waited)

abbrev pub rounds : ℕ
rounds = 85

abbrev pub flat {ℓ} : {A : Type ℓ} → Option (Option A) → Option A
flat none = none
flat (some o) = o

unfoldable pub wait_for_clerk : Browser → Option Clerk
wait_for_clerk b = if b.has_window then flat (wait_loop rounds 0 b.clerk_at) else none

-- The role of an approved request.
abbrev pub approved_role : Option RoleRequest → Option String
approved_role none = none
approved_role (some r) =
    if str_eq r.status "approved" then or_else r.resolved_role r.requested_role else none

-- `publicMetadata.role || unsafeMetadata.role || (DEV ? "teacher" : undefined)`.
unfoldable pub metadata_candidate : Bool → Option String → Option String → Option String
metadata_candidate dev public_role unsafe_role =
    or_else public_role (or_else unsafe_role (if dev then some "teacher" else none))

unfoldable pub clerk_candidate : Browser → ClerkUser → Option String
clerk_candidate b u =
    let candidate = metadata_candidate b.dev u.public_role u.unsafe_role in
    elim candidate [ none ↦ approved_role (b.role_request u.email u.id) | some role ↦ some role ]

-- The role that `clerk.user.update` writes into `unsafeMetadata`, if the call is made.
unfoldable pub metadata_update : Browser → ClerkUser → Option String
metadata_update b u =
    let candidate = metadata_candidate b.dev u.public_role u.unsafe_role in
    elim candidate [ none ↦ approved_role (b.role_request u.email u.id) | some _ ↦ none ]

abbrev claimed : Option Claims → Option String
claimed none = none
claimed (some c) = truthy c.app_role

-- The `app_role` claim of an access token.
unfoldable pub token_role : (String → Option Claims) → Option String → Option String
token_role parse none = none
token_role parse (some token) = elim (truthy (payload_part token)) [
  | none ↦ none
  | some payload ↦ claimed (parse (normalise_payload payload))
]

-- The role that the metadata of a Supabase user names, if it is one of the four.
abbrev pub metadata_role : Session → Option String
metadata_role s = validated (or_else s.user_role (or_else s.app_meta_role s.app_meta_app_role))

unfoldable pub session_role : (String → Option Claims) → Session → Option String
unfolding token_role
session_role parse s = elim (token_role parse s.access_token) [
  | none ↦ metadata_role s
  | some role ↦ some role
]

abbrev pub resolve_session : Browser → AuthResult
resolve_session b = elim b.session [
  | none ↦ record { role = none; authenticated = false }
  | some s ↦ record { role = session_role b.parse_claims s; authenticated = true }
]

abbrev resolve_user : Browser → Option ClerkUser → AuthResult
resolve_user b none = resolve_session b
resolve_user b (some u) = record { role = validated (clerk_candidate b u); authenticated = true }

abbrev resolve_clerk : Browser → Option Clerk → AuthResult
resolve_clerk b none = resolve_session b
resolve_clerk b (some clerk) = if clerk.loaded then resolve_user b clerk.user else resolve_session b

unfoldable pub resolve_auth : Browser → AuthResult
unfolding clerk_candidate session_role
resolve_auth b = if b.has_window then resolve_clerk b (wait_for_clerk b) else resolve_session b
