-- ===== src/Auth/Views.antt =====
-- Who the pages say is signed in: `extractSupabaseRole` and `useAuth` of apps/web/src/lib/auth.tsx,
-- `toSessionUser` of apps/web/src/hooks/use-session-user.ts, and `finish` of
-- apps/web/src/routes/auth.callback.tsx.
use Prim.Native.Char.{code}
use Prim.Native.String.{[], ◌∷◌}
use sensepro.Prelude.{
  String, Bool, true, false, not, ◌&&◌, Option, none, some, ◌==◌, if◌then◌else◌, get_or_default,
}
use sensepro.Prelude
use sensepro.Auth.Roles.{or_else, validated, home_for_role}
use sensepro.Auth.Resolve.{Claims, Session, token_role, metadata_role, metadata_candidate}

-- `email.split("@")[0]`.
until_at : String → String
until_at [] = ""
until_at (c ∷ s) = let rest = until_at s in if code c == b'@' then "" else c ∷ rest

abbrev mailbox : Option String → Option String
mailbox none = none
mailbox (some email) = some (until_at email)

unfoldable pub extract_supabase_role : (String → Option Claims) → Option Session → Option String
unfolding token_role
extract_supabase_role parse none = none
extract_supabase_role parse (some s) = elim (validated (token_role parse s.access_token)) [
  | none ↦ metadata_role s
  | some role ↦ some role
]

pub record AuthUser : Type 0 where
  pub id : String
  pub email : String
  pub role : Option String
  pub full_name : String

-- A Supabase user with the session that it comes with.
pub record SupabaseUser : Type 0 where
  pub id : String
  pub email : Option String
  pub full_name : Option String
  pub session : Session

unfoldable pub supabase_user : (String → Option Claims) → Option SupabaseUser → Option AuthUser
unfolding until_at extract_supabase_role
supabase_user parse none = none
supabase_user parse (some u) = some (record {
  id = u.id;
  email = get_or_default u.email "";
  role = extract_supabase_role parse (some u.session);
  full_name = get_or_default (or_else u.full_name (or_else (mailbox u.email) (some "User"))) "User";
})

pub record ClerkProfile : Type 0 where
  pub id : String
  pub email : Option String
  pub public_role : Option String
  pub unsafe_role : Option String
  pub full_name : Option String
  pub joined_names : String  -- first and last name, those that are there, with a space between

pub record ClerkState : Type 0 where
  pub loaded : Bool
  pub signed_in : Bool
  pub user : Option ClerkProfile

pub record AuthView : Type 0 where
  pub user : Option AuthUser
  pub loading : Bool

abbrev clerk_user : Bool → ClerkProfile → AuthUser
clerk_user dev u = record {
  id = u.id;
  email = get_or_default u.email "";
  role = validated (metadata_candidate dev u.public_role u.unsafe_role);
  full_name =
      get_or_default
        (or_else u.full_name (
          or_else (some u.joined_names)
            (or_else (mailbox (some (get_or_default u.email ""))) (some "User"))))
        "User";
}

abbrev signed_in_view : Bool → Option ClerkProfile → AuthView
signed_in_view dev none = record { user = none; loading = true }
signed_in_view dev (some u) = record { user = some (clerk_user dev u); loading = false }

-- `useAuth`, from Clerk's state and the Supabase user that the effect stored.
unfoldable pub use_auth : Bool → ClerkState → Option AuthUser → AuthView
unfolding until_at
use_auth dev c stored =
    if c.loaded
    then if c.signed_in
      then signed_in_view dev c.user
      else record { user = stored; loading = false }
    else record { user = none; loading = true }

pub record SessionUser : Type 0 where
  pub id : String
  pub email : String
  pub full_name : String
  pub roles : Prelude.List String

abbrev listed : Option String → Prelude.List String
listed none = Prelude.[]
listed (some role) = Prelude.◌∷◌ role Prelude.[]

-- `toSessionUser`: the role comes from the claim alone.
unfoldable pub to_session_user : (String → Option Claims) → Option SupabaseUser → Option SessionUser
unfolding token_role until_at
to_session_user parse none = none
to_session_user parse (some u) = some (record {
  id = u.id;
  email = get_or_default u.email "";
  full_name = get_or_default u.full_name (get_or_default (mailbox u.email) "User");
  roles = listed (token_role parse u.session.access_token);
})

abbrev starts_with_slash : String → Bool
starts_with_slash [] = false
starts_with_slash (c ∷ s) = code c == b'/'

abbrev starts_with_slashes : String → Bool
starts_with_slashes [] = false
starts_with_slashes (c ∷ s) = code c == b'/' && starts_with_slash s

-- A same-site absolute path: it begins with "/" and not with "//".
abbrev pub is_same_site : String → Bool
is_same_site path = starts_with_slash path && not (starts_with_slashes path)

abbrev safe_stored : Option String → Option String
safe_stored none = none
safe_stored (some path) = if is_same_site path then some path else none

-- Where `finish` navigates: to "/login" without a session, else to the stored destination if it is
-- a same-site path, else to the home of the token's role.
unfoldable pub finish_target : (String → Option Claims) → Option Session → Option String → String
unfolding token_role home_for_role
finish_target parse none stored = "/login"
finish_target parse (some s) stored =
    get_or_default (safe_stored stored) (home_for_role (token_role parse s.access_token))
