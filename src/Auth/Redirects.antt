-- ===== src/Auth/Redirects.antt =====
-- Where the sign-in callback may send a user.
use Prim.Native.Char.{Char, code}
use Prim.Native.String.{[], ◌∷◌}
use sensepro.Prelude.{
  ◌≢◌, ◌≡◌, refl, ap, inl, inr, ◌⊎◌, String, true, Option, none, some, arith, Bool-cases,
}
use sensepro.Prelude.Dict.{get}
use sensepro.Auth.Roles.{app_roles, includes, role_home, role_home_table, home_for_role}
use sensepro.Auth.Resolve.{Claims, Session, token_role}
use sensepro.Auth.Views.{is_same_site, finish_target}
use sensepro.Auth.Laws.{includes-cases}

home_for_role-same_site : (o : Option String) → is_same_site (home_for_role o) ≡ true
unfolding home_for_role role_home get
home_for_role-same_site none = refl
home_for_role-same_site (some r) = elim (Bool-cases (includes app_roles r)) [
  | inl known ↦ elim (includes-cases r known) [
    | inl e ↦ rw e refl
    | inr rest ↦ elim rest [
      | inl e ↦ rw e refl
      | inr rest' ↦ elim rest' [ inl e ↦ rw e refl | inr e ↦ rw e refl ]
    ]
  ]
  | inr unknown ↦
      let gone : get r role_home_table ≡ none = ground arith in
      let page : home_for_role (some r) ≡ "/no-role" = ground (arith, gone) in ap is_same_site page
]

finish_target-tested :
    (parse : String → Option Claims) (s : Option Session) (stored : Option String)
    → is_same_site (finish_target parse s stored) ≡ true
unfolding finish_target
finish_target-tested parse none stored = refl
finish_target-tested parse (some s) none = home_for_role-same_site (token_role parse s.access_token)
finish_target-tested parse (some s) (some path) = elim (Bool-cases (is_same_site path)) [
  | inl safe ↦ rw safe safe
  | inr unsafe ↦ rw unsafe (home_for_role-same_site (token_role parse s.access_token))
]

-- A text that begins with one slash, and not with two.
abbrev pub IsLocal : String → Type 0
IsLocal path =
    (first : Char) × (rest : String) × (path ≡ first ∷ rest)
    × (code first ≡ b'/')
    × ((rest ≡ [])
        ⊎ ((second : Char) × (more : String) × (rest ≡ second ∷ more) × (code second ≢ b'/')))

is_same_site-IsLocal : (path : String) → is_same_site path ≡ true → IsLocal path
is_same_site-IsLocal [] h = absurd (ground (arith, h))
is_same_site-IsLocal (c ∷ []) h = (c, [], refl, ground (arith, h), inl refl)
is_same_site-IsLocal (c ∷ (d ∷ s)) h = (
  c,
  d ∷ s,
  refl,
  ground (arith, h),
  inr (d, s, refl, λ slash. absurd (ground (arith, h, slash))),
)

-- Whatever destination was stored and whatever the session claims, the sign-in callback navigates
-- to a path that begins with one slash and not with two: never to another site.
pub finish_target-same_site :
    (parse : String → Option Claims) (s : Option Session) (stored : Option String)
    → IsLocal (finish_target parse s stored)
finish_target-same_site parse s stored =
    is_same_site-IsLocal (finish_target parse s stored) (finish_target-tested parse s stored)
