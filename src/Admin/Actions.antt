-- ===== src/Admin/Actions.antt =====
-- `DeletionActions` of routes/_shell.admin.tsx: the purge needs a second click, the denial does not.
use sensepro.Prelude.{
  ◌≡◌, refl, Bool, true, false, not, ◌&&◌, Option, none, some, List, [], ◌∷◌, arith, any,
  if◌then◌else◌,
}

pub record Buttons : Type 0 where
  pub confirming : Bool
  pub busy : Bool

-- Approve & purge, Cancel, Confirm, Deny, and the end of the call that a button made.
pub data Click : Type 0 where
  ask cancel confirm deny finish : Click

-- Whether the button is there and enabled, as rendered.
unfoldable pub is_enabled : Click → Buttons → Bool
is_enabled ask b = not b.confirming
is_enabled cancel b = b.confirming && not b.busy
is_enabled confirm b = b.confirming && not b.busy
is_enabled deny b = not b.confirming
is_enabled finish b = b.busy

-- What a click does to the buttons, and the decision that `onResolve` is called with.
unfoldable pub click : Click → Buttons → Buttons × Option Bool
click ask b = (record b { confirming = true }, none)
click cancel b = (record b { confirming = false }, none)
click confirm b = (record b { busy = true }, some true)
click deny b = (record b { busy = true }, some false)
click finish b = (record { confirming = false; busy = false }, none)

-- The calls of a series of clicks; a button that is not enabled does nothing.
unfoldable pub calls : List Click → Buttons → List Bool
unfolding is_enabled click
calls [] b = []
calls (c ∷ cs) b =
    let after = calls cs (click c b).0 in
    let stay = calls cs b in
    if is_enabled c b
    then (elim (click c b).1 [ none ↦ after | some approve ↦ approve ∷ after ])
    else stay

abbrev pub is_ask : Click → Bool
is_ask ask = true
is_ask _ = false

abbrev is_purge : Bool → Bool
is_purge approve = approve

-- From buttons that do not ask to confirm, clicks without one on Approve & purge never start a purge.
pub calls-ask :
    (cs : List Click) (b : Buttons)
    → b.confirming ≡ false
    → any is_purge (calls cs b) ≡ true
    → any is_ask cs ≡ true
unfolding calls is_enabled click
calls-ask [] b h p = p
calls-ask (ask ∷ cs) b h p = refl
calls-ask (cancel ∷ cs) b h p = ground (arith, calls-ask cs b h)
calls-ask (confirm ∷ cs) b h p = ground (arith, calls-ask cs b h)
calls-ask (deny ∷ cs) b h p = ground (arith, calls-ask cs (click deny b).0 h)
calls-ask (finish ∷ cs) b h p =
    ground (arith, calls-ask cs b h, calls-ask cs (click finish b).0 refl)
