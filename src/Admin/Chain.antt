-- ===== src/Admin/Chain.antt =====
-- The column "Chain" of the audit table in routes/_shell.admin.tsx. The entries are newest first, and the
-- mark of a row compares its `prev_hash` with the hash of the row below.
use sensepro.Prelude.{
  ℕ, ◌≡◌, ◌↔◌, Bool, true, false, not, Option, none, some, List, [], ◌∷◌, ◌++◌, length, filter,
  str_eq, eq_iff, arith,
}
use sensepro.Admin.Tables.{AuditEntry}

-- `audit[i + 1]`, seen from row i.
abbrev pub below : List AuditEntry → Option AuditEntry
below [] = none
below (b ∷ _) = some b

-- `!parent || parent.hash === a.prev_hash`.
unfoldable pub is_linked : AuditEntry → Option AuditEntry → Bool
is_linked a none = true
is_linked a (some parent) = str_eq parent.hash a.prev_hash

unfoldable pub chain_marks : List AuditEntry → List Bool
unfolding is_linked
chain_marks [] = []
chain_marks (a ∷ older) = is_linked a (below older) ∷ chain_marks older

-- The rows that are marked as broken.
abbrev pub broken : List AuditEntry → ℕ
broken entries = length (filter not (chain_marks entries))

-- Each entry's `prev_hash` is the hash of the one before it.
abbrev pub IsChain : List AuditEntry → Type 0
IsChain [] = Unit
IsChain (a ∷ []) = Unit
IsChain (a ∷ b ∷ older) = (b.hash ≡ a.prev_hash) × IsChain (b ∷ older)

-- No row is marked as broken exactly when the rows that are shown form a chain.
pub broken-IsChain : (entries : List AuditEntry) → (broken entries ≡ 0) ↔ IsChain entries
unfolding chain_marks is_linked
broken-IsChain [] = ground arith
broken-IsChain (a ∷ []) = ground arith
broken-IsChain (a ∷ b ∷ older) =
    ground (arith, broken-IsChain (b ∷ older), eq_iff b.hash a.prev_hash)

IsChain-tail : (a : AuditEntry) (older : List AuditEntry) → IsChain (a ∷ older) → IsChain older
IsChain-tail a [] h = tt
IsChain-tail a (b ∷ older) (_, h) = h

-- In a chain, an entry that has a newer one above it is replaced by one with another hash and the same
-- `prev_hash`: exactly one row is marked as broken, however many entries are above and below.
pub broken-tampered :
    (newer older : List AuditEntry) (a b c : AuditEntry)
    → IsChain (newer ++ a ∷ b ∷ older)
    → c.prev_hash ≡ b.prev_hash
    → str_eq c.hash b.hash ≡ false
    → broken (newer ++ a ∷ c ∷ older) ≡ 1
unfolding chain_marks is_linked
broken-tampered [] [] a b c h same other =
    ground (arith, eq_iff c.hash a.prev_hash, eq_iff c.hash b.hash)
broken-tampered [] (d ∷ older) a b c (ab, (bd, h)) same other = ground (
  arith,
  broken-IsChain (d ∷ older),
  eq_iff c.hash a.prev_hash,
  eq_iff c.hash b.hash,
  eq_iff d.hash c.prev_hash,
)
broken-tampered (n ∷ []) older a b c (na, h) same other =
    ground (arith, broken-tampered [] older a b c h same other, eq_iff a.hash n.prev_hash)
broken-tampered (n ∷ m ∷ newer) older a b c (nm, h) same other =
    ground (arith, broken-tampered (m ∷ newer) older a b c h same other, eq_iff m.hash n.prev_hash)
