-- ===== src/Http.antt =====
-- What a request through `fetch` can come to. The backend is not code of this repository's client:
-- its answers are arguments of the definitions that make the requests.
use sensepro.Prelude.{ℕ, String, Bool, true, false, Option, List, [], get_or_default}

-- A reply with its decoded body; a reply that is not `ok`, with its status and the detail that could
-- be read from it; a request, or the decoding of its body, that throws with a message.
pub data Reply {ℓ} (A : Type ℓ) : Type ℓ where
  replied : A → Reply A
  refused : ℕ → Option String → Reply A
  thrown : String → Reply A

abbrev pub is_replied {ℓ} : {A : Type ℓ} → Reply A → Bool
is_replied (replied a) = true
is_replied _ = false

-- What an asynchronous function returns, or the error that it throws.
pub data Outcome {ℓ} (A : Type ℓ) (E : Type 0) : Type ℓ where
  ok : A → Outcome A E
  err : E → Outcome A E

abbrev pub is_ok {ℓ} : {A : Type ℓ} {E : Type 0} → Outcome A E → Bool
is_ok (ok a) = true
is_ok (err e) = false

-- A query of the database client: its rows, which may be missing, or its error.
pub data Query {ℓ} (A : Type ℓ) : Type ℓ where
  rows : Option A → Query A
  failed : String → Query A

-- `try { … if (res.ok) return await res.json() } catch {}` followed by `if (error) throw error;
-- return data ?? empty`.
unfoldable pub api_or_database {ℓ} : {A : Type ℓ} → A → Reply A → Query A → Outcome A String
api_or_database empty (replied a) query = ok a
api_or_database empty _ (rows found) = ok (get_or_default found empty)
api_or_database empty _ (failed e) = err e

infixl 5 ◌>>=◌
abbrev pub ◌>>=◌ {ℓ κ} :
    {A : Type ℓ} {B : Type κ} {E : Type 0} → Outcome A E → (A → Outcome B E) → Outcome B E
ok a >>= f = f a
err e >>= f = err e

-- `const { data, error } = await query; if (error) throw error; data ?? []`.
abbrev pub checked {ℓ} : {A : Type ℓ} → Query (List A) → Outcome (List A) String
checked (rows found) = ok (get_or_default found [])
checked (failed e) = err e
