-- ===== src/Auth/Token.antt =====
-- Reading the payload of a JWT, as `resolveAuth`, `extractSupabaseRole`, `decodeJwtPayload` and
-- `roleFromToken` do: the second dot-separated part, from the URL alphabet to the base64 alphabet,
-- padded with "=" to a multiple of four. `JSON.parse(atob(…))` is a parameter of their callers.
use Prim.Native.Char.{Char, code}
use Prim.Native.String.{[], ◌∷◌}
use sensepro.Prelude.{
  ℕ, suc, zero, ◌-◌, ◌%◌, ◌≡◌, refl, ap, String, Option, none, some, ◌==◌, if◌then◌else◌, arith,
  ◌≢◌, ◌+◌, ◌<◌, Bool-cases, inl, inr,
}

abbrev pub text_length : String → ℕ
text_length [] = 0
text_length (c ∷ s) = suc (text_length s)

until_dot : String → String
until_dot [] = ""
until_dot (c ∷ s) = let rest = until_dot s in if code c == b'.' then "" else c ∷ rest

after_dot : String → Option String
after_dot [] = none
after_dot (c ∷ s) = let rest = after_dot s in if code c == b'.' then some s else rest

-- `token.split(".")[1]`.
unfoldable pub payload_part : String → Option String
unfolding until_dot after_dot
payload_part token = elim (after_dot token) [ none ↦ none | some rest ↦ some (until_dot rest) ]

-- `.replace(/-/g, "+").replace(/_/g, "/")`, on one character.
unfoldable pub to_base64 : Char → Char
to_base64 c = if code c == b'-' then "+" else if code c == b'_' then "/" else c

unfoldable pub map_text : (Char → Char) → String → String
map_text f [] = ""
map_text f (c ∷ s) = f c ∷ map_text f s

unfoldable pub equals_signs : ℕ → String
equals_signs zero = ""
equals_signs (suc n) = "=" ∷ equals_signs n

-- Appending, by the characters of the first text.
unfoldable pub append : String → String → String
append [] t = t
append (c ∷ s) t = c ∷ append s t

-- `base64.padEnd(base64.length + ((4 - (base64.length % 4)) % 4), "=")`.
unfoldable pub pad_end : String → String
unfolding equals_signs append
pad_end s = append s (equals_signs ((4 - text_length s % 4) % 4))

-- What is handed to `atob`.
unfoldable pub normalise_payload : String → String
unfolding to_base64 map_text pad_end
normalise_payload payload = pad_end (map_text to_base64 payload)

-- No character of the URL alphabet is left.
abbrev pub IsPlainBase64 : String → Type 0
IsPlainBase64 [] = Unit
IsPlainBase64 (c ∷ s) = (code c ≢ b'-') × (code c ≢ b'_') × IsPlainBase64 s

text_length-append : (s t : String) → text_length (append s t) ≡ text_length s + text_length t
unfolding append
text_length-append [] t = omega arith
text_length-append (c ∷ s) t = omega (arith, text_length-append s t)

text_length-equals_signs : (n : ℕ) → text_length (equals_signs n) ≡ n
unfolding equals_signs
text_length-equals_signs zero = refl
text_length-equals_signs (suc n) = ap suc (text_length-equals_signs n)

equals_signs-IsPlainBase64 : (n : ℕ) → IsPlainBase64 (equals_signs n)
unfolding equals_signs
equals_signs-IsPlainBase64 zero = tt
equals_signs-IsPlainBase64 (suc n) = (omega arith, omega arith, equals_signs-IsPlainBase64 n)

append-IsPlainBase64 :
    (s t : String) → IsPlainBase64 s → IsPlainBase64 t → IsPlainBase64 (append s t)
unfolding append
append-IsPlainBase64 [] t _ k = k
append-IsPlainBase64 (c ∷ s) t (p, q, h) k = (p, q, append-IsPlainBase64 s t h k)

to_base64_lem : (c : Char) → (code (to_base64 c) ≢ b'-') × (code (to_base64 c) ≢ b'_')
unfolding to_base64
to_base64_lem c = elim (Bool-cases (code c == b'-')) [
  | inl dash ↦ rw dash (omega arith, omega arith)
  | inr no_dash ↦ rw no_dash (elim (Bool-cases (code c == b'_')) [
    | inl under ↦ rw under (omega arith, omega arith)
    | inr no_under ↦ rw no_under (ground arith, ground arith)
  ])
]

map_text-IsPlainBase64 : (s : String) → IsPlainBase64 (map_text to_base64 s)
unfolding map_text
map_text-IsPlainBase64 [] = tt
map_text-IsPlainBase64 (c ∷ s) =
    let (dash, under) = to_base64_lem c in (dash, under, map_text-IsPlainBase64 s)

-- Whatever the payload, the text handed to `atob` has no "-" and no "_", and a length that is a
-- multiple of four; at most three characters were added.
pub normalise_payload_lem :
    (payload : String)
    → IsPlainBase64 (normalise_payload payload)
      × (text_length (normalise_payload payload) % 4 ≡ 0)
      × (text_length (normalise_payload payload) < text_length payload + 4)
unfolding normalise_payload pad_end
normalise_payload_lem payload =
    let s = map_text to_base64 payload in
    let n = (4 - text_length s % 4) % 4 in
    (
      append-IsPlainBase64 s (equals_signs n) (map_text-IsPlainBase64 payload)
          (equals_signs-IsPlainBase64 n),
      omega (arith, text_length-append s (equals_signs n), text_length-equals_signs n),
      omega (
        arith,
        text_length-append s (equals_signs n),
        text_length-equals_signs n,
        text_length-map payload,
      ),
    )
  where
    text_length-map : (t : String) → text_length (map_text to_base64 t) ≡ text_length t
    text_length-map [] = refl
    text_length-map (c ∷ t) = ap suc (text_length-map t)
