-- ===== src/Agent/Bucket/Base64.antt =====
-- `decodeBase64URL` of internal/agent/bucket.go, with the URL alphabet of package encoding/base64:
-- line ends are skipped, the unused bits of the last byte are not checked.
use tailscale_metrics_discov.Common.{
  ℕ, ◌+◌, ◌-◌, ◌*◌, ◌/◌, ◌%◌, ◌≡◌, refl, Bool, ◌&&◌, ◌||◌, [], ◌∷◌, Option, none, some, leb, eqb,
  if◌then◌else◌, keep_if, not,
}
use tailscale_metrics_discov.Common.Text.{Text, text}

sextet : ℕ → Option ℕ
sextet c =
    if leb b'A' c && leb c b'Z'
    then some (c - 65)
    else if leb b'a' c && leb c b'z'
    then some (c - 97 + 26)
    else if leb b'0' c && leb c b'9'
    then some (c - 48 + 52)
    else if eqb c b'-'
    then some 62
    else if eqb c b'_'
    then some 63
    else none

infixl 5 ◌>>=◌
abbrev ◌>>=◌ : {A B : Type 0} → Option A → (A → Option B) → Option B
none >>= f = none
some a >>= f = f a

two : ℕ → ℕ → Option Text
unfolding sextet
two a b = do x ← sextet a; y ← sextet b; some ((x * 4 + y / 16) ∷ [])

three : ℕ → ℕ → ℕ → Option Text
unfolding sextet
three a b c = do
  x ← sextet a
  y ← sextet b
  z ← sextet c
  some ((x * 4 + y / 16) ∷ (y % 16 * 16 + z / 4) ∷ [])

four : ℕ → ℕ → ℕ → ℕ → Text → Option Text
unfolding sextet
four a b c d rest = do
  x ← sextet a
  y ← sextet b
  z ← sextet c
  w ← sextet d
  some ((x * 4 + y / 16) ∷ (y % 16 * 16 + z / 4) ∷ (z % 4 * 64 + w) ∷ rest)

-- base64.RawURLEncoding
raw_decode : Text → Option Text
unfolding two three four
raw_decode [] = some []
raw_decode (a ∷ []) = none
raw_decode (a ∷ b ∷ []) = two a b
raw_decode (a ∷ b ∷ c ∷ []) = three a b c
raw_decode (a ∷ b ∷ c ∷ d ∷ s) = do rest ← raw_decode s; four a b c d rest

-- The last four bytes of a padded text.
last_quad : ℕ → ℕ → ℕ → ℕ → Option Text
unfolding two three four
last_quad a b c d =
    if eqb d b'=' then (if eqb c b'=' then two a b else three a b c) else four a b c d []

-- base64.URLEncoding
padded_decode : Text → Option Text
unfolding last_quad
padded_decode [] = some []
padded_decode (a ∷ []) = none
padded_decode (a ∷ b ∷ []) = none
padded_decode (a ∷ b ∷ c ∷ []) = none
padded_decode (a ∷ b ∷ c ∷ d ∷ []) = last_quad a b c d
padded_decode (a ∷ b ∷ c ∷ d ∷ e ∷ s) = do rest ← padded_decode (e ∷ s); four a b c d rest

is_line_end : ℕ → Bool
is_line_end c = eqb c 10 || eqb c 13

unfoldable pub decode_base64_url : Text → Option Text
unfolding raw_decode padded_decode is_line_end keep_if
decode_base64_url s =
    let bytes = keep_if (λ c. not (is_line_end c)) s in
    elim (raw_decode bytes) [ some v ↦ some v | none ↦ padded_decode bytes ]

decode_tests :
    (decode_base64_url (text "L3Zhci90bXA") ≡ some (text "/var/tmp"))
    × (decode_base64_url (text "YQ==") ≡ some (text "a"))
    × (decode_base64_url (text "YWI=") ≡ some (text "ab"))
    × (decode_base64_url (text "Y") ≡ none)
unfolding decode_base64_url text
decode_tests = (refl, refl, refl, refl)
