-- ===== src/Base/Base64.antt =====
-- encoding/base64's RawURLEncoding, which internal/session, internal/csrf and internal/reviews use.
use Prim.Native.Nat.{ℕ, ◌+◌, ◌-◌, ◌*◌, ◌/◌, ◌%◌}
use mathlib.Core.List.{List, [], ◌∷◌}
use gatstogo.Base.Tests.{ltb, ◌==◌, if◌then◌else◌}

-- A digit below 64: A-Z, a-z, 0-9, then - and _.
base64_digit : ℕ → ℕ
base64_digit n =
    if ltb n 26
    then n + b'A'
    else if ltb n 52
    then n - 26 + b'a'
    else if ltb n 62
    then n - 52 + b'0'
    else if n == 62
    then b'-'
    else b'_'

-- Of bytes; no padding.
unfoldable pub base64url : List ℕ → List ℕ
unfolding base64_digit
base64url [] = []
base64url (a ∷ []) = base64_digit (a / 4) ∷ base64_digit (a % 4 * 16) ∷ []
base64url (a ∷ b ∷ []) =
    base64_digit (a / 4) ∷ base64_digit (a % 4 * 16 + b / 16) ∷ base64_digit (b % 16 * 4) ∷ []
base64url (a ∷ b ∷ c ∷ rest) =
    base64_digit (a / 4)
    ∷ base64_digit (a % 4 * 16 + b / 16)
    ∷ base64_digit (b % 16 * 4 + c / 64)
    ∷ base64_digit (c % 64)
    ∷ base64url rest
