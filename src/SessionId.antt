-- ===== src/SessionId.antt =====
-- packages/core/src/runtime/session-store.ts: which texts are ids of sessions.
use Prim.Native.Char.{code}
use Prim.Native.String.{String, [], ◌∷◌}
use athena_console.Prelude.{ℕ, Bool, true, ◌&&◌, ◌||◌, not, leb, ◌==◌, is_empty}

abbrev between : ℕ → ℕ → ℕ → Bool
between low high n = leb low n && leb n high

-- `[A-Za-z0-9._-]`
abbrev is_id_code : ℕ → Bool
is_id_code n =
    between 65 90 n || between 97 122 n || between 48 57 n || n == 46 || n == 95 || n == 45

all_id_codes : String → Bool
all_id_codes [] = true
all_id_codes (c ∷ s) = is_id_code (code c) && all_id_codes s

-- `SESSION_ID_PATTERN.test(sessionId)`
unfoldable pub is_session_id : String → Bool
unfolding all_id_codes
is_session_id session_id = not (is_empty session_id) && all_id_codes session_id
