-- ===== src/Base/Text.antt =====
-- C strings as lists of bytes, up to their NUL; past its end a list reads as NUL.
use Prim.Native.Nat.{ℕ, zero, suc, ◌+◌}
use Prim.Native.Char.{code}
use Prim.Native.String.{String}
use mathlib.Core.Bool.{Bool, true, false, ◌&&◌}
use mathlib.Core.List.{List, [], ◌∷◌}
use castserver.Base.Tests.{◌==◌, leb, if◌then◌else◌}

-- The bytes of an ASCII text.
abbrev pub codes : String → List ℕ
codes String.[] = []
codes (String.◌∷◌ c s) = code c ∷ codes s

abbrev pub tolower : ℕ → ℕ
tolower c = if leb b'A' c && leb c b'Z' then c + 32 else c

-- memcmp(a, b, length b) == 0, for `a` that is as long as `b`.
unfoldable pub eq_bytes : List ℕ → List ℕ → Bool
eq_bytes [] [] = true
eq_bytes [] (b ∷ ys) = false
eq_bytes (a ∷ xs) [] = false
eq_bytes (a ∷ xs) (b ∷ ys) = a == b && eq_bytes xs ys

-- strncasecmp(a, b, n) == 0
unfoldable pub eq_ncase : ℕ → List ℕ → List ℕ → Bool
eq_ncase zero a b = true
eq_ncase (suc n) [] [] = true
eq_ncase (suc n) [] (b ∷ ys) = b == 0
eq_ncase (suc n) (a ∷ xs) [] = a == 0
eq_ncase (suc n) (a ∷ xs) (b ∷ ys) =
    if tolower a == tolower b then (if a == 0 then true else eq_ncase n xs ys) else false
