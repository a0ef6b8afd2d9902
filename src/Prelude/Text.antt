-- ===== src/Prelude/Text.antt =====
-- Python's `str` as its code points, for the code that looks at characters.
use Prim.Native.Nat.{ℕ}
use Prim.Native.Char.{code}
use Prim.Native.String.{String}
use mathlib.Core.Bool.{Bool, ◌&&◌, ◌||◌}
use mathlib.Core.List.{List, [], ◌∷◌}
use mnemostroma.Prelude.Tests.{leb, ◌=ℕ◌}
use mnemostroma.Prelude.Lists.{length, any, all}

abbrev pub codes : String → List ℕ
codes String.[] = []
codes (String.◌∷◌ c s) = code c ∷ codes s

-- `str.isspace` of one character
abbrev pub is_space : ℕ → Bool
is_space c =
    (leb 9 c && leb c 13)
    || (leb 28 c && leb c 32)
    || c =ℕ 0x85
    || c =ℕ 0xa0
    || c =ℕ 0x1680
    || (leb 0x2000 c && leb c 0x200a)
    || c =ℕ 0x2028
    || c =ℕ 0x2029
    || c =ℕ 0x202f
    || c =ℕ 0x205f
    || c =ℕ 0x3000

-- `not s.strip()`: nothing is left when white space is stripped from both ends
unfoldable pub is_blank : String → Bool
is_blank s = all is_space (codes s)

-- `"\x00" in s`
unfoldable pub has_nul : String → Bool
has_nul s = any (λ c. c =ℕ 0) (codes s)

-- `len(s)`
unfoldable pub len : String → ℕ
len s = length (codes s)
