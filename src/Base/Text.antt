-- ===== src/Base/Text.antt =====
-- Texts: the code points of a native string, character classes, and the `trim` test.
use Prim.Native.Nat.{ℕ}
use Prim.Native.Char.{code}
use Prim.Native.String.{String}
use mathlib.Core.Bool.{Bool, false, ◌&&◌, ◌||◌}
use mathlib.Core.List.{List, [], ◌∷◌}
use text.Mathlib.Text.{◌==◌ as str_eq}
use voxel_steward.Base.Tests.{leb, ◌==◌}
use voxel_steward.Base.Lists.{all, any, length}

unfoldable pub codes : String → List ℕ
codes String.[] = []
codes (String.◌∷◌ c s) = code c ∷ codes s

abbrev pub is_lower : ℕ → Bool
is_lower c = leb b'a' c && leb c b'z'

abbrev pub is_upper : ℕ → Bool
is_upper c = leb b'A' c && leb c b'Z'

abbrev pub is_digit : ℕ → Bool
is_digit c = leb b'0' c && leb c b'9'

-- `[._-]`
abbrev pub is_joiner : ℕ → Bool
is_joiner c = c == b'.' || c == b'_' || c == b'-'

-- `^FIRST REST{0,most}$`
unfoldable pub matches_token : (ℕ → Bool) → (ℕ → Bool) → ℕ → List ℕ → Bool
matches_token first rest most [] = false
matches_token first rest most (c ∷ cs) = first c && all rest cs && leb (length cs) most

-- The white space and line terminators that `String.prototype.trim` removes.
is_space : ℕ → Bool
is_space c =
    leb 9 c && leb c 13
    || c == 32
    || c == 160
    || c == 0x1680
    || leb 0x2000 c && leb c 0x200a
    || c == 0x2028
    || c == 0x2029
    || c == 0x202f
    || c == 0x205f
    || c == 0x3000
    || c == 0xfeff

-- `value.trim() === ""`
unfoldable pub is_blank : String → Bool
unfolding is_space codes
is_blank value = all is_space (codes value)

-- `names.includes(name)`
abbrev pub includes : List String → String → Bool
includes names name = any (λ n. str_eq n name) names
