-- ===== src/Base/Text.antt =====
-- Texts as Go's `strings` package sees them: what the program asks of white space and line ends.
use Prim.Native.Char.{code}
use Prim.Native.Nat.{ℕ}
use Prim.Native.String.{String}
use mathlib.Core.Bool.{Bool, true, false, ◌&&◌, ◌||◌}
use influxdb_desk.Base.Tests.{leb, ◌==◌}

-- `unicode.IsSpace`
unfoldable pub is_space : ℕ → Bool
is_space c =
    (leb 9 c && leb c 13)
    || c == 32
    || c == 0x85
    || c == 0xa0
    || c == 0x1680
    || (leb 0x2000 c && leb c 0x200a)
    || c == 0x2028
    || c == 0x2029
    || c == 0x202f
    || c == 0x205f
    || c == 0x3000

-- `strings.TrimSpace(s) == ""`
unfoldable pub is_blank : String → Bool
unfolding is_space
is_blank String.[] = true
is_blank (String.◌∷◌ c s) = is_space (code c) && is_blank s

-- `strings.ContainsAny(s, "\r\n")`
unfoldable pub contains_newline : String → Bool
contains_newline String.[] = false
contains_newline (String.◌∷◌ c s) = code c == 13 || code c == 10 || contains_newline s
