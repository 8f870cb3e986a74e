-- ===== src/Lp/Sorted.antt =====
-- internal/exportfmt/encode.go: the order in which the exporter writes the tags.
use influxdb_desk.Base.{ℕ, ◌+◌, ◌≡◌, Bool, false, [], ◌∷◌, if◌then◌else◌}
use influxdb_desk.Decimal.{Bytes}
use influxdb_desk.Lp.{Tags, text_below}

-- How many of the tags pass a test.
unfoldable pub count : (Bytes × Bytes → Bool) → Tags → ℕ
count p [] = 0
count p (tag ∷ rest) = (if p tag then 1 else 0) + count p rest

-- No key is below the key before it.
abbrev pub NotBelow : Bytes × Bytes → Tags → Type 0
NotBelow tag [] = Unit
NotBelow tag (next ∷ rest) = text_below next.0 tag.0 ≡ false

abbrev pub Ascending : Tags → Type 0
Ascending [] = Unit
Ascending (tag ∷ rest) = NotBelow tag rest × Ascending rest
