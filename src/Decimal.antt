-- ===== src/Decimal.antt =====
-- internal/tasks/types.go: exact decimal numbers as texts (revisions, sequence numbers, offsets);
-- internal/transfer/types.go and too_large.go: comparing and halving them. A text is its bytes.
pub mod RoundTrip
pub mod Order
pub mod Equality
mod Tests
use influxdb_desk.Base.{
  ℕ, zero, suc, ◌+◌, ◌-◌, ◌*◌, ◌/◌, ◌%◌, Bool, true, false, ◌&&◌, ◌||◌, not, Option, none, some,
  List, [], ◌∷◌, ◌++◌, ltb, leb, ◌==◌, if◌then◌else◌, length, Result, ok, err, guard, or_fail,
  ◌>>=◌, ◌>>◌,
}

abbrev pub Bytes : Type 0
Bytes = List ℕ

pub data Error : Type 0 where
  invalid_decimal : Error

abbrev pub is_digit : ℕ → Bool
is_digit c = leb b'0' c && leb c b'9'

-- The digits of `big.Int.SetString(value, 10)` behind what was read so far.
unfoldable pub parse_from : ℕ → Bytes → Option ℕ
parse_from acc [] = some acc
parse_from acc (c ∷ cs) =
    let rest = parse_from (acc * 10 + (c - b'0')) cs in if is_digit c then rest else none

unfoldable pub parse_digits : Bytes → Option ℕ
unfolding parse_from
parse_digits [] = none
parse_digits (c ∷ cs) = parse_from 0 (c ∷ cs)

-- `big.Int.SetString(value, 10)`: the sign, true for `-`, and the magnitude.
unfoldable pub set_string : Bytes → Option (Bool × ℕ)
unfolding parse_digits
set_string [] = none
set_string (c ∷ cs) =
    if c == b'-'
    then elim (parse_digits cs) [ none ↦ none | some n ↦ some (true, n) ]
    else if c == b'+'
    then elim (parse_digits cs) [ none ↦ none | some n ↦ some (false, n) ]
    else elim (parse_digits (c ∷ cs)) [ none ↦ none | some n ↦ some (false, n) ]

-- `big.Int.String()` of a number that is not negative. A number is below 10 to the number itself,
-- so it is enough fuel.
unfoldable pub print_fuel : ℕ → ℕ → Bytes
print_fuel zero n = (b'0' + n) ∷ []
print_fuel (suc f) n =
    let front = print_fuel f (n / 10) in
    if ltb n 10 then (b'0' + n) ∷ [] else front ++ (b'0' + n % 10) ∷ []

unfoldable pub print : ℕ → Bytes
unfolding print_fuel
print n = print_fuel n n

-- `value == "" || strings.HasPrefix(value, "+") || (len(value) > 1 && value[0] == '0')`
unfoldable pub malformed : Bytes → Bool
malformed [] = true
malformed (c ∷ []) = c == b'+'
malformed (c ∷ d ∷ cs) = c == b'+' || c == b'0'

abbrev pub negative : Bool × ℕ → Bool
negative (minus, n) = minus && not (n == 0)

unfoldable pub canonical_decimal : Bytes → Result Error Bytes
unfolding malformed
canonical_decimal value = do
  guard (not (malformed value)) invalid_decimal
  n ← or_fail (set_string value) invalid_decimal
  guard (not (negative n)) invalid_decimal
  ok (print n.1)

-- The number that `n.SetString(canonical, 10)` leaves in a fresh `big.Int`: zero where it fails.
abbrev pub magnitude : Option (Bool × ℕ) → ℕ
magnitude none = 0
magnitude (some (minus, n)) = n

unfoldable pub increment_decimal : Bytes → Result Error Bytes
unfolding canonical_decimal
increment_decimal value = do
  canonical ← canonical_decimal value
  ok (print (magnitude (set_string canonical) + 1))

unfoldable pub halve_positive_decimal : Bytes → Result Error Bytes
unfolding canonical_decimal
halve_positive_decimal value = do
  canonical ← canonical_decimal value
  let n = magnitude (set_string canonical)
  guard (ltb 0 n) invalid_decimal
  ok (print (if n / 2 == 0 then 1 else n / 2))

-- The results -1, 0 and 1 of `big.Int.Cmp`.
pub data Comparison : Type 0 where
  less same greater : Comparison

abbrev pub cmp : ℕ → ℕ → Comparison
cmp m n = if ltb m n then less else if m == n then same else greater

-- `compareCanonicalDecimals`
unfoldable pub compare_canonical_decimals : Bytes → Bytes → Result Error Comparison
unfolding canonical_decimal
compare_canonical_decimals left right = do
  l ← canonical_decimal left
  r ← canonical_decimal right
  ok (cmp (magnitude (set_string l)) (magnitude (set_string r)))

-- Go's `==` on two byte texts.
unfoldable pub bytes_eq : Bytes → Bytes → Bool
bytes_eq [] [] = true
bytes_eq (x ∷ xs) (y ∷ ys) = x == y && bytes_eq xs ys
bytes_eq _ _ = false
