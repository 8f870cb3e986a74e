-- ===== src/Decimal/RoundTrip.antt =====
-- Printing and reading, and what the canonical form is.
use influxdb_desk.Base.{
  ℕ, zero, suc, ◌+◌, ◌-◌, ◌*◌, ◌/◌, ◌%◌, ◌≤◌, ◌<◌, ◌≡◌, refl, sym, ap, ◌∙◌, Bool, true, false, ◌⊎◌,
  inl, inr, Option, none, some, [], ◌∷◌, ◌++◌, ltb, ◌==◌, if◌then◌else◌, ok, err, arith, Result,
  Bool-cases, subst,
}
use mathlib.Core.List.{append_assoc, append-nil}
use influxdb_desk.Decimal.{
  Bytes, Error, is_digit, parse_from, parse_digits, set_string, print_fuel, print, malformed,
  invalid_decimal, negative, canonical_decimal, Comparison, less, same, greater, cmp,
  compare_canonical_decimals, increment_decimal, halve_positive_decimal,
}

-- More fuel prints the same.
print_fuel_enough : (f g n : ℕ) → n ≤ f → n ≤ g → print_fuel f n ≡ print_fuel g n
unfolding print_fuel
print_fuel_enough zero zero n a b = refl
print_fuel_enough zero (suc g) n a b = ground arith
print_fuel_enough (suc f) zero n a b = ground arith
print_fuel_enough (suc f) (suc g) n a b = ground (arith, print_fuel_enough f g (n / 10))

pub print-small : (n : ℕ) → n < 10 → print n ≡ (b'0' + n) ∷ []
unfolding print
print-small zero h = refl
print-small (suc n) h = ground arith

print_fuel-step :
    (f m d : ℕ)
    → m ≤ f
    → 0 < m
    → d < 10
    → print_fuel (suc f) (m * 10 + d) ≡ print_fuel m m ++ (b'0' + d) ∷ []
unfolding print_fuel
print_fuel-step f m d fits pos h =
    let quotient : (m * 10 + d) / 10 ≡ m = omega arith in
    let digit : (m * 10 + d) % 10 ≡ d = omega arith in
    rw (quotient, digit) (ground (arith, print_fuel_enough f m m))

pub print-step : (m d : ℕ) → 0 < m → d < 10 → print (m * 10 + d) ≡ print m ++ (b'0' + d) ∷ []
unfolding print
print-step m d pos h =
    let fuel : suc (m * 10 + d - 1) ≡ m * 10 + d = omega arith in
    subst (λ f. print_fuel f (m * 10 + d) ≡ print_fuel m m ++ (b'0' + d) ∷ []) fuel
      (print_fuel-step (m * 10 + d - 1) m d (omega arith) pos h)

parse_from-append :
    (acc : ℕ) (xs : Bytes) (front last : ℕ)
    → last < 10
    → parse_from acc xs ≡ some front
    → parse_from acc (xs ++ (b'0' + last) ∷ []) ≡ some (front * 10 + last)
unfolding parse_from
parse_from-append acc [] front last small_enough e = ground arith
parse_from-append acc (c ∷ cs) front last small_enough e =
    ground (arith, parse_from-append (acc * 10 + (c - b'0')) cs front last small_enough)

pub parse_from-print : (bound v : ℕ) → v ≤ bound → parse_from 0 (print v) ≡ some v
unfolding parse_from
parse_from-print zero v small_enough =
    let e : v ≡ 0 = omega arith in rw (e, print-small 0 (omega arith)) (ground arith)
parse_from-print (suc bound) v small_enough = elim (Bool-cases (ltb v 10)) [
  | inl small ↦ rw (print-small v (ground arith)) (ground arith)
  | inr large ↦
      let split : v ≡ v / 10 * 10 + v % 10 = omega arith in
      subst (λ t. parse_from 0 (print t) ≡ some t) (sym split)
        (rw (print-step (v / 10) (v % 10) (ground arith) (omega arith)) (
          parse_from-append 0 (print (v / 10)) (v / 10) (v % 10) (omega arith)
            (parse_from-print bound (v / 10) (ground arith))))
]

-- The first byte of a printed number is a digit, and not `0` unless the number is zero.
pub print_head :
    (k n : ℕ)
    → n ≤ k
    → (c : ℕ) × (cs : Bytes) × (print n ≡ c ∷ cs)
      × (is_digit c ≡ true)
      × ((n ≡ 0) × (cs ≡ []) ⊎ (b'0' < c))
print_head zero n h =
    (b'0' + n, [], print-small n (omega arith), ground arith, inl (omega arith, refl))
print_head (suc k) n h = elim (Bool-cases (ltb n 10)) [
  | inl small ↦ (b'0' + n, [], print-small n (ground arith), ground arith, ground arith)
  | inr large ↦
      let (c, cs, e, digit, first) = print_head k (n / 10) (ground arith) in
      let split : n ≡ n / 10 * 10 + n % 10 = omega arith in
      (
        c,
        cs ++ (b'0' + n % 10) ∷ [],
        ap print split
            ∙ print-step (n / 10) (n % 10) (ground arith) (omega arith)
            ∙ ap (λ (t : Bytes). t ++ (b'0' + n % 10) ∷ []) e,
        digit,
        ground arith,
      )
]

-- Reading on from a number above zero appends to its print.
print-parse_from :
    (acc : ℕ) (xs : Bytes) (n : ℕ)
    → 0 < acc
    → parse_from acc xs ≡ some n
    → print n ≡ print acc ++ xs
unfolding parse_from
print-parse_from acc [] n pos e = ground (arith, append-nil (print acc))
print-parse_from acc (c ∷ cs) n pos e = elim (Bool-cases (is_digit c)) [
  | inl digit ↦
      let back : b'0' + (c - b'0') ≡ c = ground arith in
      print-parse_from (acc * 10 + (c - b'0')) cs n (omega arith) (ground arith)
      ∙ ap (λ (t : Bytes). t ++ cs) (print-step acc (c - b'0') pos (ground arith))
      ∙ append_assoc (print acc) ((b'0' + (c - b'0')) ∷ []) cs
      ∙ ap (λ (t : ℕ). print acc ++ t ∷ cs) back
  | inr other ↦ absurd (ground arith)
]

set_string-print : (n : ℕ) → set_string (print n) ≡ some (false, n)
unfolding set_string parse_digits
set_string-print n =
    let (c, cs, e, digit, first) = print_head n n (omega arith) in
    ground (arith, parse_from-print n n (omega arith))

malformed-print : (n : ℕ) → malformed (print n) ≡ false
unfolding malformed
malformed-print n =
    let (c, cs, e, digit, first) = print_head n n (omega arith) in rw e (well c cs digit first)
  where
    well :
        (c : ℕ) (cs : Bytes)
        → is_digit c ≡ true
        → (n ≡ 0) × (cs ≡ []) ⊎ (b'0' < c)
        → malformed (c ∷ cs) ≡ false
    well c [] digit first = ground arith
    well c (d ∷ ds) digit first = ground arith

-- Every printed number is its own canonical form.
pub canonical_decimal-print : (n : ℕ) → canonical_decimal (print n) ≡ ok (print n)
unfolding canonical_decimal
canonical_decimal-print n = ground (arith, set_string-print n, malformed-print n)

-- `-` and zeros.
abbrev pub IsMinusZero : Bytes → Type 0
IsMinusZero v = (zs : Bytes) × (v ≡ b'-' ∷ zs) × (parse_digits zs ≡ some 0)

shape :
    (v : Bytes) (minus : Bool) (n : ℕ)
    → malformed v ≡ false
    → set_string v ≡ some (minus, n)
    → negative (minus, n) ≡ false
    → (v ≡ print n) ⊎ (IsMinusZero v × (n ≡ 0))
unfolding set_string parse_digits parse_from malformed
shape [] minus n m e p = cc
shape (x ∷ []) minus n m e p = ground (arith, print-small n)
shape (x ∷ y ∷ cs) minus n m e p =
    ground (arith, print-parse_from (x - b'0') (y ∷ cs) n, print-small (x - b'0'))

minus_zero :
    (zs : Bytes)
    → parse_digits zs ≡ some 0
    → (set_string (b'-' ∷ zs) ≡ some (true, 0)) × (malformed (b'-' ∷ zs) ≡ false)
unfolding set_string malformed parse_digits
minus_zero [] p = absurd (ground arith)
minus_zero (z ∷ zs) p = (ground arith, refl)

-- What `canonicalDecimal` accepts: the print of a number, returned as it is, or `-` and zeros, for
-- which the answer is the print of zero; and it accepts the print of every number and every `-` with
-- zeros.
pub canonical_decimal_exact :
    (v c : Bytes)
    → (canonical_decimal v ≡ ok c
        → (n : ℕ) × (c ≡ print n) × ((v ≡ print n) ⊎ (IsMinusZero v × (n ≡ 0))))
      × (IsMinusZero v → canonical_decimal v ≡ ok (print 0))
      × ((n : ℕ) → canonical_decimal (print n) ≡ ok (print n))
unfolding canonical_decimal
canonical_decimal_exact v c =
    (accepted (malformed v) refl (set_string v) refl, zeros, canonical_decimal-print)
  where
    accepted :
        (b : Bool)
        → malformed v ≡ b
        → (o : Option (Bool × ℕ)) → set_string v ≡ o
        → canonical_decimal v ≡ ok c
        → (n : ℕ) × (c ≡ print n) × ((v ≡ print n) ⊎ (IsMinusZero v × (n ≡ 0)))
    accepted true m o e h = absurd (ground arith)
    accepted false m none e h = absurd (ground arith)
    accepted false m (some (minus, n)) e h = elim (Bool-cases (negative (minus, n))) [
      | inl neg ↦ absurd (ground arith)
      | inr fine ↦ (n, ground arith, shape v minus n m e fine)
    ]

    zeros : IsMinusZero v → canonical_decimal v ≡ ok (print 0)
    zeros (zs, e, p) = rw e (ground (arith, minus_zero zs p))

cmp_cases :
    (m n : ℕ)
    → (cmp m n ≡ less) × (m < n) ⊎ ((cmp m n ≡ same) × (m ≡ n) ⊎ (cmp m n ≡ greater) × (n < m))
cmp_cases m n = ground arith

compared :
    (m n : ℕ) (r : Result Error Comparison)
    → r ≡ ok (cmp m n)
    → (r ≡ ok less) × (m < n) ⊎ ((r ≡ ok same) × (m ≡ n) ⊎ (r ≡ ok greater) × (n < m))
compared m n r h = elim (cmp_cases m n) [
  | inl c ↦ inl (h ∙ ap ok c.0, c.1)
  | inr (inl c) ↦ inr (inl (h ∙ ap ok c.0, c.1))
  | inr (inr c) ↦ inr (inr (h ∙ ap ok c.0, c.1))
]

-- On the printed texts of numbers `incrementDecimal` gives the text of the next number,
-- `halvePositiveDecimal` the text of the half rounded down, but of 1 for 1, and an error for 0, and
-- `compareCanonicalDecimals` says whether the first number is less than the second, the same, or
-- greater.
pub decimals_compute :
    (m n : ℕ)
    → (increment_decimal (print n) ≡ ok (print (n + 1)))
      × (0 < n → halve_positive_decimal (print n) ≡ ok (print (if n / 2 == 0 then 1 else n / 2)))
      × (halve_positive_decimal (print 0) ≡ err invalid_decimal)
      × ((compare_canonical_decimals (print m) (print n) ≡ ok less) × (m < n)
          ⊎ ((compare_canonical_decimals (print m) (print n) ≡ ok same) × (m ≡ n)
              ⊎ (compare_canonical_decimals (print m) (print n) ≡ ok greater) × (n < m)))
unfolding increment_decimal halve_positive_decimal compare_canonical_decimals
decimals_compute m n = (
  ground (arith, canonical_decimal-print n, set_string-print n),
  λ h. ground (arith, canonical_decimal-print n, set_string-print n),
  ground (arith, canonical_decimal-print 0, set_string-print 0),
  compared m n (compare_canonical_decimals (print m) (print n)) (
      ground (
        arith,
        canonical_decimal-print n,
        set_string-print n,
        canonical_decimal-print m,
        set_string-print m,
      )),
)
