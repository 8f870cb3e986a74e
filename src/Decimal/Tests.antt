-- ===== src/Decimal/Tests.antt =====
-- Decimals at concrete texts.
use influxdb_desk.Base.{◌≡◌, refl, true, [], ◌∷◌, ok, err}
use influxdb_desk.Decimal.{print, canonical_decimal, set_string, increment_decimal, invalid_decimal}
use influxdb_desk.Decimal.RoundTrip.{
  canonical_decimal_exact, decimals_compute, canonical_decimal-print,
}
use influxdb_desk.Decimal.Order.{follows, follows-print}

leading_zero : canonical_decimal (b'0' ∷ b'7' ∷ []) ≡ err invalid_decimal
unfolding canonical_decimal
leading_zero = refl

minus_zero_accepted : canonical_decimal (b'-' ∷ b'0' ∷ []) ≡ ok (b'0' ∷ [])
unfolding canonical_decimal set_string print
minus_zero_accepted = refl

canonical_decimal_exact_example : canonical_decimal (b'-' ∷ b'0' ∷ b'0' ∷ []) ≡ ok (print 0)
unfolding set_string
canonical_decimal_exact_example =
    (canonical_decimal_exact (b'-' ∷ b'0' ∷ b'0' ∷ []) (b'0' ∷ [])).1 (b'0' ∷ b'0' ∷ [], refl, refl)

decimals_compute_example : increment_decimal (print 99) ≡ ok (print 100)
decimals_compute_example = (decimals_compute 7 99).0

follows-print_example : follows (print 10) (print 9) ≡ true
follows-print_example = follows-print 10 9

canonical_decimal-print_example : canonical_decimal (print 42) ≡ ok (print 42)
canonical_decimal-print_example = canonical_decimal-print 42
