-- ===== src/Decimal/Order.antt =====
-- The order by length and then by bytes in which the event log is read is the order of the numbers.
use influxdb_desk.Base.{
  ℕ, zero, suc, ◌+◌, ◌-◌, ◌*◌, ◌≤◌, ◌<◌, ◌≡◌, sym, ap, Bool, true, false, ◌&&◌, ◌||◌, inl, inr,
  some, [], ◌∷◌, ltb, ◌==◌, if◌then◌else◌, length, arith, Bool-cases, subst,
}
use influxdb_desk.Decimal.{Bytes, is_digit, parse_from, print}
use influxdb_desk.Decimal.RoundTrip.{parse_from-print, print-small, print_head}

-- `a > b` on texts.
unfoldable pub text_gt : Bytes → Bytes → Bool
text_gt [] b = false
text_gt (x ∷ a) [] = true
text_gt (x ∷ a) (y ∷ b) = if x == y then text_gt a b else ltb y x

-- tasks.Repository.Changes: `length(seq)>length(?) OR (length(seq)=length(?) AND seq>?)`
unfoldable pub follows : Bytes → Bytes → Bool
unfolding text_gt
follows seq cursor =
    ltb (length cursor) (length seq) || (length seq == length cursor && text_gt seq cursor)

pow10 : ℕ → ℕ
pow10 zero = 1
pow10 (suc k) = 10 * pow10 k

mul_mono : (a b c : ℕ) → a ≤ b → a * c ≤ b * c
mul_mono a b c h = grind arith

digit_below : (d p : ℕ) → d < 10 → d * p ≤ 9 * p
digit_below d p h = mul_mono d 9 p (omega arith)

-- A read number lies between the digits before it and the next such value.
parse_bounds :
    (acc : ℕ) (v : Bytes) (n : ℕ)
    → parse_from acc v ≡ some n
    → (acc * pow10 (length v) ≤ n) × (n < (acc + 1) * pow10 (length v))
unfolding parse_from pow10
parse_bounds acc [] n e = let same : acc ≡ n = ground arith in (omega arith, omega arith)
parse_bounds acc (c ∷ v) n e = elim (Bool-cases (is_digit c)) [
  | inl digit ↦
      let d = c - b'0' in
      let ih = parse_bounds (acc * 10 + d) v n (ground arith) in
      let small : d < 10 = ground arith in
      let edge = digit_below d (pow10 (length v)) small in
      (omega (arith, ih, edge), omega (arith, ih, edge))
  | inr other ↦ absurd (ground arith)
]

-- A smaller digit in front decides.
smaller_digit :
    (a b : ℕ) (v w : Bytes) (m n : ℕ)
    → length v ≡ length w
    → a < b
    → parse_from a v ≡ some m
    → parse_from b w ≡ some n
    → m < n
smaller_digit a b v w m n l h p q =
    let left = (parse_bounds a v m p).1 in
    let right = (parse_bounds b w n q).0 in
    let gap = mul_mono (a + 1) b (pow10 (length w)) (omega arith) in
    let width : m < (a + 1) * pow10 (length w) = subst (λ t. m < (a + 1) * pow10 t) l left in
    omega (arith, width, right, gap)

-- At equal length the order by bytes is the order of what is read.
text_gt-parse :
    (acc : ℕ) (a b : Bytes) (m n : ℕ)
    → length a ≡ length b
    → parse_from acc a ≡ some m
    → parse_from acc b ≡ some n
    → text_gt a b ≡ ltb n m
unfolding parse_from text_gt
text_gt-parse acc [] [] m n l p q = ground arith
text_gt-parse acc [] (y ∷ b) m n l p q = absurd (omega arith)
text_gt-parse acc (x ∷ a) [] m n l p q = absurd (omega arith)
text_gt-parse acc (x ∷ a) (y ∷ b) m n l p q =
    let left = acc * 10 + (x - b'0') in
    let right = acc * 10 + (y - b'0') in
    let same : length a ≡ length b = omega arith in
    ground (
      arith,
      text_gt-parse left a b m n same,
      smaller_digit left right a b m n same,
      smaller_digit right left b a n m (sym same),
    )

pow10_mono : (j k : ℕ) → pow10 j ≤ pow10 (k + j)
unfolding pow10
pow10_mono j zero = let e : 0 + j ≡ j = omega arith in rw e (omega arith)
pow10_mono j (suc k) =
    let e : suc k + j ≡ suc (k + j) = omega arith in rw e (omega (arith, pow10_mono j k))

-- A printed number has as many digits as it needs.
digits_bounds :
    (n : ℕ) → 0 < n → (k : ℕ) × (length (print n) ≡ suc k) × (pow10 k ≤ n) × (n < pow10 (suc k))
unfolding parse_from pow10
digits_bounds n pos =
    let (c, cs, e, digit, first) = print_head n n (omega arith) in
    let read : parse_from (c - b'0') cs ≡ some n =
      ground (arith, parse_from-print n n (omega arith)) in
    let bounds = parse_bounds (c - b'0') cs n read in
    let low = mul_mono 1 (c - b'0') (pow10 (length cs)) (ground arith) in
    let high = mul_mono (c - b'0' + 1) 10 (pow10 (length cs)) (ground arith) in
    (length cs, ap length e, omega (arith, bounds, low), omega (arith, bounds, high))

shorter_smaller : (m n : ℕ) → length (print m) < length (print n) → m < n
shorter_smaller m zero h =
    let (c, cs, e, _, _) = print_head m m (omega arith) in
    absurd (omega (arith, ap length e, ap length (print-small 0 (omega arith))))
shorter_smaller zero (suc n) h = omega arith
shorter_smaller (suc m) (suc n) h =
    let (j, lm, _, below) = digits_bounds (suc m) (omega arith) in
    let (k, ln, above, _) = digits_bounds (suc n) (omega arith) in
    let e : k - suc j + suc j ≡ k = omega arith in
    let grows = subst (λ t. pow10 (suc j) ≤ pow10 t) e (pow10_mono (suc j) (k - suc j)) in
    omega (arith, below, above, grows)

-- For every two numbers, the row test of `Changes` on their canonical texts holds exactly when the
-- sequence number is greater than the cursor's.
pub follows-print : (m n : ℕ) → follows (print m) (print n) ≡ ltb n m
unfolding follows
follows-print m n = ground (
  arith,
  shorter_smaller m n,
  shorter_smaller n m,
  text_gt-parse 0 (print m) (print n) m n,
  parse_from-print m m (omega arith),
  parse_from-print n n (omega arith),
)
