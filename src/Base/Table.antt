-- ===== src/Base/Table.antt =====
-- A table of rows: `SELECT … WHERE` of at most one row, `UPDATE … WHERE`, `DELETE … WHERE`. Also
-- Go's map with a key that is part of the value.
use mathlib.Core.Path.{◌≡◌, refl, subst, ap}
use mathlib.Core.Bool.{Bool, true, false}
use mathlib.Core.List.{List, [], ◌∷◌, ◌++◌}
use mathlib.Core.Option.{Option, none, some}
use mathlib.Core.Logic.{inl, inr}
use native.Mathlib.Omega.{arith}
use influxdb_desk.Base.Lists.{All}
use influxdb_desk.Base.Tests.{if◌then◌else◌, Bool-cases}

module _ {ℓ} {A : Type ℓ} where
  unfoldable pub find_row : (A → Bool) → List A → Option A
  find_row p [] = none
  find_row p (x ∷ xs) = if p x then some x else find_row p xs

  unfoldable pub update_rows : (A → Bool) → (A → A) → List A → List A
  update_rows p f [] = []
  update_rows p f (x ∷ xs) = (if p x then f x else x) ∷ update_rows p f xs

  unfoldable pub delete_rows : (A → Bool) → List A → List A
  delete_rows p [] = []
  delete_rows p (x ∷ xs) = let rest = delete_rows p xs in if p x then rest else x ∷ rest

  pub find_row-update_rows :
      (p : A → Bool) (f : A → A) (xs : List A) {x : A}
      → ((y : A) → p (f y) ≡ p y)
      → find_row p xs ≡ some x
      → find_row p (update_rows p f xs) ≡ some (f x)
  unfolding find_row update_rows
  find_row-update_rows p f [] same h = ground arith
  find_row-update_rows p f (y ∷ xs) {x = x} same h = elim (Bool-cases (p y)) [
    | inl hit ↦ ground (arith, same y)
    | inr miss ↦ ground (arith, find_row-update_rows p f xs {x = x} same)
  ]

  pub find_row-holds : (p : A → Bool) (xs : List A) {x : A} → find_row p xs ≡ some x → p x ≡ true
  unfolding find_row
  find_row-holds p [] h = ground arith
  find_row-holds p (y ∷ xs) {x = x} h = elim (Bool-cases (p y)) [
    | inl hit ↦ ground arith
    | inr miss ↦ find_row-holds p xs (ground arith)
  ]

  pub find_row-update_rows_kept :
      (p : A → Bool) (f : A → A) (xs : List A) {x : A}
      → ((y : A) → p y ≡ true → p (f y) ≡ true)
      → find_row p xs ≡ some x
      → find_row p (update_rows p f xs) ≡ some (f x)
  unfolding find_row update_rows
  find_row-update_rows_kept p f [] kept h = ground arith
  find_row-update_rows_kept p f (y ∷ xs) {x = x} kept h = elim (Bool-cases (p y)) [
    | inl hit ↦ ground (arith, kept y hit)
    | inr miss ↦ ground (arith, find_row-update_rows_kept p f xs {x = x} kept)
  ]

  -- A row that is added is found, where none was.
  pub find_row-append :
      (p : A → Bool) (xs : List A) (x : A)
      → find_row p xs ≡ none
      → p x ≡ true
      → find_row p (xs ++ (x ∷ [])) ≡ some x
  unfolding find_row
  find_row-append p [] x h hit = rw hit refl
  find_row-append p (y ∷ xs) x h hit = elim (Bool-cases (p y)) [
    | inl other ↦ ground arith
    | inr miss ↦ ground (arith, find_row-append p xs x)
  ]

  -- A row that is added is not found by another test.
  pub find_row-append_other :
      (p : A → Bool) (xs : List A) (x : A)
      → p x ≡ false
      → find_row p (xs ++ (x ∷ [])) ≡ find_row p xs
  unfolding find_row
  find_row-append_other p [] x miss = rw miss refl
  find_row-append_other p (y ∷ xs) x miss = elim (Bool-cases (p y)) [
    | inl hit ↦ ground arith
    | inr other ↦ ground (arith, find_row-append_other p xs x)
  ]

  updated_row :
      (q : A → Bool) (f : A → A) (b : Bool) (y : A) → q (f y) ≡ q y → q (if b then f y else y) ≡ q y
  updated_row q f true y same = same
  updated_row q f false y same = refl

  -- An update by another test, which does not change whether a row is found.
  pub find_row-update :
      (q p : A → Bool) (f : A → A) (xs : List A) {x : A}
      → ((y : A) → q (f y) ≡ q y)
      → find_row q xs ≡ some x
      → find_row q (update_rows p f xs) ≡ some (if p x then f x else x)
  unfolding find_row update_rows
  find_row-update q p f [] same h = ground arith
  find_row-update q p f (y ∷ xs) {x = x} same h = elim (Bool-cases (q y)) [
    | inl hit ↦ ground (arith, updated_row q f (p y) y (same y))
    | inr miss ↦
        ground (arith, updated_row q f (p y) y (same y), find_row-update q p f xs {x = x} same)
  ]

  -- An update of rows that are not looked for.
  pub find_row-untouched :
      (q p : A → Bool) (f : A → A) (xs : List A)
      → ((y : A) → q (f y) ≡ q y)
      → ((y : A) → q y ≡ true → p y ≡ false)
      → find_row q (update_rows p f xs) ≡ find_row q xs
  unfolding find_row update_rows
  find_row-untouched q p f [] same apart = refl
  find_row-untouched q p f (y ∷ xs) same apart = elim (Bool-cases (q y)) [
    | inl hit ↦ ground (arith, apart y hit)
    | inr miss ↦
        ground (arith, updated_row q f (p y) y (same y), find_row-untouched q p f xs same apart)
  ]

  -- What is found after an update of the rows that a test picks has been updated.
  pub found_updated {κ} :
      (p q : A → Bool) (f : A → A) (P : A → Type κ) (xs : List A) {x : A}
      → ((y : A) → p (f y) ≡ p y)
      → ((y : A) → P (f y))
      → find_row p (delete_rows q (update_rows p f xs)) ≡ some x
      → P x
  unfolding find_row update_rows delete_rows
  found_updated p q f P [] same holds h = ground arith
  found_updated p q f P (y ∷ xs) {x = x} same holds h = elim (Bool-cases (p y)) [
    | inl hit ↦ elim (Bool-cases (q (f y))) [
      | inl gone ↦ found_updated p q f P xs {x = x} same holds (ground arith)
      | inr kept ↦ let e : f y ≡ x = ground (arith, same y) in subst P e (holds y)
    ]
    | inr miss ↦ elim (Bool-cases (q y)) [
      | inl gone ↦ found_updated p q f P xs {x = x} same holds (ground arith)
      | inr kept ↦ found_updated p q f P xs {x = x} same holds (ground (arith, same y))
    ]
  ]

  pub delete_rows_none : (xs : List A) → delete_rows (λ x. false) xs ≡ xs
  unfolding delete_rows
  delete_rows_none [] = refl
  delete_rows_none (x ∷ xs) = ap (◌∷◌ x) (delete_rows_none xs)

-- A predicate on every row, under each operation.
module _ {ℓ κ} {A : Type ℓ} (P : A → Type κ) where
  pub find_row-All : (p : A → Bool) (xs : List A) {x : A} → All P xs → find_row p xs ≡ some x → P x
  unfolding find_row
  find_row-All p [] h e = cc
  find_row-All p (y ∷ xs) {x = x} h e = elim (Bool-cases (p y)) [
    | inl hit ↦ let same : y ≡ x = ground arith in subst P same h.0
    | inr miss ↦ find_row-All p xs {x = x} h.1 (ground arith)
  ]

  pub All-delete_rows : (p : A → Bool) (xs : List A) → All P xs → All P (delete_rows p xs)
  unfolding delete_rows
  All-delete_rows p [] h = tt
  All-delete_rows p (y ∷ xs) h = elim (Bool-cases (p y)) [
    | inl gone ↦ rw gone (All-delete_rows p xs h.1)
    | inr kept ↦ rw kept (h.0, All-delete_rows p xs h.1)
  ]

  pub All-update_rows :
      (p : A → Bool) (f : A → A) (xs : List A)
      → ((y : A) → P y → P (f y))
      → All P xs
      → All P (update_rows p f xs)
  unfolding update_rows
  All-update_rows p f [] keep h = tt
  All-update_rows p f (y ∷ xs) keep h = elim (Bool-cases (p y)) [
    | inl hit ↦ rw hit (keep y h.0, All-update_rows p f xs keep h.1)
    | inr miss ↦ rw miss (h.0, All-update_rows p f xs keep h.1)
  ]
