-- ===== src/Tasks/Created.antt =====
-- What `CreateInTx` leaves of the other tasks, and the task that it makes.
use influxdb_desk.Base.{
  inl, inr, none, Bool-cases, ◌≡◌, refl, sym, ap, ◌∙◌, true, false, not, [], ◌∷◌, ◌++◌, guard,
  or_fail, >>=-eq-ok, guard-true, ok,
}
use influxdb_desk.Base.Table.{find_row, find_row-append_other, find_row-untouched}
use influxdb_desk.Decimal.{Bytes, bytes_eq}
use influxdb_desk.Decimal.Equality.{bytes_eq→≡, bytes_eq_refl}
use influxdb_desk.Tasks.{not_found, store_failed, Meta, Tables}
use influxdb_desk.Tasks.Ledger.{is_some}
use influxdb_desk.Tasks.Repository.{has_id, get, with_seq, created, create_in_tx}
use influxdb_desk.Tasks.Updates.{append_event-ok, has_id-apart}
use influxdb_desk.Tasks.Replay.{is_some-none}

pub swapped_apart : (a b : Bytes) → bytes_eq b a ≡ false → bytes_eq a b ≡ false
swapped_apart a b h = elim (Bool-cases (bytes_eq a b)) [
  | inl same ↦
      let bad : true ≡ false =
        sym (bytes_eq_refl a) ∙ ap (λ x. bytes_eq x a) (bytes_eq→≡ a b same) ∙ h in
      cc
  | inr other ↦ other
]

module _ (m : Meta) (now : Bytes) (db : Tables) (out : Tables × Meta)
    (h : create_in_tx m now db ≡ ok out) where
  -- No task had the identifier.
  pub create_in_tx-fresh : find_row (has_id m.id) db.tasks ≡ none
  unfolding create_in_tx
  create_in_tx-fresh =
      let free =
        >>=-eq-ok (guard (not (is_some (find_row (has_id m.id) db.tasks))) store_failed) _ h in
      is_some-none (find_row (has_id m.id) db.tasks) (guard-true _ _ free.1)

  pub create_in_tx-meta : (seq : Bytes) × (out.1 ≡ with_seq seq m)
  unfolding create_in_tx
  create_in_tx-meta =
      let free =
        >>=-eq-ok (guard (not (is_some (find_row (has_id m.id) db.tasks))) store_failed) _ h in
      let (head, seq, was, next, shape) =
        append_event-ok m created now (record db { tasks = db.tasks ++ (m ∷ []) }) out free.2 in
      (seq, ap (λ x. x.1) shape)

  pub create_in_tx-others :
      (other : Bytes) → bytes_eq other m.id ≡ false → get other out.0 ≡ get other db
  unfolding create_in_tx get
  create_in_tx-others other different =
      let free =
        >>=-eq-ok (guard (not (is_some (find_row (has_id m.id) db.tasks))) store_failed) _ h in
      let (head, seq, was, next, shape) =
        append_event-ok m created now (record db { tasks = db.tasks ++ (m ∷ []) }) out free.2 in
      let one =
        find_row-append_other (has_id other) db.tasks m (swapped_apart m.id other different) in
      let two =
        find_row-untouched (has_id other) (has_id m.id) (with_seq seq) (db.tasks ++ (m ∷ []))
          (λ y. refl) (λ y found. has_id-apart m.id other y different found) in
      ap (λ x. get other x.0) shape ∙ ap (λ o. or_fail o not_found) (two ∙ one)
