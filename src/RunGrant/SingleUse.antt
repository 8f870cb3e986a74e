-- ===== src/RunGrant/SingleUse.antt =====
-- A grant is used once, by one holder.
use influxdb_desk.Base.{
  ℕ, ◌≡◌, ◌≢◌, refl, ap, ◌∙◌, subst, sym, Bool, true, false, Option, none, some, List, ltb,
  is_empty, ok, err, guard, or_fail, ◌>>=◌, arith,
}
use influxdb_desk.Base.Table.{
  find_row, update_rows, delete_rows, find_row-update_rows, found_updated, delete_rows_none,
}
use influxdb_desk.Decimal.{Bytes}
use influxdb_desk.Decimal.Equality.{bytes_eq_refl}
use influxdb_desk.RunGrant.{
  grant_mismatch, grant_expired, GrantRecord, Registry, Reservation, has_token, has_scope,
  grant_scope, held, purgeable, purge, set_reservation, reserve_record, reserve, held_record,
  consume_record, validate_live, commit,
}

-- The record of the token, if there is one, is consumed.
Spent : Option GrantRecord → Type 0
Spent none = Unit
Spent (some r) = r.consumed ≡ true

Spent-by : (o : Option GrantRecord) → ((r : GrantRecord) → o ≡ some r → r.consumed ≡ true) → Spent o
unfolding Spent
Spent-by none h = tt
Spent-by (some r) h = h r refl

reserve_record-Spent :
    (id token digest : Bytes) (o : Option GrantRecord) (g : Registry)
    → Spent o
    → (reserve_record id token digest o g).1 ≡ err grant_expired
unfolding Spent
reserve_record-Spent id token digest none g h = refl
reserve_record-Spent id token digest (some r) g h = ground arith

purged-Spent :
    (token : Bytes) (q : GrantRecord → Bool) (rows : List GrantRecord)
    → Spent (
        find_row
          (has_token token)
          (delete_rows q (update_rows (has_token token) consume_record rows)))
purged-Spent token q rows = Spent-by _ λ r e.
    found_updated (has_token token) q consume_record (λ x. x.consumed ≡ true) rows {x = r}
      (λ y. refl) (λ y. refl) e

updated-Spent :
    (token : Bytes) (rows : List GrantRecord)
    → Spent (find_row (has_token token) (update_rows (has_token token) consume_record rows))
updated-Spent token rows =
    subst (λ xs. Spent (find_row (has_token token) xs)) (delete_rows_none _)
      (purged-Spent token (λ x. false) rows)

held-Spent : (v : Reservation) (o : Option GrantRecord) → Spent o → held v o ≡ none
unfolding Spent
held-Spent v none h = refl
held-Spent v (some r) h = ground arith

commit-absent :
    (v : Reservation) (g : Registry) → held_record v g ≡ none → commit v g ≡ err grant_mismatch
unfolding commit
commit-absent v g h =
    ap
      (λ o. or_fail o grant_mismatch >>= λ r. ok (record {
        records = update_rows (has_token v.token) consume_record g.records;
        scopes = delete_rows (has_scope (grant_scope r.binding)) g.scopes;
      }))
      h

commit-records :
    (v : Reservation) (g after : Registry)
    → commit v g ≡ ok after
    → after.records ≡ update_rows (has_token v.token) consume_record g.records
unfolding commit
commit-records v g after h = ground arith

-- Once a reservation of a token is committed, the token is spent: at any time, for any holder and
-- any binding, `Reserve` answers that the grant has expired, and no reservation of the token, the
-- committed one included, passes `ValidateLive` or commits again.
pub commit_spends :
    (v other : Reservation) (g after : Registry) (now : ℕ) (id digest : Bytes)
    → commit v g ≡ ok after
    → other.token ≡ v.token
    → ((reserve now id v.token digest after).1 ≡ err grant_expired)
      × (validate_live now other after ≡ err grant_mismatch)
      × (commit other after ≡ err grant_mismatch)
unfolding reserve purge validate_live commit
commit_spends v other g after now id digest h same =
    let rows = commit-records v g after h in
    let gone : held_record other after ≡ none =
      held-Spent other (find_row (has_token other.token) after.records) (
        rw (same) (
          subst (λ xs. Spent (find_row (has_token v.token) xs)) (sym rows)
            (updated-Spent v.token g.records))) in
    (
      reserve_record-Spent id v.token digest _ _ (
          subst (λ xs. Spent (find_row (has_token v.token) (delete_rows (purgeable now) xs)))
            (sym rows) (purged-Spent v.token (purgeable now) g.records)),
      ap (λ o. or_fail o grant_mismatch >>= λ r. guard (ltb now r.expires) grant_expired) gone,
      commit-absent other after gone,
    )

-- The record of the token, if there is one, is reserved.
Taken : Option GrantRecord → Type 0
Taken none = Unit
Taken (some r) = is_empty r.reservation_id ≡ false

Taken-by :
    (o : Option GrantRecord)
    → ((r : GrantRecord) → o ≡ some r → is_empty r.reservation_id ≡ false)
    → Taken o
unfolding Taken
Taken-by none h = tt
Taken-by (some r) h = h r refl

reserve_record-Taken :
    (id token digest : Bytes) (o : Option GrantRecord) (g : Registry) (v : Reservation)
    → Taken o
    → (reserve_record id token digest o g).1 ≢ ok v
unfolding Taken
reserve_record-Taken id token digest none g v h = ground arith
reserve_record-Taken id token digest (some r) g v h = ground arith

-- What a reservation that is handed out leaves.
record Handed (id token : Bytes) (o : Option GrantRecord) (g after : Registry) (v : Reservation)
    : Type 0 where
  row : (r : GrantRecord) × (o ≡ some r) × (r.consumed ≡ false)
  rows : after.records ≡ update_rows (has_token token) (set_reservation id) g.records
  same_token : v.token ≡ token
  same_id : v.reservation_id ≡ id

reserve_record-Handed :
    (id token digest : Bytes) (o : Option GrantRecord) (g after : Registry) (v : Reservation)
    → reserve_record id token digest o g ≡ (after, ok v)
    → Handed id token o g after v
reserve_record-Handed id token digest none g after v h = ground arith
reserve_record-Handed id token digest (some r) g after v h = record {
  row = (r, refl, ground arith);
  rows = ground arith;
  same_token = ground arith;
  same_id = ground arith;
}

commit-held :
    (v : Reservation) (g : Registry) (r : GrantRecord)
    → held_record v g ≡ some r
    → (after : Registry) × (commit v g ≡ ok after)
unfolding commit
commit-held v g r h = (
  _,
  ap
      (λ o. or_fail o grant_mismatch >>= λ x. ok (record {
        records = update_rows (has_token v.token) consume_record g.records;
        scopes = delete_rows (has_scope (grant_scope x.binding)) g.scopes;
      }))
      h,
)

held-fresh :
    (v : Reservation) (id : Bytes) (r : GrantRecord)
    → v.reservation_id ≡ id
    → r.consumed ≡ false
    → held v (some (set_reservation id r)) ≡ some (set_reservation id r)
held-fresh v id r same fresh = ground (arith, bytes_eq_refl id)

-- A reservation that `Reserve` hands out can be committed, and while it stands no second call of
-- `Reserve` on the token succeeds, at any time and for any binding. The id that is
-- allocated is not empty.
pub reserve_exclusive :
    (now later : ℕ) (id other token digest digest' : Bytes) (g after : Registry) (v w : Reservation)
    → is_empty id ≡ false
    → reserve now id token digest g ≡ (after, ok v)
    → ((spent : Registry) × (commit v after ≡ ok spent))
      × ((reserve later other token digest' after).1 ≢ ok w)
unfolding reserve purge
reserve_exclusive now later id other token digest digest' g after v w named run =
    let live = delete_rows (purgeable now) g.records in
    let handed =
      reserve_record-Handed id token digest (find_row (has_token token) (purge now g).records)
        (purge now g) after v run in
    let (r, e, fresh) = handed.row in
    let found : find_row (has_token v.token) after.records ≡ some (set_reservation id r) =
      rw (handed.same_token, handed.rows)
        (find_row-update_rows (has_token token) (set_reservation id) live {x = r} (λ y. refl) e) in
    (
      commit-held v after (set_reservation id r)
          (ap (held v) found ∙ held-fresh v id r handed.same_id fresh),
      reserve_record-Taken other token digest' _ _ w (
          Taken-by _ λ x kept.
            found_updated (has_token token) (purgeable later) (set_reservation id)
              (λ y. is_empty y.reservation_id ≡ false) live {x = x} (λ y. refl) (λ y. named)
              (subst (λ xs. find_row (has_token token) (delete_rows (purgeable later) xs) ≡ some x)
                handed.rows kept)),
    )
