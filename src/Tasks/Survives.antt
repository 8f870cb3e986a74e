-- ===== src/Tasks/Survives.antt =====
-- What `RecoverCore` keeps: a property of a task that every recovery of it keeps.
use influxdb_desk.Base.{
  ℕ, ◌+◌, ◌≡◌, refl, sym, ap, ◌∙◌, subst, inl, inr, Option, none, some, List, [], ◌∷◌, ok,
  >>=-eq-ok, ok-injective, Bool-cases,
}
use influxdb_desk.Decimal.{Bytes, bytes_eq}
use influxdb_desk.Decimal.Equality.{bytes_eq→≡}
use influxdb_desk.Tasks.{Meta, Change, Tables}
use influxdb_desk.Tasks.Words.{query_kind}
use influxdb_desk.Tasks.Repository.{get, with_seq}
use influxdb_desk.Tasks.Apply.{apply_in_tx, changed}
use influxdb_desk.Tasks.Recover.{
  select_ids, recovery, write_mirror, recover_by, recover_ids, recover_core,
}
use influxdb_desk.Tasks.Updates.{get-id, apply_in_tx-found, apply_in_tx-meta}
use influxdb_desk.Tasks.Restart.{write_mirror-tasks, get-tasks, recover_by-others}

module _ {ℓ} (P : Meta → Type ℓ)
    (keep : (m : Meta) (c : Change) (snapshot revision seq now : Bytes)
      → P m
      → recovery m ≡ some c
      → P (with_seq seq (changed m c snapshot revision now))) where
  -- The task of this identifier is there and has the property.
  abbrev Holds : Bytes → Tables → Type ℓ
  Holds id db = (m : Meta) × (get id db ≡ ok m) × P m

  recover_by-Holds :
      (change : Option Change) (m : Meta) (now : Bytes) (db : Tables) (out : Tables × ℕ)
      → recovery m ≡ change
      → get m.id db ≡ ok m
      → P m
      → recover_by change m now db ≡ ok out
      → Holds m.id out.0
  recover_by-Holds none m now db out change here p h =
      (m, ap (λ x. get m.id x.0) (sym (ok-injective h)) ∙ here, p)
  recover_by-Holds (some c) m now db out change here p h =
      let updated = >>=-eq-ok (apply_in_tx m c now db) _ h in
      let mirrored =
        >>=-eq-ok (write_mirror (bytes_eq m.kind query_kind) updated.0.1 updated.0.0) _ updated.2 in
      let kept =
        write_mirror-tasks (bytes_eq m.kind query_kind) updated.0.1 updated.0.0 mirrored.0
          mirrored.1 in
      let (snapshot, revision, seq, s, r, meta) = apply_in_tx-meta m c now db updated.0 updated.1 in
      (
        updated.0.1,
        ap (λ x. get m.id x.0) (sym (ok-injective mirrored.2))
            ∙ get-tasks m.id mirrored.0 updated.0.0 kept
            ∙ apply_in_tx-found m c now db updated.0 here updated.1,
        subst P (sym meta) (keep m c snapshot revision seq now p change),
      )

  recover_ids-Holds :
      (clock : ℕ → Bytes) (count : ℕ) (ids : List Bytes) (db : Tables) (out : Tables × ℕ)
      (id : Bytes)
      → Holds id db
      → recover_ids clock count ids db ≡ ok out
      → Holds id out.0
  unfolding recover_ids
  recover_ids-Holds clock count [] db out id here h =
      subst (λ x. Holds id x.0) (ok-injective h) here
  recover_ids-Holds clock count (first ∷ ids) db out id here h =
      let m = >>=-eq-ok (get first db) _ h in
      let turn = >>=-eq-ok (recover_by (recovery m.0) m.0 (clock count) db) _ m.2 in
      let named = get-id first db m.0 m.1 in
      recover_ids-Holds clock (count + turn.0.1) ids turn.0.0 out id
        (elim (Bool-cases (bytes_eq id first)) [
          | inl same ↦
              let here' : get id db ≡ ok m.0 =
                ap (λ i. get i db) (bytes_eq→≡ id first same) ∙ m.1 in
              let p : P m.0 = subst P (ok-injective (sym here.1 ∙ here')) here.2 in
              subst (λ x. Holds x turn.0.0) (named ∙ sym (bytes_eq→≡ id first same))
                (recover_by-Holds (recovery m.0) m.0 (clock count) db turn.0 refl
                  (ap (λ i. get i db) named ∙ m.1) p turn.1)
          | inr other ↦ (
            here.0,
            recover_by-others (recovery m.0) m.0 (clock count) db turn.0 id
                  (ap (bytes_eq id) named ∙ other) turn.1
                ∙ here.1,
            here.2,
          )
        ])
        turn.2

  pub recover_core-Holds :
      (clock : ℕ → Bytes) (db : Tables) (out : Tables × ℕ) (id : Bytes) (m : Meta)
      → get id db ≡ ok m
      → P m
      → recover_core clock db ≡ ok out
      → (n : Meta) × (get id out.0 ≡ ok n) × P n
  unfolding recover_core
  recover_core-Holds clock db out id m here p h =
      recover_ids-Holds clock 0 (select_ids db.tasks) db out id (m, here, p) h
