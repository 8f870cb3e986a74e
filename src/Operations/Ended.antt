-- ===== src/Operations/Ended.antt =====
-- An operation that has ended stays as it is: the invariant, under each step.
pub mod Steps
pub mod Cancelling
pub mod Calls
use influxdb_desk.Base.{
  ℕ, ◌≡◌, refl, sym, ap, ◌∙◌, subst, inl, inr, true, false, ok, ok-injective, Bool-cases,
}
use influxdb_desk.Decimal.{Bytes, bytes_eq}
use influxdb_desk.Decimal.Equality.{bytes_eq→≡}
use influxdb_desk.Tasks.{Meta, Tables}
use influxdb_desk.Tasks.Words.{operation_kind}
use influxdb_desk.Tasks.Repository.{get}
use influxdb_desk.Operations.{World}
use influxdb_desk.Operations.Effects.{Moved, Still}
use influxdb_desk.Operations.Honest.{times_sent}

-- The task of the operation is terminal, in this state.
abbrev pub EndedTask : Bytes → Bytes → Tables → Type 0
EndedTask id state db =
    (m : Meta) × (get id db ≡ ok m)
    × (m.terminal ≡ true)
    × (m.state ≡ state)
    × (m.kind ≡ operation_kind)

abbrev pub Ended : Bytes → Bytes → ℕ → World → Type 0
Ended id state n w = EndedTask id state w.db.core × (times_sent id w.sent ≡ n)

pub Still-EndedTask :
    (id state : Bytes) (a b : Tables) → Still a b → EndedTask id state a → EndedTask id state b
Still-EndedTask id state a b still (m, found, over, s, k) = (m, still id ∙ found, over, s, k)

clash : (m n : Meta) {P : Type 0} → m ≡ n → m.terminal ≡ false → n.terminal ≡ true → P
clash m n same going over =
    let bad : true ≡ false = sym over ∙ ap (λ x. x.terminal) (sym same) ∙ going in cc

-- No transaction moves a task that has ended.
pub Moved-apart :
    (id state at to : Bytes) (a b : Tables)
    → EndedTask id state a
    → Moved at to a b
    → bytes_eq id at ≡ false
Moved-apart id state at to a b (m, found, over, s, k) move = elim (Bool-cases (bytes_eq id at)) [
  | inl same ↦
      clash move.0 m
        (ok-injective (sym move.2 ∙ ap (λ i. get i a) (sym (bytes_eq→≡ id at same)) ∙ found)) move.7
        over
  | inr other ↦ other
]

pub Moved-EndedTask :
    (id state at to : Bytes) (a b : Tables)
    → Moved at to a b
    → EndedTask id state a
    → EndedTask id state b
Moved-EndedTask id state at to a b move ended =
    let apart = Moved-apart id state at to a b ended move in
    (ended.0, move.6 id apart ∙ ended.1, ended.2, ended.3, ended.4)
