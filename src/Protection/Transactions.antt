-- ===== src/Protection/Transactions.antt =====
-- What the transaction of `Lock` leaves.
use influxdb_desk.Base.{
  ◌≡◌, refl, String, Bool, true, false, ◌&&◌, Option, none, some, if◌then◌else◌, Result, ok, err,
  guard, ◌>>=◌, ◌>>◌, arith,
}
use influxdb_desk.Base.Table.{find_row-holds}
use influxdb_desk.Decimal.{Bytes, bytes_eq, increment_decimal}
use influxdb_desk.Protection.{
  Error, Snapshot, Row, Manager, Env, LedgerEntry, is_row, read_snapshot, connection_closed,
  command_conflict, store_failed,
}
use influxdb_desk.Protection.Gate.{decimal, is_closed}
use influxdb_desk.Protection.Commands.Ledger.{
  Command, CommandResult, rejection, replay_entry, lookup_ledger, insert_ledger, replay_result,
}
use influxdb_desk.Protection.Commands.{command_step, apply_command, lock_row, command_transaction}

-- A predicate of what a transaction leaves, where it commits.
abbrev pub Leaves :
    (Manager × CommandResult → Type 0) → Result Error (Manager × CommandResult) → Type 0
Leaves P (ok x) = P x
Leaves P (err e) = Unit

-- What a transaction leaves: the states in memory as they were and, where it applied the command,
-- a snapshot of the command's generation.
pub record Applied (cmd : Command) (m : Manager) (x : Manager × CommandResult) : Type 0 where
  pub same_states : x.0.connections ≡ m.connections
  pub of_generation :
      x.1.replayed ≡ false
      → x.1.result ≡ none
      → (v : Snapshot) × (x.1.snapshot ≡ some v)
        × (bytes_eq v.connection_id cmd.connection_id && bytes_eq v.generation cmd.generation
            ≡ true)

reject_Applied :
    (env : Env) (cmd : Command) (digest : Bytes) (code : Error) (r : Row) (m : Manager)
    → Applied cmd m (rejection env cmd digest code r m)
unfolding rejection insert_ledger
reject_Applied env cmd digest code r m = record {
  same_states = refl;
  of_generation = λ a b. ground arith;
}

replay_Applied :
    (cmd : Command) (e : LedgerEntry) (row : Option Row) (m : Manager)
    → Applied cmd m (m, replay_result e row)
replay_Applied cmd e none m = record { same_states = refl; of_generation = λ a b. ground arith }
replay_Applied cmd e (some r) m = record { same_states = refl; of_generation = λ a b. ground arith }

apply_Applied :
    (env : Env) (cmd : Command) (digest : Bytes) (s : Snapshot) (change : String) (m : Manager)
    → bytes_eq s.connection_id cmd.connection_id && bytes_eq s.generation cmd.generation ≡ true
    → Applied cmd m (apply_command env cmd digest s change m)
unfolding apply_command insert_ledger
apply_Applied env cmd digest s change m h = record {
  same_states = refl;
  of_generation = λ a b. (s, refl, h);
}

pub Leaves-guard :
    (P : Manager × CommandResult → Type 0) (b : Bool) (e : Error)
    (t : Result Error (Manager × CommandResult))
    → Leaves P t
    → Leaves P (guard b e >> t)
Leaves-guard P true e t h = h
Leaves-guard P false e t h = tt

Leaves-then :
    (P : Manager × CommandResult → Type 0) (v : Result Error Bytes)
    (k : Bytes → Result Error (Manager × CommandResult))
    → ((x : Bytes) → Leaves P (k x))
    → Leaves P (v >>= k)
Leaves-then P (ok x) k h = h x
Leaves-then P (err e) k h = tt

Leaves-if :
    (P : Manager × CommandResult → Type 0) (b : Bool) (x y : Result Error (Manager × CommandResult))
    → Leaves P x
    → Leaves P y
    → Leaves P (if b then x else y)
Leaves-if P true x y hx hy = hx
Leaves-if P false x y hx hy = hy

lock_row-Applied :
    (env : Env) (cmd : Command) (digest : Bytes) (r : Row) (m : Manager)
    → is_row cmd.connection_id cmd.generation r ≡ true
    → Leaves (Applied cmd m) (lock_row env cmd digest r m)
unfolding lock_row
lock_row-Applied env cmd digest r m h =
    Leaves-if (Applied cmd m) (is_closed r) _ _
      (reject_Applied env cmd digest connection_closed r m)
      (Leaves-then (Applied cmd m) (decimal (increment_decimal r.revision)) _
        λ revision. apply_Applied env cmd digest _ "LOCKED" m h)

command_step-Applied :
    (env : Env) (cmd : Command) (digest : Bytes) (e : Option LedgerEntry) (r : Option Row)
    (m : Manager)
    → ((x : Row) → r ≡ some x → is_row cmd.connection_id cmd.generation x ≡ true)
    → Leaves (Applied cmd m) (command_step digest (lock_row env cmd digest) e r m)
unfolding replay_entry
command_step-Applied env cmd digest (some e) r m of_row =
    Leaves-guard (Applied cmd m) (bytes_eq e.digest digest) command_conflict _
      (replay_Applied cmd e (read_snapshot e.connection_id e.generation m) m)
command_step-Applied env cmd digest none none m of_row = tt
command_step-Applied env cmd digest none (some r) m of_row =
    lock_row-Applied env cmd digest r m (of_row r refl)

pub command_transaction-Applied :
    (env : Env) (cmd : Command) (digest : Bytes) (m : Manager)
    → Leaves (Applied cmd m) (command_transaction env cmd digest (lock_row env cmd digest) m)
unfolding command_transaction
command_transaction-Applied env cmd digest m =
    Leaves-guard (Applied cmd m) env.store_ok store_failed _ (
      command_step-Applied env cmd digest (lookup_ledger cmd.scope m)
        (read_snapshot cmd.connection_id cmd.generation m) m
        λ x h. find_row-holds (is_row cmd.connection_id cmd.generation) m.rows h)
