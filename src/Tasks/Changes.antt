-- ===== src/Tasks/Changes.antt =====
-- internal/tasks/repository.go: `EventHead` and the change feed `Changes`.
use influxdb_desk.Base.{
  ℕ, ◌||◌, List, [], ◌∷◌, ltb, ◌==◌, if◌then◌else◌, take, Result, ok, or_fail, ◌>>=◌,
}
use influxdb_desk.Decimal.{Bytes, canonical_decimal}
use influxdb_desk.Decimal.Order.{follows}
use influxdb_desk.Tasks.{Error, store_failed, Event, Tables}
use influxdb_desk.Tasks.Repository.{decimal}

-- `EventHead`
unfoldable pub event_head : Tables → Result Error Bytes
event_head db = do
  head ← or_fail db.head store_failed
  canonical ← decimal (canonical_decimal head)
  ok head

-- `ORDER BY length(seq),seq`
abbrev pub place : Event → List Event → List Event
place e [] = e ∷ []
place e (f ∷ rest) =
    let later = place e rest in if follows e.seq f.seq then f ∷ later else e ∷ f ∷ rest

unfoldable pub order : List Event → List Event
order [] = []
order (e ∷ rest) = place e (order rest)

-- The `WHERE` of the query.
unfoldable pub behind : Bytes → List Event → List Event
behind after [] = []
behind after (e ∷ rest) =
    let others = behind after rest in if follows e.seq after then e ∷ others else others

-- `limit` as a Go `int` that is not negative; zero and more than 1000 are 1000.
abbrev pub page_limit : ℕ → ℕ
page_limit limit = if limit == 0 || ltb 1000 limit then 1000 else limit

-- Each event's number is read.
unfoldable pub scan : List Event → Result Error (List Event)
scan [] = ok []
scan (e ∷ rest) = do
  canonical ← decimal (canonical_decimal e.seq)
  others ← scan rest
  ok (e ∷ others)

-- `Changes`
unfoldable pub changes : Bytes → ℕ → Tables → Result Error (List Event)
unfolding order behind scan
changes after limit db = do
  canonical ← decimal (canonical_decimal after)
  scan (take (page_limit limit) (order (behind canonical db.events)))
