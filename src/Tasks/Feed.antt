-- ===== src/Tasks/Feed.antt =====
-- The event feed of the task repository: its numbers have no gap, and a client that follows them
-- reads every event.
use influxdb_desk.Base.{
  ℕ, zero, suc, ◌+◌, ◌-◌, ◌≡◌, refl, sym, ap, ◌∙◌, subst, Bool, true, false, some, List, [], ◌∷◌,
  ◌++◌, ltb, if◌then◌else◌, length, take, drop, ok, arith,
}
use influxdb_desk.Decimal.{print, canonical_decimal}
use influxdb_desk.Decimal.Order.{follows, follows-print}
use influxdb_desk.Decimal.RoundTrip.{canonical_decimal-print}
use influxdb_desk.Tasks.{Event, Tables}
use influxdb_desk.Tasks.Changes.{place, order, behind, page_limit, scan, changes}

-- The events have consecutive numbers from `first` on.
abbrev pub Numbered : ℕ → List Event → Type 0
Numbered first [] = Unit
Numbered first (e ∷ es) = (e.seq ≡ print first) × Numbered (suc first) es

-- The feed's numbers start at one, and the head is the last of them.
abbrev pub Feed : Tables → Type 0
Feed db = Numbered 1 db.events × (db.head ≡ some (print (length db.events)))

pub Numbered-append :
    (first : ℕ) (es : List Event) (e : Event)
    → Numbered first es
    → e.seq ≡ print (first + length es)
    → Numbered first (es ++ (e ∷ []))
Numbered-append first [] e h last = (last ∙ ap print (omega arith), tt)
Numbered-append first (f ∷ es) e h last =
    (h.0, Numbered-append (suc first) es e h.1 (last ∙ ap print (omega arith)))

Numbered-take : (n first : ℕ) (es : List Event) → Numbered first es → Numbered first (take n es)
Numbered-take zero first es h = tt
Numbered-take (suc n) first [] h = tt
Numbered-take (suc n) first (e ∷ es) h = (h.0, Numbered-take n (suc first) es h.1)

Numbered-drop :
    (n first : ℕ) (es : List Event) → Numbered first es → Numbered (n + first) (drop n es)
Numbered-drop zero first es h = subst (λ k. Numbered k es) (omega arith) h
Numbered-drop (suc n) first [] h = tt
Numbered-drop (suc n) first (e ∷ es) h =
    subst (λ k. Numbered k (drop n es)) (omega arith) (Numbered-drop n (suc first) es h.1)

order-Numbered : (first : ℕ) (es : List Event) → Numbered first es → order es ≡ es
unfolding order
order-Numbered first [] h = refl
order-Numbered first (e ∷ []) h = refl
order-Numbered first (e ∷ f ∷ es) h =
    let before : follows e.seq f.seq ≡ false =
      rw (h.0, h.1.0, follows-print first (suc first)) (ground arith) in
    ap (place e) (order-Numbered (suc first) (f ∷ es) h.1) ∙ rw before refl

drop-nil : (n : ℕ) → drop {A = Event} n [] ≡ []
drop-nil zero = refl
drop-nil (suc n) = refl

drop-behind :
    (later : Bool) (first k : ℕ) (e : Event) (es : List Event)
    → ltb k (suc first) ≡ later
    → (if later then e ∷ drop (k - suc first) es else drop (k - suc first) es)
      ≡ drop (k - first) (e ∷ es)
drop-behind true first k e es h =
    let none_left : k - first ≡ 0 = ground arith in
    let rest : k - suc first ≡ 0 = ground arith in rw (none_left, rest) refl
drop-behind false first k e es h =
    let step : k - first ≡ suc (k - suc first) = ground arith in rw step refl

behind-Numbered :
    (first k : ℕ) (es : List Event)
    → Numbered (suc first) es
    → behind (print k) es ≡ drop (k - first) es
unfolding behind
behind-Numbered first k [] h = sym (drop-nil (k - first))
behind-Numbered first k (e ∷ es) h =
    let test : follows e.seq (print k) ≡ ltb k (suc first) =
      ap (λ s. follows s (print k)) h.0 ∙ follows-print (suc first) k in
    let rest = behind-Numbered (suc first) k es h.1 in
    rw (test, rest) (drop-behind (ltb k (suc first)) first k e es refl)

scan-Numbered : (first : ℕ) (es : List Event) → Numbered first es → scan es ≡ ok es
unfolding scan
scan-Numbered first [] h = refl
scan-Numbered first (e ∷ es) h =
    rw (ap canonical_decimal h.0 ∙ canonical_decimal-print first, scan-Numbered (suc first) es h.1)
      refl

-- A page of the change feed behind event `k` is the events that follow the first `k` ones, in order
-- and without a gap, up to the limit; of no such event it is empty.
pub changes-Feed :
    (db : Tables) (k limit : ℕ)
    → Feed db
    → changes (print k) limit db ≡ ok (take (page_limit limit) (drop k db.events))
unfolding changes
changes-Feed db k limit feed =
    let all : behind (print k) db.events ≡ drop k db.events =
      behind-Numbered 0 k db.events feed.0 ∙ ap (λ n. drop n db.events) (omega arith) in
    let sorted = order-Numbered (k + 1) (drop k db.events) (Numbered-drop k 1 db.events feed.0) in
    let page = take (page_limit limit) (drop k db.events) in
    let numbered : Numbered (k + 1) page =
      Numbered-take (page_limit limit) (k + 1) (drop k db.events)
        (Numbered-drop k 1 db.events feed.0) in
    rw (canonical_decimal-print k, all, sorted) (scan-Numbered (k + 1) page numbered)
