-- ===== src/Policy/Batches.antt =====
-- internal/influxql/classifier.go: what `ClassifyQuery` decides on a batch of statements.
use influxdb_desk.Base.{
  ℕ, ◌+◌, ◌<◌, ◌≤◌, ◌≡◌, refl, sym, ap, ◌∙◌, subst, ◌≢◌, ◌↔◌, ◌⊎◌, inl, inr, Bool-cases, true,
  false, List, [], ◌∷◌, arith, length, All,
}
use influxdb_desk.Policy.{
  Classification, read_only, may_mutate, unsupported, Statement, select_statement,
  explain_statement, plain, nil_statement, bare_explain, classify_statement, Printer, Scan,
  StatementAnalysis, scan_from, classify_query, start, analysis_of, note, count_read,
  count_mutation, halt,
}
use influxdb_desk.Policy.Kinds.{Shows, classify_kind-Shows}
use influxdb_desk.Policy.Reads.{parts, IsTable, classify_select-read_only}

-- What a statement has to be to be sent without an unlock: a SELECT, explained or not, of
-- measurements alone, or one of the SHOW statements.
abbrev pub Reads : Statement → Type 0
Reads nil_statement = ⊥
Reads (select_statement s text) = All IsTable (parts s)
Reads (explain_statement s text) = All IsTable (parts s)
Reads (bare_explain text) = ⊥
Reads (plain k text) = Shows k

pub classify_statement-Reads : (s : Statement) → (classify_statement s ≡ read_only) ↔ Reads s
unfolding classify_statement
classify_statement-Reads nil_statement = (λ h. cc, λ h. elim h [ ])
classify_statement-Reads (select_statement s text) = classify_select-read_only s
classify_statement-Reads (explain_statement s text) = classify_select-read_only s
classify_statement-Reads (bare_explain text) = (λ h. cc, λ h. elim h [ ])
classify_statement-Reads (plain k text) = classify_kind-Shows k

abbrev IsRead : Statement → Type 0
IsRead s = classify_statement s ≡ read_only

from_classes : (l : List Statement) → All IsRead l → All Reads l
from_classes [] h = tt
from_classes (s ∷ l) h = ((classify_statement-Reads s).0 h.0, from_classes l h.1)

to_classes : (l : List Statement) → All Reads l → All IsRead l
to_classes [] h = tt
to_classes (s ∷ l) h = ((classify_statement-Reads s).1 h.0, to_classes l h.1)

class_cases : (c : Classification) → (c ≡ read_only) ⊎ ((c ≡ may_mutate) ⊎ (c ≡ unsupported))
class_cases read_only = inl refl
class_cases may_mutate = inr (inl refl)
class_cases unsupported = inr (inr refl)

module _ {ℓ} {Text : Type ℓ} (p : Printer Text) where
  -- What a loop that was not stopped has counted.
  abbrev Tally : Scan Text → List Statement → Scan Text → Type 0
  Tally acc l r =
      (r.reads + r.mutations ≡ acc.reads + acc.mutations + length l)
      × (r.reads ≤ acc.reads + length l)
      × (r.reads ≡ acc.reads + length l → All IsRead l)

  start_Tally : (i : ℕ) (acc : Scan Text) → Tally acc [] (scan_from p i acc [])
  unfolding scan_from
  start_Tally i acc = (omega arith, omega arith, λ _. tt)

  start_reads :
      (i : ℕ) (acc : Scan Text)
      → acc.stopped ≡ false
      → let r = scan_from p i acc [] in (r.stopped ≡ false) × (r.reads ≡ acc.reads + 0)
  unfolding scan_from
  start_reads i acc h = (h, omega arith)

  module _ (i : ℕ) (acc : Scan Text) (s : Statement) (l : List Statement) where
    after_read :
        classify_statement s ≡ read_only
        → scan_from p i acc (s ∷ l)
          ≡ scan_from p (i + 1) (count_read p acc (note p i s read_only)) l
    unfolding scan_from
    after_read h = ground arith

    after_mutation :
        classify_statement s ≡ may_mutate
        → scan_from p i acc (s ∷ l)
          ≡ scan_from p (i + 1) (count_mutation p acc (note p i s may_mutate)) l
    unfolding scan_from
    after_mutation h = ground arith

    after_unknown :
        classify_statement s ≡ unsupported
        → scan_from p i acc (s ∷ l) ≡ halt p acc (note p i s unsupported)
    unfolding scan_from
    after_unknown h = ground arith

  module _ (acc : Scan Text) (s : Statement) (l : List Statement) (n : StatementAnalysis Text) where
    read_Tally :
        (r : Scan Text)
        → classify_statement s ≡ read_only
        → Tally (count_read p acc n) l r
        → Tally acc (s ∷ l) r
    read_Tally r e t = (omega (arith, t.0), omega (arith, t.1), λ k. (e, t.2 (omega (arith, k))))

    mutation_Tally : (r : Scan Text) → Tally (count_mutation p acc n) l r → Tally acc (s ∷ l) r
    mutation_Tally r t =
        (omega (arith, t.0), omega (arith, t.1), λ k. absurd (omega (arith, t.1, k)))

  scan_from-Tally :
      (i : ℕ) (acc : Scan Text) (l : List Statement)
      → (scan_from p i acc l).stopped ≡ false
      → Tally acc l (scan_from p i acc l)
  scan_from-Tally i acc [] h = start_Tally i acc
  scan_from-Tally i acc (s ∷ l) h = elim (class_cases (classify_statement s)) [
    | inl e ↦
        let n = note p i s read_only in
        let step = after_read i acc s l e in
        subst (Tally acc (s ∷ l)) (sym step) (
          read_Tally acc s l n (scan_from p (i + 1) (count_read p acc n) l) e
            (scan_from-Tally (i + 1) (count_read p acc n) l (sym (ap (λ r. r.stopped) step) ∙ h)))
    | inr (inl e) ↦
        let n = note p i s may_mutate in
        let step = after_mutation i acc s l e in
        subst (Tally acc (s ∷ l)) (sym step) (
          mutation_Tally acc s l n (scan_from p (i + 1) (count_mutation p acc n) l) (
            scan_from-Tally (i + 1) (count_mutation p acc n) l
              (sym (ap (λ r. r.stopped) step) ∙ h)))
    | inr (inr e) ↦
        let bad : true ≡ false = sym (ap (λ r. r.stopped) (after_unknown i acc s l e)) ∙ h in cc
  ]

  scan_from-reads :
      (i : ℕ) (acc : Scan Text) (l : List Statement)
      → acc.stopped ≡ false
      → All IsRead l
      → let r = scan_from p i acc l in (r.stopped ≡ false) × (r.reads ≡ acc.reads + length l)
  scan_from-reads i acc [] h reads = start_reads i acc h
  scan_from-reads i acc (s ∷ l) h reads =
      let next = count_read p acc (note p i s read_only) in
      let t = scan_from-reads (i + 1) next l h reads.1 in
      rw (after_read i acc s l reads.0) (t.0, omega (arith, t.1))

  not_stopped :
      (l : List Statement) (r : Scan Text)
      → (analysis_of p l r).classification ≢ unsupported
      → r.stopped ≡ false
  not_stopped l r h = elim (Bool-cases r.stopped) [ inl e ↦ absurd (h (rw e refl)) | inr e ↦ e ]

  read_batch :
      (l : List Statement) (r : Scan Text)
      → (analysis_of p l r).classification ≡ read_only
      → (r.stopped ≡ false) × (r.reads ≡ length l)
  read_batch l r h = ground arith

  write_batch :
      (l : List Statement) (r : Scan Text)
      → (analysis_of p l r).classification ≡ may_mutate
      → (r.stopped ≡ false) × (r.reads ≢ length l) × (length l ≡ 1)
  write_batch l r h = ground arith

  whole_batch :
      (l : List Statement) (r : Scan Text)
      → r.stopped ≡ false
      → r.reads ≡ length l
      → (analysis_of p l r).classification ≡ read_only
  whole_batch l r h k = ground arith

  single :
      (s : Statement)
      → (analysis_of p (s ∷ []) (scan_from p 0 (start p) (s ∷ []))).classification ≡ may_mutate
      → classify_statement s ≡ may_mutate
  unfolding scan_from
  single s h = ground arith

  single_back :
      (s : Statement)
      → ((t : Statement) × (s ∷ [] ≡ t ∷ []) × (classify_statement t ≡ may_mutate))
      → (analysis_of p (s ∷ []) (scan_from p 0 (start p) (s ∷ []))).classification ≡ may_mutate
  unfolding scan_from
  single_back s h = ground (arith, h.1)

  mutation_canonical :
      (l : List Statement) (r : Scan Text)
      → (analysis_of p l r).classification ≡ may_mutate
      → (analysis_of p l r).canonical ≡ p.query l
  mutation_canonical l r h = ground arith

  -- The canonical text of a batch that may mutate is what the library prints it as.
  pub classify_query-canonical :
      (l : List Statement)
      → (classify_query p l).classification ≡ may_mutate
      → (classify_query p l).canonical ≡ p.query l
  unfolding classify_query
  classify_query-canonical [] h = cc
  classify_query-canonical (s ∷ l) h =
      mutation_canonical (s ∷ l) (scan_from p 0 (start p) (s ∷ l)) h

  -- A batch is read-only exactly when it is not empty and every statement in it reads: no SELECT
  -- in it, explained or not, has a target or an unknown source at any depth, and all else is one of
  -- the 21 SHOW statements that `Shows` lists.
  pub classify_query-read_only :
      (l : List Statement)
      → ((classify_query p l).classification ≡ read_only) ↔ ((0 < length l) × All Reads l)
  unfolding classify_query
  classify_query-read_only [] = (λ h. cc, λ h. absurd (omega (arith, h.0)))
  classify_query-read_only (s ∷ l) = (
    λ h.
        let r = scan_from p 0 (start p) (s ∷ l) in
        let b = read_batch (s ∷ l) r h in
        let t = scan_from-Tally 0 (start p) (s ∷ l) b.0 in
        (omega arith, from_classes (s ∷ l) (t.2 (omega (arith, b.1)))),
    λ h.
        let t = scan_from-reads 0 (start p) (s ∷ l) refl (to_classes (s ∷ l) h.1) in
        whole_batch (s ∷ l) (scan_from p 0 (start p) (s ∷ l)) t.0 (omega (arith, t.1)),
  )

  -- A batch may mutate exactly when it is one statement, and that one is a mutation.
  pub classify_query-may_mutate :
      (l : List Statement)
      → ((classify_query p l).classification ≡ may_mutate)
        ↔ ((s : Statement) × (l ≡ s ∷ []) × (classify_statement s ≡ may_mutate))
  unfolding classify_query
  classify_query-may_mutate [] = (λ h. cc, λ h. let e = h.1 in cc)
  classify_query-may_mutate (s ∷ []) = (λ h. (s, refl, single s h), λ h. single_back s h)
  classify_query-may_mutate (s ∷ t ∷ l) = (
    λ h.
        absurd (omega (arith, (write_batch (s ∷ t ∷ l) (scan_from p 0 (start p) (s ∷ t ∷ l)) h).2)),
    λ h. let e = h.1 in cc,
  )
