-- ===== src/Evidence/Faithful.antt =====
-- That the stored evidence quotes the stored reports.
use mathlib.Core.List.Memᴰ
use mathlib.Core.List.{Memᴰ}
use aicti.Base.{
  ℕ, ◌-◌, ◌≤◌, String, ◌==◌, ◌≡◌, refl, sym, ap, ap₂, subst, ◌∙◌, Bool, true, false, Option, none,
  some, List, [], ◌∷◌, map, first, Result, ok, err, arith, eq_iff, inl, inr, Bool-cases,
  if◌then◌else◌, slice_text, slice-slice, text_length, ℤ, pos, negsuc, above, ltb_ℤ, ◌-ℤ◌,
}
use aicti.Db.{Db, Report, ReportChunk, EvidenceSpan}
use aicti.Ingestion.{repeats_key}
use aicti.Evidence.{
  EvidenceInput, EvidenceError, CitationError, verify_citation, check_quote, check_in_chunk,
  validate_evidence_span, validate_all, save_spans, persist_valid, persist_evidence, span_of,
}

-- The text of the chunk is what its report has between the chunk's positions.
abbrev pub Cut : Db → ReportChunk → Type 0
Cut db c =
    (r : Report) × Memᴰ r db.reports
    × (r.id ≡ c.report_id)
    × (c.char_start ≤ c.char_end)
    × (c.char_end ≤ text_length r.raw_text)
    × (c.chunk_text ≡ slice_text r.raw_text c.char_start c.char_end)

-- The quote is what the report of the chunk it names has between its positions.
abbrev pub Quoted : Db → EvidenceSpan → Type 0
Quoted db e =
    (c : ReportChunk) × Memᴰ c db.report_chunks
    × (c.id ≡ e.chunk_id)
    × (r : Report) × Memᴰ r db.reports
    × (r.id ≡ c.report_id)
    × (start stop : ℕ) × (e.char_start ≡ pos start)
    × (e.char_end ≡ pos stop)
    × (start ≤ stop)
    × (stop ≤ text_length r.raw_text)
    × (e.quote ≡ slice_text r.raw_text start stop)

pub record IsFaithful (db : Db) : Type 0 where
  pub cut : (c : ReportChunk) → Memᴰ c db.report_chunks → Cut db c
  pub quoted : (e : EvidenceSpan) → Memᴰ e db.evidence_spans → Quoted db e

quote_checked :
    (id : String) (r : Result CitationError Bool) → check_quote id r ≡ ok tt → r ≡ ok true
unfolding check_quote
quote_checked id (err CitationError.invalid_offsets) h = cc
quote_checked id (ok true) h = refl
quote_checked id (ok false) h = cc

citation_same :
    (text quote : String) (start stop : ℤ)
    → verify_citation text quote start stop ≡ ok true
    → slice_text text (above start) (above stop) ≡ quote
unfolding verify_citation
citation_same text quote start stop h =
    ground (arith, eq_iff (slice_text text (above start) (above stop)) quote)

-- What the tests on the positions and the quote tell.
in_bounds :
    (id text quote : String) (s e : ℤ) (from to : ℕ)
    → ltb_ℤ s (pos 0) ≡ false
    → ltb_ℤ e s ≡ false
    → ltb_ℤ s (pos from) ≡ false
    → ltb_ℤ (pos to) e ≡ false
    → check_quote id (verify_citation text quote (s -ℤ pos from) (e -ℤ pos from)) ≡ ok tt
    → (start stop : ℕ) × (s ≡ pos start)
      × (e ≡ pos stop)
      × (from ≤ start)
      × (start ≤ stop)
      × (stop ≤ to)
      × (slice_text text (start - from) (stop - from) ≡ quote)
in_bounds id text quote (negsuc s) e from to h1 h2 h3 h4 h5 = ground arith
in_bounds id text quote (pos s) (negsuc e) from to h1 h2 h3 h4 h5 = ground arith
in_bounds id text quote (pos s) (pos e) from to h1 h2 h3 h4 h5 =
    let starts : s - from ≡ above (pos s -ℤ pos from) = ground arith in
    let stops : e - from ≡ above (pos e -ℤ pos from) = ground arith in
    (
      s,
      e,
      refl,
      refl,
      ground arith,
      ground arith,
      ground arith,
      ap₂ (slice_text text) starts stops
          ∙ citation_same text quote (pos s -ℤ pos from) (pos e -ℤ pos from)
              (quote_checked id _ h5),
    )

some_injective : {A : Type 0} {a b : A} → some a ≡ some b → a ≡ b
some_injective h = cc

first-mem :
    {A : Type 0} (p : A → Bool) (xs : List A) (a : A)
    → first p xs ≡ some a
    → Memᴰ a xs × (p a ≡ true)
first-mem p [] a h = cc
first-mem p (x ∷ xs) a h = elim (Bool-cases (p x)) [
  | inl e ↦
      let same : x ≡ a = some_injective (rw (e, if◌then◌else◌) at h) in
      (Memᴰ.head (sym same), ap p (sym same) ∙ e)
  | inr e ↦ let (m, f) = first-mem p xs a (rw (e, if◌then◌else◌) at h) in (Memᴰ.tail m, f)
]

-- A quote of a chunk is one of the report.
requoted :
    (whole text quote : String) (from start stop to : ℕ)
    → text ≡ slice_text whole from to
    → from ≤ start
    → start ≤ stop
    → stop ≤ to
    → slice_text text (start - from) (stop - from) ≡ quote
    → quote ≡ slice_text whole start stop
requoted whole text quote from start stop to cut low ordered high same =
    sym same
    ∙ ap (λ t. slice_text t (start - from) (stop - from)) cut
    ∙ slice-slice whole from start stop to low ordered high

module _ {Float : Type 0} where
  checked :
      (ev : EvidenceInput Float) (db : Db) (o : Option ReportChunk)
      → o ≡ first (λ (c : ReportChunk). c.id == ev.chunk_id) db.report_chunks
      → ltb_ℤ ev.char_start (pos 0) ≡ false
      → ltb_ℤ ev.char_end ev.char_start ≡ false
      → check_in_chunk ev o ≡ ok tt
      → IsFaithful db
      → (report_id run_id : String) → Quoted db (span_of report_id run_id ev)
  unfolding check_in_chunk span_of
  checked ev db none found h1 h2 h faithful report_id run_id = cc
  checked ev db (some c) found h1 h2 h faithful report_id run_id =
      let before : ltb_ℤ ev.char_start (pos c.char_start) ≡ false = ground (arith, h) in
      let beyond : ltb_ℤ (pos c.char_end) ev.char_end ≡ false = ground (arith, h) in
      let cited : check_quote ev.evidence_id (
            verify_citation c.chunk_text ev.quote (ev.char_start -ℤ pos c.char_start)
              (ev.char_end -ℤ pos c.char_start))
          ≡ ok tt =
        ground (arith, h) in
      let (listed, named) = first-mem _ db.report_chunks c (sym found) in
      let (r, known, owner, order, inside, text) = faithful.cut c listed in
      let (start, stop, starts, stops, low, ordered, high, same) =
        in_bounds ev.evidence_id c.chunk_text ev.quote ev.char_start ev.char_end c.char_start
          c.char_end h1 h2 before beyond cited in
      (
        c,
        listed,
        (eq_iff c.id ev.chunk_id).0 named,
        r,
        known,
        owner,
        start,
        stop,
        starts,
        stops,
        ordered,
        omega (arith, high, inside),
        requoted r.raw_text c.chunk_text ev.quote c.char_start start stop c.char_end text low
            ordered high same,
      )

module _ {Float : Type 0} (is_share : Float → Bool) (db : Db) (faithful : IsFaithful db)
    (report_id run_id : String) where
  -- Evidence that passes its tests.
  validate_evidence_span-Quoted :
      (ev : EvidenceInput Float) {u : Unit {0}}
      → validate_evidence_span is_share db ev ≡ ok u
      → Quoted db (span_of report_id run_id ev)
  unfolding validate_evidence_span
  validate_evidence_span-Quoted ev h =
      let positive : ltb_ℤ ev.char_start (pos 0) ≡ false = ground (arith, h) in
      let ordered : ltb_ℤ ev.char_end ev.char_start ≡ false = ground (arith, h) in
      let inside : check_in_chunk ev
            (first (λ (c : ReportChunk). c.id == ev.chunk_id) db.report_chunks)
          ≡ ok tt =
        ground (arith, h) in
      checked ev db _ refl positive ordered inside faithful report_id run_id

  validate_all-Quoted :
      (evs : List (EvidenceInput Float)) {u : Unit {0}}
      → validate_all is_share db evs ≡ ok u
      → (e : EvidenceSpan) → Memᴰ e (map (span_of report_id run_id) evs)
      → Quoted db e
  unfolding validate_all
  validate_all-Quoted [] h e m = elim m [ ]
  validate_all-Quoted (ev ∷ evs) h e m =
      let valid : validate_evidence_span is_share db ev ≡ ok tt = ground (arith, h) in
      let rest : validate_all is_share db evs ≡ ok tt = ground (arith, h) in
      elim (Memᴰ.cases_cons m) [
        | inl same ↦ subst (Quoted db) (sym same) (validate_evidence_span-Quoted ev valid)
        | inr later ↦ validate_all-Quoted evs rest e later
      ]

  -- The commit adds spans only.
  save_spans-Kept :
      (evs : List (EvidenceInput Float))
      → ((e : EvidenceSpan) → Memᴰ e (map (span_of report_id run_id) evs) → Quoted db e)
      → IsFaithful (save_spans report_id run_id evs db).1
  unfolding save_spans
  save_spans-Kept evs valid =
      let repeated =
        repeats_key (map (λ (e : EvidenceSpan). e.id) db.evidence_spans)
          (map (λ (ev : EvidenceInput Float). ev.evidence_id) evs) in
      elim (Bool-cases repeated) [
        | inl e ↦ rw e faithful
        | inr e ↦ rw e (record {
          cut = faithful.cut;
          quoted = λ span m. elim (Memᴰ.append_cases db.evidence_spans m) [
            | inl old ↦ faithful.quoted span old
            | inr new ↦ valid span new
          ];
        })
      ]

  persist_valid-Kept :
      (evs : List (EvidenceInput Float)) (r : Result EvidenceError (Unit {0}))
      → validate_all is_share db evs ≡ r
      → IsFaithful (persist_valid report_id run_id evs r db).1
  unfolding persist_valid
  persist_valid-Kept evs (err e) h = faithful
  persist_valid-Kept evs (ok done) h = save_spans-Kept evs (validate_all-Quoted evs h)

  -- Evidence that is persisted quotes its report.
  pub persist_evidence-IsFaithful :
      (evs : List (EvidenceInput Float))
      → IsFaithful (persist_evidence is_share report_id run_id evs db).1
  unfolding persist_evidence
  persist_evidence-IsFaithful [] = faithful
  persist_evidence-IsFaithful (ev ∷ evs) = persist_valid-Kept (ev ∷ evs) _ refl
