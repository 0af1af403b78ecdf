-- ===== src/Evidence/Sessions.antt =====
-- Ingestions and persisted evidence, one after the other.
use mathlib.Core.List.Memᴰ
use mathlib.Core.List.{Memᴰ}
use aicti.Base.{
  ℕ, suc, String, ◌≡◌, refl, sym, ap, subst, inl, inr, Bool, Option, none, some, List, [], ◌∷◌,
  keep, ◌==◌,
}
use aicti.Library.{Library}
use aicti.Db.{Db, Report, ReportChunk, EvidenceSpan}
use aicti.Ingestion.{
  IngestionChunk, report_chunk, report_chunks_of, ingest_found, new_report, ingest,
}
use aicti.Ingestion.Parts.{Within}
use aicti.Ingestion.Stored.{with_report, ingest-new}
use aicti.Evidence.{EvidenceInput, persist_evidence}
use aicti.Evidence.Faithful.{Cut, Quoted, IsFaithful, persist_evidence-IsFaithful}

Cut-with_report :
    (db : Db) (report : Report) (chunks : List IngestionChunk) (c : ReportChunk)
    → Cut db c
    → Cut (with_report report chunks db) c
Cut-with_report db report chunks c (r, known, same, ordered, inside, text) =
    (r, Memᴰ.append_left (report ∷ []) known, same, ordered, inside, text)

Quoted-with_report :
    (db : Db) (report : Report) (chunks : List IngestionChunk) (e : EvidenceSpan)
    → Quoted db e
    → Quoted (with_report report chunks db) e
Quoted-with_report db report chunks e
      (c, listed, named, r, known, same, start, stop, starts, stops, ordered, inside, quote) =
    (
      c,
      Memᴰ.append_left (report_chunks_of report.id report.raw_text 0 chunks) listed,
      named,
      r,
      Memᴰ.append_left (report ∷ []) known,
      same,
      start,
      stop,
      starts,
      stops,
      ordered,
      inside,
      quote,
    )

-- The rows of chunks within the text of a stored report.
rows-Cut :
    (db : Db) (report : Report) (index : ℕ) (chunks : List IngestionChunk)
    → Memᴰ report db.reports
    → Within report.raw_text chunks
    → (c : ReportChunk) → Memᴰ c (report_chunks_of report.id report.raw_text index chunks)
    → Cut db c
unfolding report_chunks_of report_chunk
rows-Cut db report index [] known within c m = elim m [ ]
rows-Cut db report index (d ∷ ds) known (ordered, inside, within) c m = elim (Memᴰ.cases_cons m) [
  | inl same ↦ subst (Cut db) (sym same) (report, known, refl, ordered, inside, refl)
  | inr later ↦ rows-Cut db report (suc index) ds known within c later
]

with_report-IsFaithful :
    (db : Db) (report : Report) (chunks : List IngestionChunk)
    → Within report.raw_text chunks
    → IsFaithful db
    → IsFaithful (with_report report chunks db)
with_report-IsFaithful db report chunks within faithful = record {
  cut = λ c m. elim (Memᴰ.append_cases db.report_chunks m) [
    | inl old ↦ Cut-with_report db report chunks c (faithful.cut c old)
    | inr new ↦
        rows-Cut (with_report report chunks db) report 0 chunks
          (Memᴰ.append_right db.reports (Memᴰ.head refl)) within c new
  ];
  quoted = λ e m. Quoted-with_report db report chunks e (faithful.quoted e m);
}

module _ (library : Library) (source_type filename : String) (db : Db)
    (faithful : IsFaithful db) where
  ingest_found-IsFaithful :
      (raw_text : String) (found : List Report)
      → keep (λ (r : Report). r.content_hash == library.sha256 raw_text) db.reports ≡ found
      → IsFaithful (ingest library source_type filename (some raw_text) db).1
  unfolding ingest ingest_found new_report
  ingest_found-IsFaithful raw_text [] e =
      let (chunks, texts, within, outcome) =
        ingest-new library source_type filename raw_text db e in
      elim outcome [
        | inl (repeated, run) ↦ subst IsFaithful (sym (ap (λ o. o.1) run)) faithful
        | inr (fresh, run) ↦ subst IsFaithful (sym (ap (λ o. o.1) run)) (
            with_report-IsFaithful db (new_report library source_type filename raw_text) chunks
              within faithful)
      ]
  ingest_found-IsFaithful raw_text (r ∷ []) e =
      subst IsFaithful
        (sym (
          ap
            (λ found.
              (ingest_found library found (new_report library source_type filename raw_text) db).1)
            e))
        faithful
  ingest_found-IsFaithful raw_text (r ∷ s ∷ rs) e =
      subst IsFaithful
        (sym (
          ap
            (λ found.
              (ingest_found library found (new_report library source_type filename raw_text) db).1)
            e))
        faithful

  ingest-IsFaithful :
      (content : Option String) → IsFaithful (ingest library source_type filename content db).1
  unfolding ingest
  ingest-IsFaithful none = faithful
  ingest-IsFaithful (some raw_text) = ingest_found-IsFaithful raw_text _ refl

-- A call of one of the two services.
pub data Request (Float : Type 0) : Type 0 where
  ingestion : String → String → Option String → Request Float
  evidence : String → String → List (EvidenceInput Float) → Request Float

module _ {Float : Type 0} (library : Library) (is_share : Float → Bool) where
  -- The database after the calls, whether they return or raise.
  abbrev pub session : List (Request Float) → Db → Db
  session [] db = db
  session (ingestion source_type filename content ∷ requests) db =
      session requests (ingest library source_type filename content db).1
  session (evidence report_id run_id evs ∷ requests) db =
      session requests (persist_evidence is_share report_id run_id evs db).1

  -- Calls of `ingest` and `persist_evidence`, in any order and whether they return or raise, keep a
  -- database faithful: each stored chunk is the text that its report has between the chunk's positions, which are
  -- in order and within the report, and each stored piece of evidence has as its quote the text between
  -- its own positions in the report of the chunk that it names, and these are in order and within that report too.
  pub session-IsFaithful :
      (requests : List (Request Float)) (db : Db) → IsFaithful db → IsFaithful (session requests db)
  session-IsFaithful [] db faithful = faithful
  session-IsFaithful (ingestion source_type filename content ∷ requests) db faithful =
      session-IsFaithful requests _
        (ingest-IsFaithful library source_type filename db faithful content)
  session-IsFaithful (evidence report_id run_id evs ∷ requests) db faithful =
      session-IsFaithful requests _
        (persist_evidence-IsFaithful is_share db faithful report_id run_id evs)
