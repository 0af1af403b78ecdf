-- ===== src/Ingestion.antt =====
-- services/ingestion.py: the ingestion of a report. The content stands as the text that its bytes decode
-- to, so its hash is that of the text in UTF-8. The encoded metadata, which nothing reads, is left out.
pub mod Parts
pub mod Stored
pub mod Again
use aicti.Base.{
  ℕ, suc, ◌+◌, ◌-◌, String, ◌==◌, Bool, true, false, ◌&&◌, ◌||◌, not, Option, none, some, List, [],
  ◌∷◌, ◌++◌, map, any, all, keep, first, elem, Result, ok, err, ◌>>=◌, ◌>>◌, require, leb,
  if◌then◌else◌, slice_text, split_text, find_from, text_length, ◌=?◌,
}
use aicti.Value.{Value, Fields, end, field}
use aicti.Library.{Library}
use aicti.Hashing.{make_idempotency_key}
use aicti.Db.{Db, Report, ReportChunk}

-- `invalid_utf8` is the `ValueError`; `multiple_reports` is the exception of a query for one row that finds
-- more, and `integrity_error` that of a commit which would repeat a key. `part_not_found` stands for the
-- rest of `_build_chunks` after a `find` that gives -1.
pub data IngestionError : Type 0 where
  invalid_utf8 multiple_reports integrity_error part_not_found : IngestionError

pub record IngestionChunk : Type 0 where
  pub chunk_id : String
  pub char_start : ℕ
  pub char_end : ℕ

pub record IngestionResult : Type 0 where
  pub report_id : String
  pub chunks : List IngestionChunk

-- `ORDER BY chunk_index`
insert_chunk : ReportChunk → List ReportChunk → List ReportChunk
insert_chunk c [] = c ∷ []
insert_chunk c (d ∷ ds) =
    let rest = insert_chunk c ds in if leb c.chunk_index d.chunk_index then c ∷ d ∷ ds else d ∷ rest

unfoldable pub by_index : List ReportChunk → List ReportChunk
unfolding insert_chunk
by_index [] = []
by_index (c ∷ cs) = insert_chunk c (by_index cs)

unfoldable pub to_ingestion_chunk : ReportChunk → IngestionChunk
to_ingestion_chunk c = record { chunk_id = c.id; char_start = c.char_start; char_end = c.char_end }

-- What is returned for a report that is there.
unfoldable pub existing : Report → Db → IngestionResult
existing report db = record {
  report_id = report.id;
  chunks =
      map to_ingestion_chunk
        (by_index (keep (λ (c : ReportChunk). c.report_id == report.id) db.report_chunks));
}

-- The row of a chunk.
unfoldable pub report_chunk : String → String → ℕ → IngestionChunk → ReportChunk
report_chunk report_id raw_text index chunk = record {
  id = chunk.chunk_id;
  report_id = report_id;
  chunk_index = index;
  chunk_text = slice_text raw_text chunk.char_start chunk.char_end;
  char_start = chunk.char_start;
  char_end = chunk.char_end;
}

-- The rows, numbered from `index` on.
unfoldable pub report_chunks_of : String → String → ℕ → List IngestionChunk → List ReportChunk
unfolding report_chunk
report_chunks_of report_id raw_text index [] = []
report_chunks_of report_id raw_text index (c ∷ cs) =
    report_chunk report_id raw_text index c ∷ report_chunks_of report_id raw_text (suc index) cs

-- Whether two of the rows to add, or one of them and one stored, have the same primary key.
unfoldable pub repeats_key : List String → List String → Bool
repeats_key stored [] = false
repeats_key stored (key ∷ keys) = elem ◌==◌ key stored || repeats_key (key ∷ stored) keys

-- Whether the commit of a report with its chunks would repeat a key; a new report's chunks have places of
-- their own.
unfoldable pub keys_repeat : Report → List ReportChunk → Db → Bool
unfolding repeats_key
keys_repeat report chunks db =
    repeats_key (map (λ (r : Report). r.id) db.reports) (report.id ∷ [])
    || any (λ (r : Report). r.content_hash == report.content_hash) db.reports
    || repeats_key (map (λ (c : ReportChunk). c.id) db.report_chunks)
        (map (λ (c : ReportChunk). c.id) chunks)
    || any
        (λ (c : ReportChunk).
          c.report_id == report.id
          && any (λ (d : ReportChunk). d.chunk_index =? c.chunk_index) chunks)
        db.report_chunks

-- The commit, by whether it would.
unfoldable pub commit :
    Bool → Report → List ReportChunk → Db → Result IngestionError (Unit {0}) × Db
commit true report chunks db = (err integrity_error, db)
commit false report chunks db = (
  ok tt,
  record db { reports = db.reports ++ report ∷ []; report_chunks = db.report_chunks ++ chunks },
)

unfoldable pub save_report : Report → List ReportChunk → Db → Result IngestionError (Unit {0}) × Db
unfolding keys_repeat commit
save_report report chunks db = commit (keys_repeat report chunks db) report chunks db

module _ (library : Library) where
  unfoldable pub chunk_key : String → ℕ → String → ℕ → ℕ → String
  chunk_key report_id index part start stop = make_idempotency_key library "chunk" (
      Value.dict (
        field "report_id" (Value.text report_id) (
          field "chunk_index" (Value.int index) (
            field "chunk_text" (Value.text part)
              (field "char_start" (Value.int start) (field "char_end" (Value.int stop) end))))))

  -- One turn of the loop of `_build_chunks`, with what `find` gives and the turns from a cursor on.
  unfoldable pub place :
      String
      → ℕ
      → String
      → Option ℕ
      → (ℕ → Result IngestionError (List IngestionChunk))
      → Result IngestionError (List IngestionChunk)
  unfolding chunk_key
  place report_id index part none later = err part_not_found
  place report_id index part (some start) later = do
    let stop = start + text_length part
    rest ← later (stop + 2)
    ok (
        (record {
          chunk_id = chunk_key report_id index part start stop;
          char_start = start;
          char_end = stop;
        })
        ∷ rest)

  -- The loop of `_build_chunks`, at the cursor and the index given.
  unfoldable pub build_from :
      String → String → ℕ → ℕ → List String → Result IngestionError (List IngestionChunk)
  unfolding place
  build_from report_id text cursor index [] = ok []
  build_from report_id text cursor index (part ∷ parts) =
      place report_id index part (find_from part text cursor)
        (λ next. build_from report_id text next (suc index) parts)

  unfoldable pub build_chunks : String → String → Result IngestionError (List IngestionChunk)
  unfolding build_from
  build_chunks report_id text = build_from report_id text 0 0 (split_text "\n\n" text)

  unfoldable pub report_key : String → String → String → String
  report_key source_type filename content_hash = make_idempotency_key library "report" (
      Value.dict (
        field "source_type" (Value.text source_type) (
          field "filename" (Value.text filename)
            (field "content_hash" (Value.text content_hash) end))))

  unfoldable pub new_report : String → String → String → Report
  unfolding report_key
  new_report source_type filename raw_text = record {
    id = report_key source_type filename (library.sha256 raw_text);
    source_type = source_type;
    source_uri = filename;
    raw_text = raw_text;
    content_hash = library.sha256 raw_text;
  }

  -- The end of `ingest`, with the chunks built.
  unfoldable pub store :
      Report
      → Result IngestionError (List IngestionChunk)
      → Db
      → Result IngestionError IngestionResult × Db
  store report (err e) db = (err e, db)
  store report (ok chunks) db =
      let (saved, db') =
        save_report report (report_chunks_of report.id report.raw_text 0 chunks) db in
      ((do saved; ok (record { report_id = report.id; chunks = chunks })), db')

  -- From the query for a report with the content's hash on.
  unfoldable pub ingest_found :
      List Report → Report → Db → Result IngestionError IngestionResult × Db
  unfolding build_chunks store
  ingest_found [] report db = store report (build_chunks report.id report.raw_text) db
  ingest_found (found ∷ []) report db = (ok (existing found db), db)
  ingest_found (found ∷ other ∷ reports) report db = (err multiple_reports, db)

  -- The content is none where its bytes are no UTF-8.
  unfoldable pub ingest :
      String → String → Option String → Db → Result IngestionError IngestionResult × Db
  unfolding new_report ingest_found
  ingest source_type filename none db = (err invalid_utf8, db)
  ingest source_type filename (some raw_text) db =
      ingest_found (keep (λ (r : Report). r.content_hash == library.sha256 raw_text) db.reports)
        (new_report source_type filename raw_text) db
