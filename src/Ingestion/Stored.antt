-- ===== src/Ingestion/Stored.antt =====
-- What the ingestion of a new content stores.
use aicti.Base.{
  ℕ, suc, String, ◌≡◌, refl, ap, ◌∙◌, ◌⊎◌, inl, inr, Bool, true, false, some, List, [], ◌∷◌, ◌++◌,
  map, keep, Result, ok, err, ◌>>◌, ◌==◌, Bool-cases, ◌&&◌, ◌||◌, not, all, any, elem, eq_iff,
  arith, sym, ◌=?◌, join, join-split, split_text, slice_text,
}
use aicti.Library.{Library}
use aicti.Db.{Db, Report, ReportChunk}
use aicti.Ingestion.{
  IngestionError, IngestionChunk, IngestionResult, integrity_error, report_chunk, report_chunks_of,
  keys_repeat, repeats_key, commit, save_report, new_report, store, ingest_found, ingest,
}
use aicti.Ingestion.Parts.{blank_line, Within, texts_of, build_chunks-parts}

-- Whether the content's hash is that of no stored report.
abbrev pub IsUnknown : Library → String → Db → Type 0
IsUnknown library raw_text db =
    keep (λ (r : Report). r.content_hash == library.sha256 raw_text) db.reports ≡ []

-- Whether the texts differ from each other.
abbrev pub distinct : List String → Bool
distinct [] = true
distinct (key ∷ keys) = not (elem ◌==◌ key keys) && distinct keys

-- Whether none of the texts is among those stored.
abbrev pub apart : List String → List String → Bool
apart stored keys = all (λ key. not (elem ◌==◌ key stored)) keys

-- No stored report has the report's identifier, no two of the chunks to add have one identifier, nor has one
-- of them that of a stored chunk, and no stored chunk stands at the report and the index of one of them.
abbrev pub IsFree : Report → List ReportChunk → Db → Type 0
IsFree report rows db =
    (apart (map (λ (r : Report). r.id) db.reports) (report.id ∷ []) ≡ true)
    × (distinct (map (λ (c : ReportChunk). c.id) rows) ≡ true)
    × (apart (map (λ (c : ReportChunk). c.id) db.report_chunks)
          (map (λ (c : ReportChunk). c.id) rows)
        ≡ true)
    × (any
          (λ (c : ReportChunk).
            c.report_id == report.id
            && any (λ (d : ReportChunk). d.chunk_index =? c.chunk_index) rows)
          db.report_chunks
        ≡ false)

exchange : (a b c d : Bool) → (not (a || b) && (not c && d)) ≡ (not (a || c) && (not b && d))
exchange true b c d = refl
exchange false true true d = refl
exchange false true false d = refl
exchange false false true d = refl
exchange false false false d = refl

eq_sym : (s t : String) → (s == t) ≡ (t == s)
eq_sym s t = ground (arith, eq_iff s t, eq_iff t s)

apart-cons :
    (key : String) (stored keys : List String)
    → apart (key ∷ stored) keys ≡ (not (elem ◌==◌ key keys) && apart stored keys)
apart-cons key stored [] = refl
apart-cons key stored (k ∷ keys) =
    ap (λ x. not (k == key || elem ◌==◌ k stored) && x) (apart-cons key stored keys)
    ∙ exchange (k == key) (elem ◌==◌ k stored) (elem ◌==◌ key keys) (apart stored keys)
    ∙ ap (λ b. not (b || elem ◌==◌ key keys) && (not (elem ◌==◌ k stored) && apart stored keys))
        (eq_sym k key)

gather : (e d k p : Bool) → (e || not (d && (not k && p))) ≡ not (not k && d && (not e && p))
gather true true true p = refl
gather true true false p = refl
gather true false true p = refl
gather true false false p = refl
gather false true true p = refl
gather false true false p = refl
gather false false true p = refl
gather false false false p = refl

repeats_key-distinct :
    (stored keys : List String) → repeats_key stored keys ≡ not (distinct keys && apart stored keys)
unfolding repeats_key
repeats_key-distinct stored [] = refl
repeats_key-distinct stored (key ∷ keys) =
    ap (λ x. elem ◌==◌ key stored || x)
      (repeats_key-distinct (key ∷ stored) keys
        ∙ ap (λ x. not (distinct keys && x)) (apart-cons key stored keys))
    ∙ gather (elem ◌==◌ key stored) (distinct keys) (elem ◌==◌ key keys) (apart stored keys)

keep_none-any : {A : Type 0} (p : A → Bool) (xs : List A) → keep p xs ≡ [] → any p xs ≡ false
keep_none-any p [] h = refl
keep_none-any p (x ∷ xs) h = ground (arith, h, keep_none-any p xs)

contradictory : ¬ (true ≡ false)
contradictory h = cc

none_taken :
    (a d p l : Bool)
    → (not a || false || not (d && p) || l) ≡ false
    → (a ≡ true) × (d ≡ true) × (p ≡ true) × (l ≡ false)
none_taken true true true false h = (refl, refl, refl, refl)
none_taken true true true true h = cc
none_taken true true false l h = cc
none_taken true false p l h = cc
none_taken false d p l h = cc

all_free :
    (a d p l : Bool)
    → (a ≡ true) × (d ≡ true) × (p ≡ true) × (l ≡ false)
    → (not a || false || not (d && p) || l) ≡ false
all_free a d p l (i, j, k, m) = rw (i) (rw (j) (rw (k) (rw (m) refl)))

-- The commit goes through just where all is free.
keys_repeat-IsFree :
    (report : Report) (rows : List ReportChunk) (db : Db)
    → any (λ (r : Report). r.content_hash == report.content_hash) db.reports ≡ false
    → ((keys_repeat report rows db ≡ false) → IsFree report rows db)
      × (IsFree report rows db → keys_repeat report rows db ≡ false)
unfolding keys_repeat
keys_repeat-IsFree report rows db unknown =
    let ids = map (λ (r : Report). r.id) db.reports in
    let keys = map (λ (c : ReportChunk). c.id) rows in
    let stored = map (λ (c : ReportChunk). c.id) db.report_chunks in
    let place =
      any
        (λ (c : ReportChunk).
          c.report_id == report.id
          && any (λ (d : ReportChunk). d.chunk_index =? c.chunk_index) rows)
        db.report_chunks in
    let parts : keys_repeat report rows db ≡ (
        not (apart ids (report.id ∷ []))
        || false
        || not (distinct keys && apart stored keys)
        || place) =
      ap
        (λ a.
          a
          || any (λ (r : Report). r.content_hash == report.content_hash) db.reports
          || repeats_key stored keys
          || place)
        (repeats_key-distinct ids (report.id ∷ []))
      ∙ ap (λ b. not (apart ids (report.id ∷ [])) || b || repeats_key stored keys || place) unknown
      ∙ ap (λ c. not (apart ids (report.id ∷ [])) || false || c || place)
          (repeats_key-distinct stored keys) in
    (
      (λ h.
          none_taken (apart ids (report.id ∷ [])) (distinct keys) (apart stored keys) place
            (sym parts ∙ h)),
      λ free.
          parts
          ∙ all_free (apart ids (report.id ∷ [])) (distinct keys) (apart stored keys) place free,
    )

-- The database with a report and its chunks, and the answer.
abbrev pub with_report : Report → List IngestionChunk → Db → Db
with_report report chunks db = record db {
  reports = db.reports ++ report ∷ [];
  report_chunks = db.report_chunks ++ report_chunks_of report.id report.raw_text 0 chunks;
}

texts_of-rows :
    (id text : String) (index : ℕ) (chunks : List IngestionChunk)
    → map (λ (c : ReportChunk). c.chunk_text) (report_chunks_of id text index chunks)
      ≡ texts_of text chunks
unfolding report_chunks_of report_chunk
texts_of-rows id text index [] = refl
texts_of-rows id text index (c ∷ cs) =
    ap (λ ts. slice_text text c.char_start c.char_end ∷ ts) (texts_of-rows id text (suc index) cs)

module _ (library : Library) (source_type filename raw_text : String) (db : Db) where
  -- The report of a new content.
  abbrev pub report : Report
  report = new_report library source_type filename raw_text

  abbrev answer : List IngestionChunk → IngestionResult
  answer chunks = record { report_id = report.id; chunks = chunks }

  -- A new content, whose chunks are always found.
  pub ingest-new :
      IsUnknown library raw_text db
      → (chunks : List IngestionChunk) × (texts_of raw_text chunks ≡ split_text blank_line raw_text)
        × Within raw_text chunks
        × (((keys_repeat report (report_chunks_of report.id raw_text 0 chunks) db ≡ true)
              × (ingest library source_type filename (some raw_text) db
                  ≡ (err integrity_error, db)))
            ⊎ ((keys_repeat report (report_chunks_of report.id raw_text 0 chunks) db ≡ false)
                × (ingest library source_type filename (some raw_text) db
                    ≡ (ok (answer chunks), with_report report chunks db))))
  unfolding ingest ingest_found store save_report commit new_report
  ingest-new unknown =
      let (chunks, built, texts, within) = build_chunks-parts library report.id raw_text in
      let rows = report_chunks_of report.id raw_text 0 chunks in
      let saved : Bool → Result IngestionError IngestionResult × Db =
        λ b. ((do (commit b report rows db).0; ok (answer chunks)), (commit b report rows db).1) in
      let run : ingest library source_type filename (some raw_text) db
          ≡ store library report (ok chunks) db =
        ap (λ found. ingest_found library found report db) unknown
        ∙ ap (λ b. store library report b db) built in
      (
        chunks,
        texts,
        within,
        elim (Bool-cases (keys_repeat report rows db)) [
          | inl e ↦ inl (e, run ∙ ap saved e)
          | inr e ↦ inr (e, run ∙ ap saved e)
        ],
      )

  -- A content whose hash no stored report has is cut at its blank lines into chunks that lie within it. If
  -- the report's identifier, the chunks' identifiers or their places are not free, the ingestion raises
  -- the integrity error and leaves the database as it is; if they are, the report is stored with its
  -- chunks, and the texts of the stored chunks, joined by blank lines, are the content.
  pub join-ingest :
      IsUnknown library raw_text db
      → (chunks : List IngestionChunk) × Within raw_text chunks
        × (((¬ IsFree report (report_chunks_of report.id raw_text 0 chunks) db)
              × (ingest library source_type filename (some raw_text) db
                  ≡ (err integrity_error, db)))
            ⊎ (IsFree report (report_chunks_of report.id raw_text 0 chunks) db
                × (ingest library source_type filename (some raw_text) db
                    ≡ (ok (answer chunks), with_report report chunks db))
                × (join blank_line (
                      map
                        (λ (c : ReportChunk). c.chunk_text)
                        (report_chunks_of report.id raw_text 0 chunks))
                    ≡ raw_text)))
  unfolding new_report
  join-ingest unknown =
      let (chunks, texts, within, outcome) = ingest-new unknown in
      let (to_free, from_free) =
        keys_repeat-IsFree report (report_chunks_of report.id raw_text 0 chunks) db
          (keep_none-any _ db.reports unknown) in
      (
        chunks,
        within,
        elim outcome [
          | inl (repeated, run) ↦ inl ((λ free. contradictory (sym repeated ∙ from_free free)), run)
          | inr (fresh, run) ↦ inr (
            to_free fresh,
            run,
            ap (join blank_line) (texts_of-rows report.id raw_text 0 chunks ∙ texts)
                ∙ join-split _ _ raw_text,
          )
        ],
      )
