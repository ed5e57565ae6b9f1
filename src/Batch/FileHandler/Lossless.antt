-- ===== src/Batch/FileHandler/Lossless.antt =====
-- `parse` and `assembleOutput` of app/src/batch/batch_file_handler.cpp together.
use qtrans.Base.{Bytes, ℕ, ◌≡◌, List, ◌++◌, length, drop, ok, err, arith}
use qtrans.Batch.Types.{BatchFileType, unknown, plain_text, txt, md, srt, BatchSegment, BatchFile}
use qtrans.Batch.FileHandler.{
  line_spans, parse_plain, parse_srt, parse_document, ParseResult, assemble_segments,
  assemble_document,
}
use qtrans.Batch.FileHandler.Lines.{line_spans-Chain}
use qtrans.Batch.FileHandler.Reading.{Reads, assemble_segments-Reads}
use qtrans.Batch.FileHandler.Plain.{parse_plain-Reads}
use qtrans.Batch.FileHandler.Srt.{IsSrt, parse_srt-IsSrt}

reading_lossless :
    (Gap : ℕ → ℕ → Type 0) (document : Bytes) (segments : List BatchSegment) (cursor : ℕ)
    → Reads document (line_spans document) Gap 0 0 0 segments cursor
    → assemble_segments segments ++ drop cursor document ≡ document
reading_lossless Gap document segments cursor r =
    assemble_segments-Reads document (line_spans document) Gap (length document) 0 0 0 cursor
      segments (line_spans-Chain document) (λ k a b. omega arith) r

-- The document of a file that has just been read, before anything of it is translated.
abbrev pub IsRestored : BatchFile → Bytes → ParseResult → Type 0
IsRestored file document (ok (segments, trailing)) =
    assemble_document (record file { segments = segments; trailing_text = trailing }) ≡ document
IsRestored file document (err e) = Unit

restored :
    (Gap : ℕ → ℕ → Type 0) (file : BatchFile) (document : Bytes) (segments : List BatchSegment)
    (cursor : ℕ) (trailing : Bytes)
    → Reads document (line_spans document) Gap 0 0 0 segments cursor
    → trailing ≡ drop cursor document
    → IsRestored file document (ok (segments, trailing))
unfolding assemble_document
restored Gap file document segments cursor trailing r e =
    rw e (reading_lossless Gap document segments cursor r)

IsRestored-srt :
    (file : BatchFile) (document : Bytes) (r : ParseResult)
    → IsSrt document r
    → IsRestored file document r
IsRestored-srt file document (ok (segments, trailing)) (_, cursor, r, e) =
    restored _ file document segments cursor trailing r e
IsRestored-srt file document (err e) h = tt

plain : (file : BatchFile) (document : Bytes) → IsRestored file document (ok (parse_plain document))
plain file document =
    let (cursor, r, e) = parse_plain-Reads document in
    restored _ file document (parse_plain document).0 cursor (parse_plain document).1 r e

of_type :
    (file : BatchFile) (document : Bytes) (t : BatchFileType)
    → IsRestored file document (parse_document t document)
unfolding parse_document
of_type file document unknown = tt
of_type file document plain_text = plain file document
of_type file document txt = plain file document
of_type file document md = plain file document
of_type file document srt =
    IsRestored-srt file document (parse_srt document) (parse_srt-IsSrt document)

-- Reading a document and writing it with no segment translated gives the document back, byte by
-- byte: of plain text always, of subtitles unless reading them is refused.
pub parse_document_lossless :
    (file : BatchFile) (document : Bytes)
    → IsRestored file document (parse_document file.file_type document)
parse_document_lossless file document = of_type file document file.file_type
