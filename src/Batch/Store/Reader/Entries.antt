-- ===== src/Batch/Store/Reader/Entries.antt =====
-- The lines of an entry are read back.
use qtrans.Base.{
  Bytes, ℕ, ◌+◌, ◌<◌, ◌≤◌, ◌≡◌, ◌≢◌, refl, ◌∙◌, true, false, Option, none, some, List, [], ◌∷◌,
  ◌++◌, All, is_empty, ◌==◌, leb, ltb, length, ok, arith, codes,
}
use qtrans.Base.Decimal.{to_string, sto-to_string, sto}
use qtrans.Batch.Types.{BatchEntry, BatchEntryState, BatchFileType, plain_text}
use qtrans.Batch.Store.Codec.{Lacks, Lacks-of_lacks, make_kv}
use qtrans.Batch.Store.Texts.{to_string-Lacks}
use qtrans.Batch.Store.Format.{optional_kv, number_kv, file_type_text, state_number, entry_lines}
use qtrans.Batch.Store.Reader.{
  Reader, read_field, read_id, read_line, read_in_entry, read_count, file_type_of, state_of,
  empty_entry, initial_reader, flush_entry, has_expected, max_persisted_entries, int_limit,
  long_limit, max_segments_per_entry,
}
use qtrans.Batch.Store.Reader.Lines.{
  Reads, Reads-cons, Reads-append, read_line-make_kv, read_line-plain, Reads-optional_kv,
}
use qtrans.Batch.Store.Reader.Segments.{
  SegmentFits, with_segments, Reads-segments_lines, read_number-to_string,
}

-- What an entry must satisfy to be read back: it has an id, and no number is out of range.
pub record IsStorable (e : BatchEntry) : Type 0 where
  pub named : e.id ≢ []
  pub created : e.created_at < long_limit
  pub updated : e.updated_at < long_limit
  pub counted : length e.file.segments ≤ max_segments_per_entry
  pub fits : All SegmentFits e.file.segments

read_number_kv :
    (key : Bytes) (n : ℕ) (r : Reader)
    → Lacks 0x3d key
    → read_line r (number_kv key n) ≡ read_field key (to_string n) r
unfolding number_kv
read_number_kv key n r h = read_line-plain key (to_string n) r h (to_string-Lacks 0x5c n refl)

file_type_text-Lacks : (t : BatchFileType) → Lacks 0x5c (file_type_text t)
unfolding file_type_text
file_type_text-Lacks BatchFileType.unknown =
    ((λ e. absurd (omega arith)), ((λ e. absurd (omega arith)), tt))
file_type_text-Lacks BatchFileType.plain_text = to_string-Lacks 0x5c 0 refl
file_type_text-Lacks BatchFileType.txt = to_string-Lacks 0x5c 1 refl
file_type_text-Lacks BatchFileType.md = to_string-Lacks 0x5c 2 refl
file_type_text-Lacks BatchFileType.srt = to_string-Lacks 0x5c 3 refl

read_file_type : (t : BatchFileType) → file_type_of (sto int_limit (file_type_text t)) ≡ ok t
unfolding file_type_text file_type_of
read_file_type BatchFileType.unknown = unfold sto in refl
read_file_type BatchFileType.plain_text = rw (sto-to_string int_limit 0 (omega arith)) refl
read_file_type BatchFileType.txt = rw (sto-to_string int_limit 1 (omega arith)) refl
read_file_type BatchFileType.md = rw (sto-to_string int_limit 2 (omega arith)) refl
read_file_type BatchFileType.srt = rw (sto-to_string int_limit 3 (omega arith)) refl

is_empty-ne : (text : Bytes) → text ≢ [] → is_empty text ≡ false
is_empty-ne [] h = absurd (h refl)
is_empty-ne (c ∷ text) h = refl

-- An entry of which the lines up to the file type are read.
abbrev filled : Bytes → Bytes → Bytes → BatchFileType → BatchEntry
filled id path output_path t = record empty_entry {
  id = id;
  file = record empty_entry.file { path = path; file_type = t };
  output_path = output_path;
}

module _ (done : List BatchEntry) where
  -- The reader within an entry.
  abbrev pub inside : Option ℕ → BatchEntry → Reader
  inside expected e = record { entries = done; current = e; in_entry = true; expected = expected }

  field_id :
      (v : Bytes)
      → read_field (codes "id") v (initial_reader done)
        ≡ ok (inside none (record empty_entry { id = v }))
  unfolding read_field read_id flush_entry
  field_id v = refl

  field_path :
      (e : BatchEntry) (v : Bytes)
      → read_field (codes "path") v (inside none e)
        ≡ ok (inside none (record e { file = record e.file { path = v } }))
  unfolding read_field read_in_entry
  field_path e v = refl

  field_output :
      (e : BatchEntry) (v : Bytes)
      → read_field (codes "output_path") v (inside none e)
        ≡ ok (inside none (record e { output_path = v }))
  unfolding read_field read_in_entry
  field_output e v = refl

  field_type :
      (e : BatchEntry) (t : BatchFileType)
      → read_field (codes "file_type") (file_type_text t) (inside none e)
        ≡ ok (inside none (record e { file = record e.file { file_type = t } }))
  unfolding read_field read_in_entry
  field_type e t = rw (read_file_type t) refl

  field_source :
      (e : BatchEntry) (v : Bytes)
      → read_field (codes "source_language") v (inside none e)
        ≡ ok (inside none (record e { source_language = v }))
  unfolding read_field read_in_entry
  field_source e v = refl

  field_target :
      (e : BatchEntry) (v : Bytes)
      → read_field (codes "target_language") v (inside none e)
        ≡ ok (inside none (record e { target_language = v }))
  unfolding read_field read_in_entry
  field_target e v = refl

  field_created :
      (e : BatchEntry) (n : ℕ)
      → n < long_limit
      → read_field (codes "created_at") (to_string n) (inside none e)
        ≡ ok (inside none (record e { created_at = n }))
  unfolding read_field read_in_entry
  field_created e n h = rw (read_number-to_string long_limit n h) refl

  field_updated :
      (e : BatchEntry) (n : ℕ)
      → n < long_limit
      → read_field (codes "updated_at") (to_string n) (inside none e)
        ≡ ok (inside none (record e { updated_at = n }))
  unfolding read_field read_in_entry
  field_updated e n h = rw (read_number-to_string long_limit n h) refl

  field_segments :
      (e : BatchEntry) (n : ℕ)
      → n ≤ max_segments_per_entry
      → read_field (codes "_segments") (to_string n) (inside none e) ≡ ok (inside (some n) e)
  unfolding read_field read_in_entry read_count
  field_segments e n h =
      let few : ltb max_segments_per_entry n ≡ false = ground arith in
      rw (read_count, sto-to_string int_limit n (omega arith), few) refl

  field_trailing :
      (x : Option ℕ) (e : BatchEntry) (v : Bytes)
      → read_field (codes "trailing") v (inside x e)
        ≡ ok (inside x (record e { file = record e.file { trailing_text = v } }))
  unfolding read_field read_in_entry
  field_trailing x e v = refl

  field_state :
      (e : BatchEntry) (s : BatchEntryState)
      → read_field (codes "entry_state") (to_string (state_number s)) (inside none e)
        ≡ ok (inside none (record e { state = s }))
  unfolding read_field read_in_entry state_of
  field_state e BatchEntryState.queued = rw (read_number-to_string int_limit 0 (omega arith)) refl
  field_state e BatchEntryState.processing =
      rw (read_number-to_string int_limit 1 (omega arith)) refl
  field_state e BatchEntryState.completed =
      rw (read_number-to_string int_limit 2 (omega arith)) refl
  field_state e BatchEntryState.failed = rw (read_number-to_string int_limit 3 (omega arith)) refl
  field_state e BatchEntryState.cancelled =
      rw (read_number-to_string int_limit 4 (omega arith)) refl

  -- The lines up to the file type.
  Reads-head :
      (id path output_path : Bytes) (t : BatchFileType) (lines : List Bytes) (r : Reader)
      → Reads (inside none (filled id path output_path t)) lines r
      → Reads
          (initial_reader done)
          (make_kv (codes "id") id
            ∷ make_kv (codes "path") path
            ∷ (optional_kv (codes "output_path") output_path
                ++ (codes "file_type" ++ 0x3d ∷ file_type_text t) ∷ lines))
          r
  Reads-head id path output_path t lines r h =
      let e : Bytes → Bytes → BatchFileType → BatchEntry = filled id in
      Reads-cons (initial_reader done) _ (inside none (e [] [] plain_text)) _ r
        (read_line-make_kv (codes "id") id (initial_reader done)
            (Lacks-of_lacks 0x3d (codes "id") refl)
          ∙ field_id id)
        (Reads-cons (inside none (e [] [] plain_text)) _ (inside none (e path [] plain_text)) _ r
          (read_line-make_kv (codes "path") path (inside none (e [] [] plain_text))
              (Lacks-of_lacks 0x3d (codes "path") refl)
            ∙ field_path (e [] [] plain_text) path)
          (Reads-append (inside none (e path [] plain_text)) _
            (inside none (e path output_path plain_text)) _ r
            (Reads-optional_kv (codes "output_path") output_path
              (λ v. inside none (e path v plain_text))
              (Lacks-of_lacks 0x3d (codes "output_path") refl)
              (field_output (e path [] plain_text)))
            (Reads-cons (inside none (e path output_path plain_text)) _
              (inside none (e path output_path t)) lines r
              (read_line-plain (codes "file_type") (file_type_text t)
                  (inside none (e path output_path plain_text))
                  (Lacks-of_lacks 0x3d (codes "file_type") refl) (file_type_text-Lacks t)
                ∙ field_type (e path output_path plain_text) t)
              h)))

  -- The lines from the source language to the time of the last change.
  Reads-middle :
      (e : BatchEntry) (source target : Bytes) (state : BatchEntryState) (created updated : ℕ)
      (lines : List Bytes) (r : Reader)
      → created < long_limit
      → updated < long_limit
      → Reads
          (inside none (record e {
            source_language = source;
            target_language = target;
            state = state;
            created_at = created;
            updated_at = updated;
          }))
          lines
          r
      → Reads
          (inside none e)
          (make_kv (codes "source_language") source
            ∷ make_kv (codes "target_language") target
            ∷ number_kv (codes "entry_state") (state_number state)
            ∷ number_kv (codes "created_at") created
            ∷ number_kv (codes "updated_at") updated
            ∷ lines)
          r
  Reads-middle e source target state created updated lines r c u h =
      let e1 : BatchEntry = record e { source_language = source } in
      let e2 : BatchEntry = record e1 { target_language = target } in
      let e3 : BatchEntry = record e2 { state = state } in
      let e4 : BatchEntry = record e3 { created_at = created } in
      let e5 : BatchEntry = record e4 { updated_at = updated } in
      Reads-cons (inside none e) _ (inside none e1) _ r
        (read_line-make_kv (codes "source_language") source (inside none e)
            (Lacks-of_lacks 0x3d (codes "source_language") refl)
          ∙ field_source e source)
        (Reads-cons (inside none e1) _ (inside none e2) _ r
          (read_line-make_kv (codes "target_language") target (inside none e1)
              (Lacks-of_lacks 0x3d (codes "target_language") refl)
            ∙ field_target e1 target)
          (Reads-cons (inside none e2) _ (inside none e3) _ r
            (read_number_kv (codes "entry_state") (state_number state) (inside none e2)
                (Lacks-of_lacks 0x3d (codes "entry_state") refl)
              ∙ field_state e2 state)
            (Reads-cons (inside none e3) _ (inside none e4) _ r
              (read_number_kv (codes "created_at") created (inside none e3)
                  (Lacks-of_lacks 0x3d (codes "created_at") refl)
                ∙ field_created e3 created c)
              (Reads-cons (inside none e4) _ (inside none e5) lines r
                (read_number_kv (codes "updated_at") updated (inside none e4)
                    (Lacks-of_lacks 0x3d (codes "updated_at") refl)
                  ∙ field_updated e4 updated u)
                h))))

  -- The lines of an entry.
  pub Reads-entry_lines :
      (e : BatchEntry)
      → IsStorable e
      → Reads (initial_reader done) (entry_lines e) (inside (some (length e.file.segments)) e)
  unfolding entry_lines
  Reads-entry_lines e h =
      let n = length e.file.segments in
      let none_read : BatchEntry = record e {
        file = record e.file { segments = []; trailing_text = [] };
      } in
      let last = inside (some n) e in
      Reads-head e.id e.file.path e.output_path e.file.file_type _ last (
        Reads-middle (filled e.id e.file.path e.output_path e.file.file_type) e.source_language
          e.target_language e.state e.created_at e.updated_at _ last h.created h.updated
          (Reads-cons (inside none none_read) _ (inside (some n) none_read) _ last
            (read_number_kv (codes "_segments") n (inside none none_read)
                (Lacks-of_lacks 0x3d (codes "_segments") refl)
              ∙ field_segments none_read n h.counted)
            (Reads-append (inside (some n) none_read) _ (with_segments last []) _ last
              (Reads-optional_kv (codes "trailing") e.file.trailing_text
                (λ v.
                  inside (some n)
                    (record none_read { file = record none_read.file { trailing_text = v } }))
                (Lacks-of_lacks 0x3d (codes "trailing") refl) (field_trailing (some n) none_read))
              (Reads-segments_lines last [] e.file.segments h.fits))))

  -- The end of an entry adds it to those before it.
  pub flush-inside :
      (e : BatchEntry)
      → IsStorable e
      → length done + 1 ≤ max_persisted_entries
      → flush_entry (inside (some (length e.file.segments)) e)
        ≡ ok (initial_reader (done ++ e ∷ []))
  unfolding flush_entry has_expected
  flush-inside e h room =
      let named : is_empty e.id ≡ false = is_empty-ne e.id h.named in
      let same : (length e.file.segments == length e.file.segments) ≡ true = ground arith in
      let free : leb max_persisted_entries (length done) ≡ false = ground arith in
      rw (named, same, free) refl

  pub flush-initial : flush_entry (initial_reader done) ≡ ok (initial_reader done)
  unfolding flush_entry
  flush-initial = refl

pub read_blank : (r : Reader) → read_line r [] ≡ flush_entry r
unfolding read_line
read_blank r = refl
