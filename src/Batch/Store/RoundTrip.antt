-- ===== src/Batch/Store/RoundTrip.antt =====
-- The text of a queue is read back as the queue: app/src/batch/batch_store.cpp.
use qtrans.Base.{
  Bytes, ◌+◌, ◌≤◌, ◌≡◌, refl, sym, ap, ◌∙◌, some, List, [], ◌∷◌, ◌++◌, All, length, length-append,
  Result, ok, err, ◌>>=◌, arith, codes, append_assoc, append-nil,
}
use qtrans.Base.Decimal.{to_string, sto-to_string}
use qtrans.Batch.Types.{BatchEntry}
use qtrans.Batch.Store.Codec.{Lacks-of_lacks}
use qtrans.Batch.Store.Texts.{getlines-unlines, to_string-Lacks}
use qtrans.Batch.Store.Format.{number_kv, entry_lines, blocks, serialize}
use qtrans.Batch.Store.Format.Lines.{blocks-AreLines, number_kv-IsLine}
use qtrans.Batch.Store.Reader.{
  LoadError, Reader, read_field, read_version, read_line, read_lines, flush_entry, deserialize,
  initial_reader, int_limit, max_persisted_entries,
}
use qtrans.Batch.Store.Reader.Lines.{Reads-cons, read_line-plain, read_lines-append}
use qtrans.Batch.Store.Reader.Entries.{
  IsStorable, inside, flush-inside, flush-initial, read_blank, Reads-entry_lines,
}

-- From a reader whose entry, if it is in one, ends well, the blocks of further entries add them.
read_blocks :
    (r : Reader) (done entries : List BatchEntry)
    → flush_entry r ≡ ok (initial_reader done)
    → All IsStorable entries
    → length done + length entries ≤ max_persisted_entries
    → (read_lines r (blocks entries) >>= flush_entry) ≡ ok (initial_reader (done ++ entries))
unfolding blocks
read_blocks r done [] ended h room =
    unfold read_lines in (ended ∙ ap (λ l. ok (initial_reader l)) (sym (append-nil done)))
read_blocks r done (e ∷ entries) ended h room =
    let s = inside done (some (length e.file.segments)) e in
    let here =
      Reads-cons r [] (initial_reader done) (entry_lines e) s (read_blank r ∙ ended)
        (Reads-entry_lines done e h.0) in
    ap (λ q. q >>= flush_entry)
      (read_lines-append r ([] ∷ entry_lines e) (blocks entries)
        ∙ ap (λ q. q >>= (λ t. read_lines t (blocks entries))) here)
    ∙ read_blocks s (done ++ e ∷ []) entries (flush-inside done e h.0 (omega arith)) h.1
        (omega (arith, length-append done (e ∷ [])))
    ∙ ap (λ l. ok (initial_reader l)) (append_assoc done (e ∷ []) entries)

read_version_line :
    read_line (initial_reader []) (number_kv (codes "qtrans_batch") 2) ≡ ok (initial_reader [])
unfolding number_kv read_field read_version
read_version_line =
    read_line-plain (codes "qtrans_batch") (to_string 2) (initial_reader [])
      (Lacks-of_lacks 0x3d (codes "qtrans_batch") refl) (to_string-Lacks 0x5c 2 refl)
    ∙ rw (read_version, sto-to_string int_limit 2 (omega arith)) refl

reads-version :
    (lines : List Bytes)
    → read_lines (initial_reader []) (number_kv (codes "qtrans_batch") 2 ∷ lines)
      ≡ read_lines (initial_reader []) lines
unfolding read_lines
reads-version lines = rw (read_version_line, read_lines) refl

bind_assoc :
    (q : Result LoadError Reader)
    → (q >>= (λ r.
        flush_entry r
        >>= (λ f. let entries : Result LoadError (List BatchEntry) = ok f.entries in entries)))
      ≡ (q >>= flush_entry >>= (λ f. ok f.entries))
bind_assoc (ok r) = refl
bind_assoc (err e) = refl

-- A queue of at most 10,000 entries, each with an id, at most 100,000 segments, and with numbers in
-- the range of an `int`, for the times of a `long long`, is read back from its text as it was.
pub deserialize-serialize :
    (entries : List BatchEntry)
    → All IsStorable entries
    → length entries ≤ max_persisted_entries
    → deserialize (serialize entries) ≡ ok entries
unfolding deserialize serialize
deserialize-serialize entries h room =
    let lines : List Bytes = number_kv (codes "qtrans_batch") 2 ∷ blocks entries in
    let back =
      getlines-unlines lines
        (number_kv-IsLine (codes "qtrans_batch") 2 refl, blocks-AreLines entries) in
    let read : (read_lines (initial_reader []) lines >>= flush_entry)
        ≡ ok (initial_reader entries) =
      ap (λ q. q >>= flush_entry) (reads-version (blocks entries))
      ∙ read_blocks (initial_reader []) [] entries (flush-initial []) h (omega (arith, room)) in
    ap (λ ls. read_lines (initial_reader []) ls >>= (λ r. flush_entry r >>= (λ f. ok f.entries)))
      back
    ∙ bind_assoc (read_lines (initial_reader []) lines)
    ∙ ap (λ q. q >>= (λ f. ok f.entries)) read
