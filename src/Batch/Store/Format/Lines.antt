-- ===== src/Batch/Store/Format/Lines.antt =====
-- What `serialize` writes are lines.
use qtrans.Base.{
  Bytes, ℕ, ◌≡◌, ◌≢◌, refl, sym, true, false, List, [], ◌∷◌, ◌++◌, All, All-append, length, arith,
  codes,
}
use qtrans.Base.Decimal.{is_digit, to_string}
use qtrans.Batch.Types.{BatchEntry, BatchFileType, BatchSegment}
use qtrans.Batch.Store.Codec.{Lacks, Lacks-of_lacks, lacks, make_kv, parse_kv-make_kv}
use qtrans.Batch.Store.Texts.{to_string-Lacks}
use qtrans.Batch.Store.Format.{
  segment_state_number, optional_kv, number_kv, file_type_text, state_number, segment_lines,
  segments_lines, segment_numbers, entry_lines, blocks,
}

pub segment_numbers-Lacks :
    (c : ℕ) (s : BatchSegment) → is_digit c ≡ false → c ≢ 0x3a → Lacks c (segment_numbers s)
unfolding segment_numbers
segment_numbers-Lacks c s f ne =
    let colon : 0x3a ≢ c = λ e. ne (sym e) in
    let join : (n : ℕ) (text : Bytes) → Lacks c text → Lacks c (to_string n ++ 0x3a ∷ text) =
      λ n text h.
        All-append (λ b. b ≢ c) (to_string n) (0x3a ∷ text) (to_string-Lacks c n f) (colon, h) in
    join s.index _
      (join s.start_line _ (join s.end_line _ (to_string-Lacks c (segment_state_number s.state) f)))

-- A line of the text.
abbrev pub IsLine : Bytes → Type 0
IsLine line = Lacks 0x0a line

kv-IsLine : (key text : Bytes) → IsLine key → IsLine text → IsLine (key ++ 0x3d ∷ text)
kv-IsLine key text h k =
    All-append (λ b. b ≢ 0x0a) key (0x3d ∷ text) h ((λ e. absurd (omega arith)), k)

make_kv-IsLine :
    (key value : Bytes) → lacks 0x3d key ≡ true → lacks 0x0a key ≡ true → IsLine (make_kv key value)
make_kv-IsLine key value h k =
    (parse_kv-make_kv key value (Lacks-of_lacks 0x3d key h) (Lacks-of_lacks 0x0a key k)).1

pub number_kv-IsLine : (key : Bytes) (n : ℕ) → lacks 0x0a key ≡ true → IsLine (number_kv key n)
unfolding number_kv
number_kv-IsLine key n h =
    kv-IsLine key (to_string n) (Lacks-of_lacks 0x0a key h) (to_string-Lacks 0x0a n refl)

-- The lines of a text that may be empty, and further lines.
optional_kv-AreLines :
    (key text : Bytes) (lines : List Bytes)
    → lacks 0x3d key ≡ true
    → lacks 0x0a key ≡ true
    → All IsLine lines
    → All IsLine (optional_kv key text ++ lines)
unfolding optional_kv
optional_kv-AreLines key [] lines h k rest = rest
optional_kv-AreLines key (c ∷ text) lines h k rest = (make_kv-IsLine key (c ∷ text) h k, rest)

optional_kv-IsLine :
    (key text : Bytes)
    → lacks 0x3d key ≡ true
    → lacks 0x0a key ≡ true
    → All IsLine (optional_kv key text)
unfolding optional_kv
optional_kv-IsLine key [] h k = tt
optional_kv-IsLine key (c ∷ text) h k = (make_kv-IsLine key (c ∷ text) h k, tt)

segments_lines-AreLines : (segments : List BatchSegment) → All IsLine (segments_lines segments)
unfolding segments_lines segment_lines
segments_lines-AreLines [] = tt
segments_lines-AreLines (s ∷ segments) =
    let numbers =
      kv-IsLine (codes "s") (segment_numbers s) (Lacks-of_lacks 0x0a (codes "s") refl)
        (segment_numbers-Lacks 0x0a s refl (λ e. absurd (omega arith))) in
    All-append IsLine (segment_lines s) (segments_lines segments)
      (
        numbers,
        optional_kv-AreLines (codes "ss") s.source_text _ refl refl (
            optional_kv-AreLines (codes "st") s.translated_text _ refl refl
              (optional_kv-IsLine (codes "sl") s.literal_prefix refl refl)),
      )
      (segments_lines-AreLines segments)

file_type_text-IsLine : (t : BatchFileType) → IsLine (file_type_text t)
unfolding file_type_text
file_type_text-IsLine BatchFileType.unknown = Lacks-of_lacks 0x0a (codes "-1") refl
file_type_text-IsLine BatchFileType.plain_text = to_string-Lacks 0x0a 0 refl
file_type_text-IsLine BatchFileType.txt = to_string-Lacks 0x0a 1 refl
file_type_text-IsLine BatchFileType.md = to_string-Lacks 0x0a 2 refl
file_type_text-IsLine BatchFileType.srt = to_string-Lacks 0x0a 3 refl

entry_lines-AreLines : (e : BatchEntry) → All IsLine (entry_lines e)
unfolding entry_lines
entry_lines-AreLines e =
    let kind =
      kv-IsLine (codes "file_type") (file_type_text e.file.file_type)
        (Lacks-of_lacks 0x0a (codes "file_type") refl) (file_type_text-IsLine e.file.file_type) in
    let body =
      optional_kv-AreLines (codes "trailing") e.file.trailing_text _ refl refl
        (segments_lines-AreLines e.file.segments) in
    (
      make_kv-IsLine (codes "id") e.id refl refl,
      (
        make_kv-IsLine (codes "path") e.file.path refl refl,
        optional_kv-AreLines (codes "output_path") e.output_path _ refl refl (
          kind,
          (
            make_kv-IsLine (codes "source_language") e.source_language refl refl,
            (
              make_kv-IsLine (codes "target_language") e.target_language refl refl,
              (
                number_kv-IsLine (codes "entry_state") (state_number e.state) refl,
                (
                  number_kv-IsLine (codes "created_at") e.created_at refl,
                  (
                    number_kv-IsLine (codes "updated_at") e.updated_at refl,
                    (number_kv-IsLine (codes "_segments") (length e.file.segments) refl, body),
                  ),
                ),
              ),
            ),
          ),
        ),
      ),
    )

pub blocks-AreLines : (entries : List BatchEntry) → All IsLine (blocks entries)
unfolding blocks
blocks-AreLines [] = tt
blocks-AreLines (e ∷ entries) = (
  tt,
  All-append IsLine (entry_lines e) (blocks entries) (entry_lines-AreLines e)
      (blocks-AreLines entries),
)
