-- ===== src/Batch/Store/Reader/Lines.antt =====
-- What a line of a queue does to the reader.
use qtrans.Base.{
  Bytes, ◌≡◌, refl, ap, ◌∙◌, false, List, [], ◌∷◌, ◌++◌, is_empty, ok, ◌>>=◌, Result-cases, inl,
  inr,
}
use qtrans.Batch.Store.Codec.{
  Lacks, make_kv, parse_kv-raw, unescape, unescape-escape, unescape-plain,
}
use qtrans.Batch.Store.Format.{optional_kv}
use qtrans.Batch.Store.Reader.{Reader, read_field, read_line, read_lines}

-- The lines lead from one reader to the other.
abbrev pub Reads : Reader → List Bytes → Reader → Type 0
Reads r lines s = read_lines r lines ≡ ok s

pub Reads-nil : (r : Reader) → Reads r [] r
unfolding read_lines
Reads-nil r = refl

pub Reads-cons :
    (r : Reader) (line : Bytes) (s : Reader) (lines : List Bytes) (t : Reader)
    → read_line r line ≡ ok s
    → Reads s lines t
    → Reads r (line ∷ lines) t
unfolding read_lines
Reads-cons r line s lines t h k = rw (h, read_lines) k

pub read_lines-append :
    (r : Reader) (lines more : List Bytes)
    → read_lines r (lines ++ more) ≡ (read_lines r lines >>= (λ s. read_lines s more))
unfolding read_lines
read_lines-append r [] more = refl
read_lines-append r (line ∷ lines) more = elim (Result-cases (read_line r line)) [
  | inl (s, e) ↦ rw (e, read_lines) (read_lines-append s lines more)
  | inr (e, f) ↦ rw f refl
]

pub Reads-append :
    (r : Reader) (lines : List Bytes) (s : Reader) (more : List Bytes) (t : Reader)
    → Reads r lines s
    → Reads s more t
    → Reads r (lines ++ more) t
Reads-append r lines s more t h k =
    read_lines-append r lines more ∙ ap (λ q. q >>= (λ s. read_lines s more)) h ∙ k

is_empty-kv : (key text : Bytes) → is_empty (key ++ 0x3d ∷ text) ≡ false
is_empty-kv [] text = refl
is_empty-kv (c ∷ key) text = refl

read_line-raw :
    (key text : Bytes) (r : Reader)
    → Lacks 0x3d key
    → read_line r (key ++ 0x3d ∷ text) ≡ read_field key (unescape text) r
unfolding read_line
read_line-raw key text r h = rw (is_empty-kv key text, parse_kv-raw key text h, read_line) refl

pub read_line-make_kv :
    (key value : Bytes) (r : Reader)
    → Lacks 0x3d key
    → read_line r (make_kv key value) ≡ read_field key value r
unfolding make_kv
read_line-make_kv key value r h =
    read_line-raw key _ r h ∙ ap (λ v. read_field key v r) (unescape-escape value)

pub read_line-plain :
    (key text : Bytes) (r : Reader)
    → Lacks 0x3d key
    → Lacks 0x5c text
    → read_line r (key ++ 0x3d ∷ text) ≡ read_field key text r
read_line-plain key text r h k =
    read_line-raw key text r h ∙ ap (λ v. read_field key v r) (unescape-plain text k)

-- A line that is written for a text that is not empty.
pub Reads-optional_kv :
    (key text : Bytes) (at : Bytes → Reader)
    → Lacks 0x3d key
    → ((value : Bytes) → read_field key value (at []) ≡ ok (at value))
    → Reads (at []) (optional_kv key text) (at text)
unfolding optional_kv
Reads-optional_kv key [] at h step = Reads-nil (at [])
Reads-optional_kv key (c ∷ text) at h step =
    Reads-cons (at []) (make_kv key (c ∷ text)) (at (c ∷ text)) [] (at (c ∷ text))
      (read_line-make_kv key (c ∷ text) (at []) h ∙ step (c ∷ text)) (Reads-nil (at (c ∷ text)))
