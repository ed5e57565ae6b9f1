-- ===== src/Text/Segmenter.antt =====
-- libs/sentbreak/src/segmenter.cpp: sentence boundaries of a UTF-8 text. A text is the list of its
-- bytes, a byte a number below 256. An array index is a native number; `get_or` reads a cell, and
-- its default is never used, since every index is in range there.
pub mod Points
pub mod Boundaries
pub mod Tests
use Prim.Native.Nat.{bit_and}
use qtrans.Base.{
  Bytes, ℕ, zero, suc, ◌+◌, ◌-◌, ◌*◌, ◌^◌, Bool, true, false, not, ◌&&◌, ◌||◌, List, [], ◌∷◌, ◌++◌,
  ltb, leb, ◌==◌, if◌then◌else◌, length, get_or, drop, slice,
}

pub data Property : Type 0 where
  other cr lf sep extend format sp lower upper o_letter a_term s_term close : Property

pub record CodePoint : Type 0 where
  pub value : ℕ
  pub begin : ℕ
  pub end : ℕ
  pub property : Property

in_range : ℕ → ℕ → ℕ → Bool
in_range value first last = leb first value && leb value last

is_sep : ℕ → Bool
unfolding in_range
is_sep v = v == 0x0b || v == 0x0c || v == 0x85 || in_range v 0x2028 0x2029

is_a_term : ℕ → Bool
is_a_term v = v == b'.' || v == 0x2024 || v == 0xfe52 || v == 0xff0e

is_s_term : ℕ → Bool
is_s_term v = v == b'!' || v == b'?' || v == 0x3002 || v == 0xff01 || v == 0xff1f

is_close : ℕ → Bool
is_close v =
    v == b')'
    || v == b']'
    || v == b'}'
    || v == 0x27
    || v == 0x22
    || v == 0xbb
    || v == 0x2019
    || v == 0x201d

is_extend : ℕ → Bool
unfolding in_range
is_extend v =
    v == 0x200c
    || v == 0x200d
    || in_range v 0x300 0x36f
    || in_range v 0x1ab0 0x1aff
    || in_range v 0x1dc0 0x1dff
    || in_range v 0x20d0 0x20ff
    || in_range v 0xfe00 0xfe0f

is_format : ℕ → Bool
unfolding in_range
is_format v =
    v == 0x00ad
    || v == 0x061c
    || in_range v 0x200e 0x200f
    || in_range v 0x202a 0x202e
    || in_range v 0x2060 0x2064
    || in_range v 0xfeff 0xfeff

is_lower : ℕ → Bool
unfolding in_range
is_lower v = in_range v b'a' b'z' || in_range v 0x00e0 0x00f6 || in_range v 0x00f8 0x00ff

is_upper : ℕ → Bool
unfolding in_range
is_upper v = in_range v b'A' b'Z' || in_range v 0x00c0 0x00d6 || in_range v 0x00d8 0x00de

is_o_letter : ℕ → Bool
unfolding in_range
is_o_letter v =
    in_range v 0x0370 0x052f
    || in_range v 0x0531 0x1fff
    || in_range v 0x3040 0x30ff
    || in_range v 0x3400 0x9fff
    || in_range v 0xac00 0xd7af
    || in_range v 0xf900 0xfaff
    || in_range v 0x10000 0x10ffff

-- The tests in the source's order: the first that holds decides.
property_of : ℕ → Property
unfolding is_sep is_a_term is_s_term is_close is_extend is_format is_lower is_upper is_o_letter
property_of v =
    if v == 0x0d
    then cr
    else if v == 0x0a
    then lf
    else if is_sep v
    then sep
    else if v == 0x20
    then sp
    else if is_a_term v
    then a_term
    else if is_s_term v
    then s_term
    else if is_close v
    then close
    else if is_extend v
    then extend
    else if is_format v
    then format
    else if is_lower v
    then lower
    else if is_upper v
    then upper
    else if is_o_letter v
    then o_letter
    else other

is_term : Property → Bool
is_term a_term = true
is_term s_term = true
is_term _ = false

is_letter : Property → Bool
is_letter lower = true
is_letter upper = true
is_letter o_letter = true
is_letter _ = false

-- The length that a lead byte announces.
sequence_length : ℕ → ℕ
unfolding in_range
sequence_length first =
    if in_range first 0xc2 0xdf
    then 2
    else if in_range first 0xe0 0xef
    then 3
    else if in_range first 0xf0 0xf4
    then 4
    else 1

is_continuation : ℕ → Bool
is_continuation byte = bit_and byte 0xc0 == 0x80

-- The loop over the bytes behind the lead byte. `value << 6` leaves six free bits, so the source's
-- `|` is a sum; 21 bits are reached at most, so 32 bits never overflow.
continue_value : ℕ → Bytes → Bool → ℕ × Bool
unfolding is_continuation
continue_value value [] valid = (value, valid)
continue_value value (byte ∷ rest) valid =
    continue_value (value * 64 + bit_and byte 0x3f) rest (is_continuation byte && valid)

-- The value at a lead byte, and the number of bytes consumed; `rest` is the text behind it.
read_point : ℕ → Bytes → ℕ × ℕ
unfolding sequence_length continue_value in_range
read_point first rest =
    let len = sequence_length first in
    let (value, valid) =
      continue_value (bit_and first (2 ^ (8 - len - 1) - 1)) (slice 0 (len - 1) rest) true in
    if ltb 1 len && leb len (length rest + 1)
    then if valid && leb value 0x10ffff && not (in_range value 0xd800 0xdfff)
      then (value, len)
      else (first, 1)
    else (first, 1)

-- The loop of `decode` at offset `i`, where `text` is what is left. Each round consumes a byte at
-- least, so as much fuel as bytes is enough.
decode_from : ℕ → ℕ → Bytes → List CodePoint
unfolding read_point property_of
decode_from zero i text = []
decode_from (suc fuel) i [] = []
decode_from (suc fuel) i (first ∷ rest) =
    let (value, consumed) = read_point first rest in
    record { value = value; begin = i; end = i + consumed; property = property_of value }
    ∷ decode_from fuel (i + consumed) (drop consumed (first ∷ rest))

pub decode : Bytes → List CodePoint
unfolding decode_from
decode text = decode_from (length text) 0 text

abbrev no_point : CodePoint
no_point = record { value = 0; begin = 0; end = 0; property = other }

property_at : List CodePoint → ℕ → Property
property_at points i = (get_or points i no_point).property

-- `points[i].begin` and `points[i].end`.
pub begin_at : List CodePoint → ℕ → ℕ
begin_at points i = (get_or points i no_point).begin

end_at : List CodePoint → ℕ → ℕ
end_at points i = (get_or points i no_point).end

-- How many letters stand right before the point at `cursor`.
previous_word_length : List CodePoint → ℕ → ℕ
unfolding property_at is_letter
previous_word_length points zero = 0
previous_word_length points (suc cursor) =
    let longer = suc (previous_word_length points cursor) in
    if is_letter (property_at points cursor) then longer else 0

is_trailing : Property → Bool
is_trailing sp = true
is_trailing close = true
is_trailing extend = true
is_trailing format = true
is_trailing _ = false

-- `while (cursor > 0 && …) --cursor;`
skip_trailing : List CodePoint → ℕ → ℕ
unfolding property_at is_trailing
skip_trailing points zero = 0
skip_trailing points (suc cursor) =
    let back = skip_trailing points cursor in
    if is_trailing (property_at points (suc cursor)) then back else suc cursor

is_break_after : Property → Bool
is_break_after cr = true
is_break_after lf = true
is_break_after sep = true
is_break_after _ = false

is_ignored : Property → Bool
is_ignored extend = true
is_ignored format = true
is_ignored _ = false

is_crlf : Property → Property → Bool
is_crlf cr lf = true
is_crlf _ _ = false

is : Property → Property → Bool
is a_term a_term = true
is lower lower = true
is _ _ = false

-- A term at `cursor`, before a point of property `right`.
break_after_term : List CodePoint → ℕ → Property → Bool
unfolding property_at is_letter is previous_word_length
break_after_term points cursor right =
    if not (is_letter right)
    then false
    else if is (property_at points cursor) a_term && leb (previous_word_length points cursor) 2
    then false
    else if is (property_at points cursor) a_term && is right lower
    then false
    else true

break_at : List CodePoint → ℕ → Bool
unfolding is_crlf is_break_after is_ignored skip_trailing is_term break_after_term property_at
break_at points index =
    let left = property_at points (index - 1) in
    let right = property_at points index in
    let cursor = skip_trailing points (index - 1) in
    if is_crlf left right
    then false
    else if is_break_after left
    then true
    else if is_ignored right
    then false
    else if is_term (property_at points cursor)
    then break_after_term points cursor right
    else false

-- The rounds `i, …, i + rounds - 1` of the loop of `boundaries`.
inner_boundaries : List CodePoint → ℕ → ℕ → List ℕ
inner_boundaries points i zero = []
inner_boundaries points i (suc rounds) =
    let rest = inner_boundaries points (suc i) rounds in
    if break_at points i then begin_at points i ∷ rest else rest

-- `if (result.back() != text.size()) result.push_back(text.size());`
close_at : ℕ → ℕ → List ℕ → List ℕ
close_at size last [] = if last == size then [] else size ∷ []
close_at size last (p ∷ ps) = p ∷ close_at size p ps

unfoldable pub boundaries : Bytes → List ℕ
unfolding decode inner_boundaries close_at break_at begin_at
boundaries text =
    let points = decode text in
    0 ∷ close_at (length text) 0 (inner_boundaries points 1 (length points - 1))

-- The loop of `split` over the positions behind `from`.
pieces : Bytes → ℕ → List ℕ → List Bytes
pieces text from [] = []
pieces text from (p ∷ ps) =
    let rest = pieces text p ps in if p == from then rest else slice from (p - from) text ∷ rest

pieces_of : Bytes → List ℕ → List Bytes
unfolding pieces
pieces_of text [] = []
pieces_of text (p ∷ ps) = pieces text p ps

unfoldable pub split : Bytes → List Bytes
unfolding boundaries pieces_of
split text = pieces_of text (boundaries text)
