-- ===== src/Text/Tests.antt =====
-- The theorems on UTF-8 and on chunks at small texts.
use qtrans.Base.{
  take, false, ◌⊎◌, Bytes, ◌≡◌, ◌≤◌, ◌<◌, refl, List, [], ◌∷◌, codes, concat, length, arith,
}
use qtrans.Text.Ascii.{ascii, ascii_laws, ascii_reports}
use qtrans.Text.Utf8.{
  IsValid, complete_prefix_length, validate_or_throw, sanitize_utf8, next_code_point_index,
}
use qtrans.Text.Utf8.Sanitize.{
  complete_prefix_length_lem, sanitize_utf8-IsValid, sanitize_utf8-valid,
  next_code_point_index_bounds,
}
use qtrans.Text.Utf8.Stream.{push_all, push_all_lossless}

abbrev pieces : List Bytes
pieces = codes "good " ∷ codes "day" ∷ []

abbrev broken : Bytes
broken = 0x41 ∷ 0xff ∷ 0x42 ∷ []

sanitize_utf8-IsValid_example : IsValid ascii (sanitize_utf8 ascii broken)
sanitize_utf8-IsValid_example = sanitize_utf8-IsValid ascii ascii_laws broken

sanitize_utf8-valid_example : sanitize_utf8 ascii (codes "day") ≡ codes "day"
sanitize_utf8-valid_example = sanitize_utf8-valid ascii ascii_laws (codes "day") refl

push_all_lossless_example : push_all ascii [] pieces ≡ (concat pieces, [])
push_all_lossless_example = push_all_lossless ascii ascii_laws pieces refl

next_code_point_index_bounds_example :
    (1 < next_code_point_index ascii broken 1) × (next_code_point_index ascii broken 1 ≤ 3)
next_code_point_index_bounds_example =
    next_code_point_index_bounds ascii ascii_reports broken 1 (omega arith)

complete_prefix_length_lem_example :
    IsValid ascii (take (complete_prefix_length ascii broken) broken)
    × ((validate_or_throw ascii broken ≡ false)
        ⊎ (complete_prefix_length ascii broken ≡ length broken))
complete_prefix_length_lem_example = complete_prefix_length_lem ascii ascii_laws broken
