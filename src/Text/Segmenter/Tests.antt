-- ===== src/Text/Segmenter/Tests.antt =====
-- A run of the segmenter on a small text, and its theorems at it.
use qtrans.Base.{◌≡◌, refl, [], ◌∷◌, codes, Bytes, concat, All, length}
use qtrans.Text.Segmenter.{boundaries, split}
use qtrans.Text.Segmenter.Boundaries.{
  AreBoundaries, IsNonempty, boundaries-AreBoundaries, split_lossless,
}

abbrev greeting : Bytes
greeting = codes "Hello you. Good day! no."

boundaries_run : boundaries greeting ≡ 0 ∷ 11 ∷ 21 ∷ 24 ∷ []
unfolding boundaries
boundaries_run = refl

boundaries-AreBoundaries_example : AreBoundaries (boundaries greeting) (length greeting)
boundaries-AreBoundaries_example = boundaries-AreBoundaries greeting

split_lossless_example : (concat (split greeting) ≡ greeting) × All IsNonempty (split greeting)
split_lossless_example = split_lossless greeting
