-- ===== src/Text/Segmenter/Boundaries.antt =====
-- What `boundaries` and `split` of libs/sentbreak/src/segmenter.cpp promise.
use qtrans.Base.{
  Bytes, ℕ, zero, suc, ◌+◌, ◌-◌, ◌≤◌, ◌<◌, ◌≡◌, ◌≢◌, refl, ap, subst, inl, inr, ◌∙◌, List, [], ◌∷◌,
  ◌++◌, All, Bool-cases, length, concat, slice, slice-append, take_all, drop, arith, length-take,
  length-drop,
}
use qtrans.Text.Segmenter.{
  CodePoint, decode, begin_at, break_at, inner_boundaries, close_at, boundaries, pieces, pieces_of,
  split,
}
use qtrans.Text.Segmenter.Points.{Chain, decode-Chain, begin_bounds, begin_rises}

-- Positions that rise from above `lo` to below `hi`.
abbrev Rising : ℕ → List ℕ → ℕ → Type 0
Rising lo [] hi = Unit {0}
Rising lo (p ∷ ps) hi = (lo < p) × (p < hi) × Rising p ps hi

-- Positions that rise from above `lo`, the last of which is `hi`.
abbrev pub Cuts : ℕ → List ℕ → ℕ → Type 0
Cuts lo [] hi = lo ≡ hi
Cuts lo (p ∷ ps) hi = (lo < p) × Cuts p ps hi

Rising-weaken : (lo m hi : ℕ) (ps : List ℕ) → lo ≤ m → Rising m ps hi → Rising lo ps hi
Rising-weaken lo m hi [] h r = tt
Rising-weaken lo m hi (p ∷ ps) h r = (omega arith, r.1, r.2)

inner_boundaries-Rising :
    (n : ℕ) (points : List CodePoint) (i rounds lo : ℕ)
    → Chain 0 points n
    → suc i + rounds ≤ length points
    → lo ≤ begin_at points i
    → Rising lo (inner_boundaries points (suc i) rounds) n
unfolding inner_boundaries
inner_boundaries-Rising n points i zero lo c h g = tt
inner_boundaries-Rising n points i (suc rounds) lo c h g =
    let rises : begin_at points i < begin_at points (suc i) =
      begin_rises 0 n points i c (omega arith) in
    let below : begin_at points (suc i) < n = (begin_bounds 0 n points (suc i) c (omega arith)).1 in
    let rest = λ (m : ℕ) (e : m ≤ begin_at points (suc i)).
      inner_boundaries-Rising n points (suc i) rounds m c (omega arith) e in
    elim (Bool-cases (break_at points (suc i))) [
      | inl e ↦ rw e (omega arith, below, rest (begin_at points (suc i)) (omega arith))
      | inr e ↦ rw e (rest lo (omega arith))
    ]

close_at-Cuts :
    (lo hi : ℕ) (ps : List ℕ) → lo ≤ hi → Rising lo ps hi → Cuts lo (close_at hi lo ps) hi
unfolding close_at
close_at-Cuts lo hi [] h r = ground arith
close_at-Cuts lo hi (p ∷ ps) h r = (r.0, close_at-Cuts p hi ps (omega arith) r.2)

-- The boundaries of a text begin with 0, rise strictly and end with its size.
abbrev pub AreBoundaries : List ℕ → ℕ → Type 0
AreBoundaries [] size = ⊥
AreBoundaries (p ∷ ps) size = (p ≡ 0) × Cuts 0 ps size

inner-Rising :
    (n : ℕ) (points : List CodePoint)
    → Chain 0 points n
    → Rising 0 (inner_boundaries points 1 (length points - 1)) n
unfolding inner_boundaries
inner-Rising n [] c = tt
inner-Rising n (p ∷ ps) c =
    inner_boundaries-Rising n (p ∷ ps) 0 (length (p ∷ ps) - 1) 0 c (omega arith) (omega arith)

-- The boundaries of a text begin with 0, rise strictly and end with its size, whatever its bytes are.
pub boundaries-AreBoundaries : (text : Bytes) → AreBoundaries (boundaries text) (length text)
unfolding boundaries
boundaries-AreBoundaries text = (
  refl,
  close_at-Cuts 0 (length text) _ (omega arith)
      (inner-Rising (length text) (decode text) (decode-Chain text)),
)

Cuts-le : (lo hi : ℕ) (ps : List ℕ) → Cuts lo ps hi → lo ≤ hi
Cuts-le lo hi [] c = omega arith
Cuts-le lo hi (p ∷ ps) c = omega (arith, Cuts-le p hi ps c.1)

pieces_step :
    (text : Bytes) (lo p : ℕ) (ps : List ℕ)
    → lo < p
    → pieces text lo (p ∷ ps) ≡ slice lo (p - lo) text ∷ pieces text p ps
unfolding pieces
pieces_step text lo p ps h = ground arith

concat-pieces :
    (text : Bytes) (lo hi : ℕ) (ps : List ℕ)
    → Cuts lo ps hi
    → concat (pieces text lo ps) ≡ slice lo (hi - lo) text
concat-pieces text lo hi [] c =
    unfold pieces in ap (λ k. slice lo k text) (let e : 0 ≡ hi - lo = omega arith in e)
concat-pieces text lo hi (p ∷ ps) c =
    let le : p ≤ hi = Cuts-le p hi ps c.1 in
    let start : lo + (p - lo) ≡ p = omega arith in
    let size : p - lo + (hi - p) ≡ hi - lo = omega arith in
    rw (pieces_step text lo p ps c.0) (
      ap (◌++◌ (slice lo (p - lo) text)) (concat-pieces text p hi ps c.1)
      ∙ subst (λ k. slice lo (p - lo) text ++ slice k (hi - p) text ≡ slice lo (hi - lo) text) start
          (subst
            (λ k. slice lo (p - lo) text ++ slice (lo + (p - lo)) (hi - p) text ≡ slice lo k text)
            size (slice-append lo (p - lo) (hi - p) text)))

abbrev pub IsNonempty {ℓ} : {A : Type ℓ} → List A → Type ℓ
IsNonempty xs = xs ≢ []

slice-IsNonempty :
    (from count : ℕ) (text : Bytes)
    → 0 < count
    → from + count ≤ length text
    → IsNonempty (slice from count text)
slice-IsNonempty from count text h fits e = absurd (
    omega (
      arith,
      ap length e,
      length-take count (drop from text) (omega (arith, length-drop from text)),
    ))

pieces-IsNonempty :
    (text : Bytes) (lo hi : ℕ) (ps : List ℕ)
    → Cuts lo ps hi
    → hi ≤ length text
    → All IsNonempty (pieces text lo ps)
pieces-IsNonempty text lo hi [] c h = unfold pieces in tt
pieces-IsNonempty text lo hi (p ∷ ps) c h = rw (pieces_step text lo p ps c.0) (
  slice-IsNonempty lo (p - lo) text (omega arith) (omega (arith, Cuts-le p hi ps c.1)),
  pieces-IsNonempty text p hi ps c.1 h,
)

split_of_boundaries :
    (text : Bytes) (ps : List ℕ)
    → AreBoundaries ps (length text)
    → (concat (pieces_of text ps) ≡ text) × All IsNonempty (pieces_of text ps)
unfolding pieces_of
split_of_boundaries text [] b = absurd b
split_of_boundaries text (p ∷ ps) b = rw b.0 (
  concat-pieces text 0 (length text) ps b.1 ∙ take_all (length text - 0) text (omega arith),
  pieces-IsNonempty text 0 (length text) ps b.1 (omega arith),
)

-- The sentences of a text are not empty, and one after another they give the text back, whatever
-- its bytes are.
pub split_lossless : (text : Bytes) → (concat (split text) ≡ text) × All IsNonempty (split text)
unfolding split
split_lossless text = split_of_boundaries text (boundaries text) (boundaries-AreBoundaries text)
