-- ===== src/Text/Segmenter/Points.antt =====
-- The code points that `decode` of libs/sentbreak/src/segmenter.cpp returns.
use qtrans.Base.{
  Bytes, ℕ, zero, suc, ◌+◌, ◌-◌, ◌≤◌, ◌<◌, ◌≡◌, refl, subst, List, [], ◌∷◌, length, drop,
  length-drop, arith,
}
use qtrans.Text.Segmenter.{CodePoint, read_point, decode_from, decode, begin_at}

-- The points follow one another from offset `i` to offset `n`, and none is empty.
abbrev pub Chain : ℕ → List CodePoint → ℕ → Type 0
Chain i [] n = i ≡ n
Chain i (p ∷ ps) n = (p.begin ≡ i) × (i < p.end) × Chain p.end ps n

pub Chain-le : (i n : ℕ) (ps : List CodePoint) → Chain i ps n → i ≤ n
Chain-le i n [] c = omega arith
Chain-le i n (p ∷ ps) c = omega (arith, Chain-le p.end n ps c.2)

read_point_bounds :
    (first : ℕ) (rest : Bytes)
    → (0 < (read_point first rest).1) × ((read_point first rest).1 ≤ length rest + 1)
unfolding read_point
read_point_bounds first rest = ground arith

decode_from-Chain :
    (fuel i : ℕ) (text : Bytes)
    → length text ≤ fuel
    → Chain i (decode_from fuel i text) (i + length text)
unfolding decode_from
decode_from-Chain zero i [] h = omega arith
decode_from-Chain zero i (first ∷ rest) h = absurd (omega arith)
decode_from-Chain (suc fuel) i [] h = omega arith
decode_from-Chain (suc fuel) i (first ∷ rest) h =
    let n = (read_point first rest).1 in
    let left = drop n (first ∷ rest) in
    let bounds : (0 < n) × (n ≤ length rest + 1) = read_point_bounds first rest in
    let size : length left ≡ suc (length rest) - n = length-drop n (first ∷ rest) in
    (
      refl,
      omega arith,
      subst (Chain (i + n) (decode_from fuel (i + n) left)) (omega arith)
          (decode_from-Chain fuel (i + n) left (omega arith)),
    )

-- `decode` cuts the text into points with no gap, from its first byte to its last.
pub decode-Chain : (text : Bytes) → Chain 0 (decode text) (length text)
unfolding decode
decode-Chain text =
    subst (Chain 0 (decode_from (length text) 0 text)) (omega arith)
      (decode_from-Chain (length text) 0 text (omega arith))

pub begin_bounds :
    (i n : ℕ) (ps : List CodePoint) (k : ℕ)
    → Chain i ps n
    → k < length ps
    → (i ≤ begin_at ps k) × (begin_at ps k < n)
unfolding begin_at
begin_bounds i n [] k c h = absurd (omega arith)
begin_bounds i n (p ∷ ps) zero c h = omega (arith, Chain-le p.end n ps c.2)
begin_bounds i n (p ∷ ps) (suc k) c h = omega (arith, begin_bounds p.end n ps k c.2)

pub begin_rises :
    (i n : ℕ) (ps : List CodePoint) (k : ℕ)
    → Chain i ps n
    → suc k < length ps
    → begin_at ps k < begin_at ps (suc k)
unfolding begin_at
begin_rises i n [] k c h = absurd (omega arith)
begin_rises i n (p ∷ []) k c h = absurd (omega arith)
begin_rises i n (p ∷ q ∷ ps) zero c h = omega arith
begin_rises i n (p ∷ q ∷ ps) (suc k) c h = begin_rises p.end n (q ∷ ps) k c.2 (omega arith)
