-- ===== src/Batch/Store/Texts.antt =====
-- `std::getline` on a text, and the texts that it reads back.
use qtrans.Base.{
  Bytes, ℕ, ◌≡◌, ◌≢◌, refl, ap, ◌∙◌, false, List, [], ◌∷◌, ◌++◌, All, ◌==◌, if◌then◌else◌, arith,
}
use qtrans.Base.Decimal.{AreDigits, is_digit, to_string, to_string-AreDigits}
use qtrans.Batch.Store.Codec.{Lacks}

-- What `std::getline(in, line, separator)` returns one after another.
unfoldable pub getlines : ℕ → Bytes → List Bytes
getlines separator [] = []
getlines separator (c ∷ text) =
    let rest = getlines separator text in
    if c == separator
    then [] ∷ rest
    else elim rest [ [] ↦ (c ∷ []) ∷ [] | line ∷ lines ↦ (c ∷ line) ∷ lines ]

-- Each line with its newline.
unfoldable pub unlines : List Bytes → Bytes
unlines [] = []
unlines (line ∷ lines) = line ++ 0x0a ∷ unlines lines

pub getlines-separator :
    (separator : ℕ) (line text : Bytes)
    → Lacks separator line
    → getlines separator (line ++ separator ∷ text) ≡ line ∷ getlines separator text
unfolding getlines
getlines-separator separator [] text h = ground arith
getlines-separator separator (c ∷ line) text h =
    rw (getlines-separator separator line text h.1) (ground (arith, h.0))

pub getlines-last :
    (separator : ℕ) (line : Bytes)
    → Lacks separator line
    → line ≢ []
    → getlines separator line ≡ line ∷ []
unfolding getlines
getlines-last separator [] h ne = absurd (ne refl)
getlines-last separator (c ∷ []) h ne = ground (arith, h.0)
getlines-last separator (c ∷ d ∷ line) h ne =
    rw (getlines-last separator (d ∷ line) h.1 (λ e. cc), getlines) (ground (arith, h.0))

-- Lines without newlines are read back.
pub getlines-unlines :
    (lines : List Bytes)
    → All (λ line. Lacks 0x0a line) lines
    → getlines 0x0a (unlines lines) ≡ lines
unfolding unlines
getlines-unlines [] h = unfold getlines in refl
getlines-unlines (line ∷ lines) h =
    getlines-separator 0x0a line (unlines lines) h.0 ∙ ap (◌∷◌ line) (getlines-unlines lines h.1)

-- The digits of a number are none of the bytes below 0x30 or above 0x39.
pub AreDigits-Lacks : (c : ℕ) (text : Bytes) → is_digit c ≡ false → AreDigits text → Lacks c text
AreDigits-Lacks c [] f h = tt
AreDigits-Lacks c (d ∷ text) f h =
    ((λ e. absurd (ground (arith, f, h.0, e))), AreDigits-Lacks c text f h.1)

pub to_string-Lacks : (c n : ℕ) → is_digit c ≡ false → Lacks c (to_string n)
to_string-Lacks c n f = AreDigits-Lacks c (to_string n) f (to_string-AreDigits n)
