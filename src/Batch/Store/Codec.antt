-- ===== src/Batch/Store/Codec.antt =====
-- The escapes and the key-value lines of app/src/batch/batch_store.cpp.
use qtrans.Base.{
  Bytes, ℕ, ◌≡◌, ◌≢◌, refl, ap, ap₂, ◌∙◌, Bool, true, false, not, ◌&&◌, Option, none, some, [], ◌∷◌,
  ◌++◌, All, All-append, ◌==◌, if◌then◌else◌, if_cases, Bool-cases, inl, inr, arith,
}

-- Two backslashes for a backslash, and one with an n for a newline.
pub escape_byte : ℕ → Bytes
escape_byte c =
    if c == 0x5c then 0x5c ∷ 0x5c ∷ [] else if c == 0x0a then 0x5c ∷ 0x6e ∷ [] else c ∷ []

pub escape : Bytes → Bytes
unfolding escape_byte
escape [] = []
escape (c ∷ value) = escape_byte c ++ escape value

unfoldable pub unescape : Bytes → Bytes
unescape [] = []
unescape (c ∷ []) = c ∷ []
unescape (c ∷ d ∷ value) =
    let behind_both = unescape value in
    let behind_one = unescape (d ∷ value) in
    if c == 0x5c && d == 0x6e
    then 0x0a ∷ behind_both
    else if c == 0x5c && d == 0x5c
    then 0x5c ∷ behind_both
    else c ∷ behind_one

-- What stands before the first `separator` and behind it.
pub split_at : ℕ → Bytes → Option (Bytes × Bytes)
split_at separator [] = none
split_at separator (c ∷ text) =
    let rest : Option (Bytes × Bytes) = elim (split_at separator text) [
      | none ↦ none
      | some (before, behind) ↦ some (c ∷ before, behind)
    ] in
    if c == separator then some ([], text) else rest

-- The key and the value of a line.
unfoldable pub parse_kv : Bytes → Option (Bytes × Bytes)
unfolding split_at unescape
parse_kv line = elim (split_at 0x3d line) [
  | none ↦ none
  | some (key, value) ↦ some (key, unescape value)
]

unfoldable pub make_kv : Bytes → Bytes → Bytes
unfolding escape
make_kv key value = key ++ 0x3d ∷ escape value

pub unescape-cons :
    (c : ℕ) (text : Bytes) → (c == 0x5c) ≡ false → unescape (c ∷ text) ≡ c ∷ unescape text
unfolding unescape
unescape-cons c [] e = refl
unescape-cons c (d ∷ text) e = rw e

unescape_backslash : (text : Bytes) → unescape (0x5c ∷ 0x5c ∷ text) ≡ 0x5c ∷ unescape text
unfolding unescape
unescape_backslash text = refl

unescape_newline : (text : Bytes) → unescape (0x5c ∷ 0x6e ∷ text) ≡ 0x0a ∷ unescape text
unfolding unescape
unescape_newline text = refl

-- What is escaped is read back as it was.
pub unescape-escape : (value : Bytes) → unescape (escape value) ≡ value
unfolding escape escape_byte
unescape-escape [] = unfold unescape in refl
unescape-escape (c ∷ value) = elim (Bool-cases (c == 0x5c)) [
  | inl e ↦ rw e (
      unescape_backslash (escape value)
      ∙ ap₂ ◌∷◌ (let q : 0x5c ≡ c = ground (arith, e) in q) (unescape-escape value))
  | inr e ↦ elim (Bool-cases (c == 0x0a)) [
    | inl f ↦
        rw (e, f)
          (unescape_newline (escape value)
            ∙ ap₂ ◌∷◌ (let q : 0x0a ≡ c = ground (arith, f) in q) (unescape-escape value))
    | inr f ↦ rw (e, f) (unescape-cons c (escape value) e ∙ ap (◌∷◌ c) (unescape-escape value))
  ]
]

-- No byte of the text is `c`.
abbrev pub Lacks : ℕ → Bytes → Type 0
Lacks c text = All (λ b. b ≢ c) text

abbrev pub lacks : ℕ → Bytes → Bool
lacks c [] = true
lacks c (b ∷ text) = not (b == c) && lacks c text

-- For a literal.
pub Lacks-of_lacks : (c : ℕ) (text : Bytes) → lacks c text ≡ true → Lacks c text
Lacks-of_lacks c [] h = tt
Lacks-of_lacks c (b ∷ text) h =
    let both : (not (b == c) ≡ true) × (lacks c text ≡ true) = ground (arith, h) in
    ((λ e. absurd (ground (arith, both.0, e))), Lacks-of_lacks c text both.1)

escape_byte-Lacks : (c : ℕ) → Lacks 0x0a (escape_byte c)
unfolding escape_byte
escape_byte-Lacks c =
    if_cases (Lacks 0x0a) (c == 0x5c) _ _
      (λ e. ((λ h. absurd (omega arith)), ((λ h. absurd (omega arith)), tt)))
      (λ e.
        if_cases (Lacks 0x0a) (c == 0x0a) _ _
          (λ f. ((λ h. absurd (omega arith)), ((λ h. absurd (omega arith)), tt)))
          (λ f. ((λ h. absurd (ground (arith, f, h))), tt)))

pub escape-Lacks : (value : Bytes) → Lacks 0x0a (escape value)
unfolding escape
escape-Lacks [] = tt
escape-Lacks (c ∷ value) =
    All-append (λ b. b ≢ 0x0a) (escape_byte c) (escape value) (escape_byte-Lacks c)
      (escape-Lacks value)

pub split_at-append :
    (separator : ℕ) (before behind : Bytes)
    → Lacks separator before
    → split_at separator (before ++ separator ∷ behind) ≡ some (before, behind)
unfolding split_at
split_at-append separator [] behind h = ground arith
split_at-append separator (c ∷ before) behind h =
    rw (split_at-append separator before behind h.1) (ground (arith, h.0))

-- A line that is made of a key without `=` and of any value is one line, and is read back as the
-- key and the value.
pub parse_kv-make_kv :
    (key value : Bytes)
    → Lacks 0x3d key
    → Lacks 0x0a key
    → (parse_kv (make_kv key value) ≡ some (key, value)) × Lacks 0x0a (make_kv key value)
unfolding parse_kv make_kv
parse_kv-make_kv key value no_separator no_newline = (
  rw (split_at-append 0x3d key (escape value) no_separator, parse_kv)
      (ap (λ v. some (key, v)) (unescape-escape value)),
  All-append (λ b. b ≢ 0x0a) key (0x3d ∷ escape value) no_newline
      ((λ h. absurd (omega arith)), escape-Lacks value),
)

-- A text without backslashes is not changed.
pub unescape-plain : (value : Bytes) → Lacks 0x5c value → unescape value ≡ value
unescape-plain [] h = unfold unescape in refl
unescape-plain (c ∷ value) h =
    unescape-cons c value (ground (arith, h.0)) ∙ ap (◌∷◌ c) (unescape-plain value h.1)

pub parse_kv-raw :
    (key text : Bytes) → Lacks 0x3d key → parse_kv (key ++ 0x3d ∷ text) ≡ some (key, unescape text)
unfolding parse_kv
parse_kv-raw key text h = rw (split_at-append 0x3d key text h, parse_kv) refl
