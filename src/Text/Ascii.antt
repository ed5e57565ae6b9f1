-- ===== src/Text/Ascii.antt =====
-- A validator that knows the ASCII characters only, for examples.
use qtrans.Base.{
  Bytes, ℕ, suc, ◌≡◌, ◌≢◌, ◌<◌, refl, Bool, true, ◌&&◌, inl, inr, Bool-cases, [], ◌∷◌, ◌++◌, ltb,
  if◌then◌else◌, length, take, arith,
}
use qtrans.Text.Utf8.{success, malformed, Validator, IsValid, ReportsPosition}
use qtrans.Text.Utf8.Stream.{Utf8Laws}

abbrev all_ascii : Bytes → Bool
all_ascii [] = true
all_ascii (c ∷ text) = ltb c 0x80 && all_ascii text

-- How many ASCII characters stand at the head of a text.
abbrev ascii_prefix : Bytes → ℕ
ascii_prefix [] = 0
ascii_prefix (c ∷ text) = let rest = ascii_prefix text in if ltb c 0x80 then suc rest else 0

abbrev pub ascii : Validator
ascii text = record {
  error = if all_ascii text then success else malformed;
  count = ascii_prefix text;
}

all_ascii_of : (text : Bytes) → IsValid ascii text → all_ascii text ≡ true
all_ascii_of text h = elim (Bool-cases (all_ascii text)) [
  | inl e ↦ e
  | inr e ↦ absurd (ground (arith, e, h))
]

IsValid_of : (text : Bytes) → all_ascii text ≡ true → IsValid ascii text
IsValid_of text h = ground (arith, h)

all_ascii-append : (a b : Bytes) → all_ascii (a ++ b) ≡ (all_ascii a && all_ascii b)
all_ascii-append [] b = refl
all_ascii-append (c ∷ a) b = ground (arith, all_ascii-append a b)

all_ascii-prefix : (a : Bytes) → all_ascii (take (ascii_prefix a) a) ≡ true
all_ascii-prefix [] = refl
all_ascii-prefix (c ∷ a) = elim (Bool-cases (ltb c 0x80)) [
  | inl e ↦ rw e (rw e (all_ascii-prefix a))
  | inr e ↦ rw e refl
]

pub ascii_laws : Utf8Laws ascii
ascii_laws = record {
  prefix_cut =
      λ a b h. inl (IsValid_of a (ground (arith, all_ascii-append a b, all_ascii_of (a ++ b) h)));
  before_error = λ a. IsValid_of (take (ascii_prefix a) a) (all_ascii-prefix a);
  cancel = λ a b h k. IsValid_of b (ground (arith, all_ascii-append a b, all_ascii_of (a ++ b) h));
  join = λ a b h k.
      IsValid_of (a ++ b)
        (ground (arith, all_ascii-append a b, all_ascii_of a h, all_ascii_of b k));
}

ascii_prefix_bound : (a : Bytes) → all_ascii a ≢ true → ascii_prefix a < length a
ascii_prefix_bound [] h = absurd (h refl)
ascii_prefix_bound (c ∷ a) h = elim (Bool-cases (ltb c 0x80)) [
  | inl e ↦
      let bound : ascii_prefix a < length a =
        ascii_prefix_bound a (λ k. h (ground (arith, e, k))) in
      ground (arith, e, bound)
  | inr e ↦ ground (arith, e)
]

pub ascii_reports : ReportsPosition ascii
ascii_reports text h = ascii_prefix_bound text (λ e. h (IsValid_of text e))
