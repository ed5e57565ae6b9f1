-- ===== src/Base/Decimal.antt =====
-- `std::to_string` and `std::stoi` on decimal numbers.
use Prim.Native.Nat.{ℕ, zero, suc, ◌+◌, ◌-◌, ◌*◌, ◌/◌, ◌%◌, ◌≤◌, ◌<◌}
use mathlib.Core.Bool.{Bool, true, false, ◌&&◌, ◌||◌}
use mathlib.Core.List.{[], ◌∷◌, ◌++◌}
use mathlib.Core.Logic.{◌≢◌}
use mathlib.Core.Option.{Option, none, some}
use mathlib.Core.Path.{◌≡◌, refl, sym, ap, ◌∙◌}
use native.Mathlib.Omega.{arith}
use qtrans.Base.Lists.{All, All-append}
use qtrans.Base.Tests.{leb, ltb, ◌==◌, if◌then◌else◌, if_cases}
use qtrans.Base.Texts.{Bytes}

to_digits : ℕ → ℕ → Bytes
to_digits zero n = []
to_digits (suc fuel) n =
    let rest = to_digits fuel (n / 10) in
    if ltb n 10 then (0x30 + n) ∷ [] else rest ++ (0x30 + n % 10) ∷ []

-- A number has at most as many digits as it counts, and one.
pub to_string : ℕ → Bytes
unfolding to_digits
to_string n = to_digits (suc n) n

abbrev pub is_digit : ℕ → Bool
is_digit c = leb 0x30 c && leb c 0x39

-- The value of the digits at the head of a text.
pub read_digits : ℕ → Bytes → ℕ
read_digits acc [] = acc
read_digits acc (c ∷ text) =
    let rest = read_digits (acc * 10 + (c - 0x30)) text in if is_digit c then rest else acc

-- `std::isspace` in the C locale.
abbrev pub is_space : ℕ → Bool
is_space c = c == 0x20 || (leb 9 c && leb c 13)

pub skip_spaces : Bytes → Bytes
skip_spaces [] = []
skip_spaces (c ∷ text) = let rest = skip_spaces text in if is_space c then rest else c ∷ text

-- Whether the number is negative, and its size, if there is a number at the head of the text.
pub unsigned : Bool → Bytes → Option (Bool × ℕ)
unfolding read_digits
unsigned negative [] = none
unsigned negative (c ∷ text) =
    if is_digit c then some (negative, read_digits 0 (c ∷ text)) else none

pub signed : Bytes → Option (Bool × ℕ)
unfolding unsigned
signed [] = none
signed (c ∷ text) =
    if c == 0x2d
    then unsigned true text
    else if c == 0x2b
    then unsigned false text
    else unsigned false (c ∷ text)

-- `limit` is the first size that is out of range, at which an exception is thrown. The least
-- negative number, of that very size, is not written by the source and counts as out of range.
unfoldable pub sto : ℕ → Bytes → Option (Bool × ℕ)
unfolding skip_spaces signed
sto limit text = elim (signed (skip_spaces text)) [
  | none ↦ none
  | some (negative, n) ↦ if ltb n limit then some (negative, n) else none
]

abbrev pub AreDigits : Bytes → Type 0
AreDigits text = All (λ c. is_digit c ≡ true) text

to_digits-AreDigits : (fuel n : ℕ) → AreDigits (to_digits fuel n)
unfolding to_digits
to_digits-AreDigits zero n = tt
to_digits-AreDigits (suc fuel) n =
    if_cases AreDigits (ltb n 10) _ _ (λ t. (ground (arith, t), tt))
      (λ f.
        All-append (λ c. is_digit c ≡ true) (to_digits fuel (n / 10)) ((0x30 + n % 10) ∷ [])
          (to_digits-AreDigits fuel (n / 10)) (ground arith, tt))

pub to_string-AreDigits : (n : ℕ) → AreDigits (to_string n)
unfolding to_string
to_string-AreDigits n = to_digits-AreDigits (suc n) n

read_digits-snoc :
    (acc : ℕ) (ds : Bytes) (d : ℕ)
    → AreDigits ds
    → is_digit d ≡ true
    → read_digits acc (ds ++ d ∷ []) ≡ read_digits acc ds * 10 + (d - 0x30)
unfolding read_digits
read_digits-snoc acc [] d h k = ground (arith, k)
read_digits-snoc acc (c ∷ ds) d h k =
    ground (arith, h.0, read_digits-snoc (acc * 10 + (c - 0x30)) ds d h.1 k)

read_digits-to_digits : (fuel n : ℕ) → n < fuel → read_digits 0 (to_digits fuel n) ≡ n
unfolding read_digits to_digits
read_digits-to_digits zero n h = absurd (omega arith)
read_digits-to_digits (suc fuel) n h =
    if_cases (λ t. read_digits 0 t ≡ n) (ltb n 10) _ _ (λ t. ground (arith, t))
      (λ f.
        let big : 10 ≤ n = ground (arith, f) in
        let ih = read_digits-to_digits fuel (n / 10) (omega arith) in
        let last : is_digit (0x30 + n % 10) ≡ true = ground arith in
        read_digits-snoc 0 (to_digits fuel (n / 10)) (0x30 + n % 10)
          (to_digits-AreDigits fuel (n / 10)) last
        ∙ omega (arith, ih))

pub read_digits-to_string : (n : ℕ) → read_digits 0 (to_string n) ≡ n
unfolding to_string
read_digits-to_string n = read_digits-to_digits (suc n) n (omega arith)

snoc-ne-nil : (ds : Bytes) (d : ℕ) → ds ++ d ∷ [] ≢ []
snoc-ne-nil [] d e = cc
snoc-ne-nil (c ∷ ds) d e = cc

pub to_string-ne-nil : (n : ℕ) → to_string n ≢ []
unfolding to_string to_digits
to_string-ne-nil n =
    if_cases (λ (t : Bytes). t ≢ []) (ltb n 10) ((0x30 + n) ∷ [])
      (to_digits n (n / 10) ++ (0x30 + n % 10) ∷ []) (λ _ e. cc)
      (λ _. snoc-ne-nil (to_digits n (n / 10)) (0x30 + n % 10))

sto-digits :
    (limit : ℕ) (text : Bytes)
    → AreDigits text
    → text ≢ []
    → read_digits 0 text < limit
    → sto limit text ≡ some (false, read_digits 0 text)
unfolding sto skip_spaces signed unsigned
sto-digits limit [] h ne lt = absurd (ne refl)
sto-digits limit (c ∷ text) h ne lt = ground (arith, h.0)

-- A number that is in range is read back from its digits.
pub sto-to_string : (limit n : ℕ) → n < limit → sto limit (to_string n) ≡ some (false, n)
sto-to_string limit n h =
    let e = read_digits-to_string n in
    sto-digits limit (to_string n) (to_string-AreDigits n) (to_string-ne-nil n) (omega (arith, e))
    ∙ ap (λ m. some (false, m)) e

pub to_string_injective : (m n : ℕ) → to_string m ≡ to_string n → m ≡ n
to_string_injective m n e =
    sym (read_digits-to_string m) ∙ ap (read_digits 0) e ∙ read_digits-to_string n
