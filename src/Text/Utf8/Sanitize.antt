-- ===== src/Text/Utf8/Sanitize.antt =====
-- What `sanitize_utf8` and `next_code_point_index` of app/src/runtime/internal/text/utf8.cpp return.
use qtrans.Base.{
  true, false, ◌⊎◌, inl, inr, Bool-cases, take_all, sym, Bytes, ℕ, zero, suc, ◌+◌, ◌≤◌, ◌<◌, ◌≡◌,
  refl, subst, [], ◌∷◌, length, take, drop, take-nil, length-drop, arith,
}
use qtrans.Text.Utf8.{
  complete_prefix_length, validate_or_throw, is_success, Validator, IsValid, ReportsPosition,
  sanitize, sanitize_utf8, valid_length, next_code_point, next_code_point_index,
}
use qtrans.Text.Utf8.Stream.{Utf8Laws}

IsValid_of_is_success :
    (validate : Validator) (text : Bytes)
    → is_success (validate text).error ≡ true
    → IsValid validate text
IsValid_of_is_success validate text e = ground (arith, e)

module _ (validate : Validator) (laws : Utf8Laws validate) where
  empty_valid : IsValid validate []
  empty_valid = subst (λ t. IsValid validate t) (take-nil _) (laws.before_error [])

  sanitize_IsValid : (fuel : ℕ) (text : Bytes) → IsValid validate (sanitize validate fuel text)
  unfolding sanitize
  sanitize_IsValid zero text = empty_valid
  sanitize_IsValid (suc fuel) [] = empty_valid
  sanitize_IsValid (suc fuel) (b ∷ rest) = ground (
    arith,
    laws.before_error (b ∷ rest),
    sanitize_IsValid fuel (drop ((validate (b ∷ rest)).count + 1) (b ∷ rest)),
    laws.join (take (validate (b ∷ rest)).count (b ∷ rest))
        (sanitize validate fuel (drop ((validate (b ∷ rest)).count + 1) (b ∷ rest))),
  )

  sanitize-valid :
      (fuel : ℕ) (text : Bytes)
      → length text ≤ fuel
      → IsValid validate text
      → sanitize validate fuel text ≡ text
  unfolding sanitize
  sanitize-valid zero [] h v = refl
  sanitize-valid zero (b ∷ text) h v = absurd (omega arith)
  sanitize-valid (suc fuel) [] h v = refl
  sanitize-valid (suc fuel) (b ∷ text) h v = rw v

  -- With a validator that keeps `Utf8Laws`: what is sanitized is valid, whatever the bytes are.
  pub sanitize_utf8-IsValid : (text : Bytes) → IsValid validate (sanitize_utf8 validate text)
  unfolding sanitize_utf8
  sanitize_utf8-IsValid text = sanitize_IsValid (length text) text

  -- With a validator that keeps `Utf8Laws`: a valid text is not changed.
  pub sanitize_utf8-valid :
      (text : Bytes) → IsValid validate text → sanitize_utf8 validate text ≡ text
  unfolding sanitize_utf8
  sanitize_utf8-valid text = sanitize-valid (length text) text (omega arith)

module _ (validate : Validator) (laws : Utf8Laws validate) where
  -- With a validator that keeps `Utf8Laws`: the complete prefix of a text is valid; it is the whole text unless `validate_or_throw` throws.
  pub complete_prefix_length_lem :
      (text : Bytes)
      → IsValid validate (take (complete_prefix_length validate text) text)
        × ((validate_or_throw validate text ≡ false)
            ⊎ (complete_prefix_length validate text ≡ length text))
  unfolding complete_prefix_length validate_or_throw
  complete_prefix_length_lem [] = (empty_valid validate laws, inr refl)
  complete_prefix_length_lem (b ∷ text) =
      elim (Bool-cases (is_success (validate (b ∷ text)).error)) [
        | inl e ↦ rw e (
          subst (λ t. IsValid validate t)
              (sym (take_all (length (b ∷ text)) (b ∷ text) (omega arith)))
              (IsValid_of_is_success validate (b ∷ text) e),
          inr refl,
        )
        | inr e ↦ rw e (laws.before_error (b ∷ text), inl refl)
      ]

module _ (validate : Validator) (reports : ReportsPosition validate) where
  valid_length_bounds :
      (text : Bytes) (len rounds : ℕ)
      → 0 < len
      → len + rounds ≡ length text + 1
      → 0 < length text
      → (0 < valid_length validate text len rounds)
        × (valid_length validate text len rounds ≤ length text)
  unfolding valid_length
  valid_length_bounds text len zero pos sum text_pos = (text_pos, omega arith)
  valid_length_bounds text len (suc rounds) pos sum text_pos =
      ground (arith, valid_length_bounds text (suc len) rounds (omega arith) (omega arith) text_pos)

  -- A step goes forward by a byte at least, and not past the text.
  pub next_code_point_bounds :
      (text : Bytes)
      → 0 < length text
      → (0 < next_code_point validate text) × (next_code_point validate text ≤ length text)
  unfolding next_code_point
  next_code_point_bounds [] h = absurd (omega arith)
  next_code_point_bounds (b ∷ rest) h = ground (
    arith,
    reports (b ∷ rest),
    valid_length_bounds (b ∷ rest) 1 (length (b ∷ rest)) (omega arith) (omega arith) h,
  )

  -- With a validator that reports positions within the text: `next_code_point_index` moves a position
  -- inside the text forward, and not past its end.
  pub next_code_point_index_bounds :
      (text : Bytes) (index : ℕ)
      → index < length text
      → (index < next_code_point_index validate text index)
        × (next_code_point_index validate text index ≤ length text)
  unfolding next_code_point_index
  next_code_point_index_bounds text index h =
      ground (arith, next_code_point_bounds (drop index text), length-drop index text)
