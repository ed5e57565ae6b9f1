-- ===== src/Text/Utf8/Stream.antt =====
-- What `Utf8StreamBuffer` of app/src/runtime/internal/text/utf8_stream_buffer.cpp returns.
use qtrans.Base.{
  Bytes, ℕ, suc, ◌≡◌, refl, sym, ap, subst, ◌∙◌, ◌⊎◌, inl, inr, List, [], ◌∷◌, ◌++◌, append_assoc,
  append-nil, length, concat, take, drop, take-append-drop,
}
use qtrans.Text.Utf8.{too_short, Validator, IsValid, drain, push}

-- Facts on UTF-8 that a validator reports.
pub record Utf8Laws (validate : Validator) : Type 0 where
  -- A text cut off from a valid one is valid, or breaks off within its last character.
  pub prefix_cut :
      (a b : Bytes)
      → IsValid validate (a ++ b)
      → IsValid validate a ⊎ ((validate a).error ≡ too_short)
  -- What stands before the position of an error is valid.
  pub before_error : (a : Bytes) → IsValid validate (take (validate a).count a)
  -- What stands behind a valid prefix of a valid text is valid.
  pub cancel : (a b : Bytes) → IsValid validate (a ++ b) → IsValid validate a → IsValid validate b
  pub join : (a b : Bytes) → IsValid validate a → IsValid validate b → IsValid validate (a ++ b)

module _ (validate : Validator) where
  -- The texts that a series of calls of `push` returns, joined, and the buffer behind them.
  pub push_all : Bytes → List Bytes → Bytes × Bytes
  push_all pending [] = ([], pending)
  push_all pending (piece ∷ pieces) =
      let (out, left) = push validate pending piece in
      let (outs, last) = push_all left pieces in (out ++ outs, last)

module _ (validate : Validator) (laws : Utf8Laws validate) where
  -- A buffer that holds text is not valid by itself: it waits for more.
  abbrev Waits : Bytes → Type 0
  Waits pending = IsValid validate pending → pending ≡ []

  abbrev Drains : Bytes → Bytes → Bytes × Bytes → Type 0
  Drains bytes more r = (r.0 ++ r.1 ≡ bytes) × IsValid validate (r.1 ++ more) × Waits r.1

  -- On the bytes of a valid text one round suffices: nothing is lost, and what stays is the
  -- beginning of the text to come.
  drain_too_short :
      (bytes more : Bytes)
      → IsValid validate (bytes ++ more)
      → (validate bytes).error ≡ too_short
      → Drains bytes more (take (validate bytes).count bytes, drop (validate bytes).count bytes)
  drain_too_short bytes more valid e =
      let n = (validate bytes).count in
      let whole : take n bytes ++ drop n bytes ≡ bytes = take-append-drop n bytes in
      (
        whole,
        laws.cancel (take n bytes) (drop n bytes ++ more)
            (subst (λ t. IsValid validate t)
              (sym (ap (λ t. t ++ more) whole) ∙ append_assoc (take n bytes) (drop n bytes) more)
              valid)
            (laws.before_error bytes),
        λ v.
            let whole_valid : IsValid validate bytes =
              subst (λ t. IsValid validate t) whole
                (laws.join (take n bytes) (drop n bytes) (laws.before_error bytes) v) in
            cc,
      )

  drain_valid :
      (fuel : ℕ) (bytes more : Bytes)
      → IsValid validate (bytes ++ more)
      → Drains bytes more (drain validate (suc fuel) bytes)
  unfolding drain
  drain_valid fuel [] more valid = (refl, valid, λ v. refl)
  drain_valid fuel (b ∷ bytes) more valid = elim (laws.prefix_cut (b ∷ bytes) more valid) [
    | inl e ↦ rw e (append-nil (b ∷ bytes), laws.cancel (b ∷ bytes) more valid e, λ v. refl)
    | inr e ↦ rw e (drain_too_short (b ∷ bytes) more valid e)
  ]

  push_all_valid :
      (pending : Bytes) (pieces : List Bytes)
      → Waits pending
      → IsValid validate (pending ++ concat pieces)
      → push_all validate pending pieces ≡ (pending ++ concat pieces, [])
  unfolding push_all push
  push_all_valid pending [] waits valid =
      let none_left : pending ≡ [] =
        waits (subst (λ t. IsValid validate t) (append-nil pending) valid) in
      rw (append-nil, none_left)
  push_all_valid pending (piece ∷ pieces) waits valid =
      let bytes = pending ++ piece in
      let r = drain validate (suc (length bytes)) bytes in
      let (whole, valid', waits') : Drains bytes (concat pieces) r =
        drain_valid (length bytes) bytes (concat pieces) (
          subst (λ t. IsValid validate t) (sym (append_assoc pending piece (concat pieces)))
            valid) in
      rw (push_all_valid r.1 pieces waits' valid') (
        ap (λ t. (t, []))
          (sym (append_assoc r.0 r.1 (concat pieces))
            ∙ ap (λ t. t ++ concat pieces) whole
            ∙ append_assoc pending piece (concat pieces)))

  -- With a validator that keeps `Utf8Laws`: however a valid text is cut into pieces, also within a character, the calls of `push` return
  -- it whole and leave the buffer empty.
  pub push_all_lossless :
      (pieces : List Bytes)
      → IsValid validate (concat pieces)
      → push_all validate [] pieces ≡ (concat pieces, [])
  push_all_lossless pieces valid = push_all_valid [] pieces (λ v. refl) valid
