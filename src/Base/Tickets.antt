-- ===== src/Base/Tickets.antt =====
-- A map whose keys are given out in order: how often the end of a key may still be told. Each end
-- removes its key.
use Prim.Native.Nat.{ℕ, ◌+◌, ◌≤◌}
use mathlib.Core.Bool.{true, false, ◌||◌}
use mathlib.Core.List.{List, ◌∷◌}
use mathlib.Core.Logic.{inl, inr}
use mathlib.Core.Path.{◌≡◌, subst, sym, ap, ap₂, ◌∙◌}
use native.Mathlib.Omega.{arith}
use qtrans.Base.Tests.{leb, ◌==◌, if◌then◌else◌, Bool-cases, if_true, if_false, if_cases}
use qtrans.Base.Maps.{
  contains, erase, assign, update, contains-erase_self, contains-erase_other, contains-update,
}

abbrev pub once : ℕ → ℕ → ℕ
once k id = if k == id then 1 else 0

module _ {ℓ} {A : Type ℓ} where
  -- Once for a key that is there or not given out yet.
  abbrev pub allowance : ℕ → ℕ → List (ℕ × A) → ℕ
  allowance id next m = if contains id m || leb next id then 1 else 0

  -- A key that is there was given out.
  abbrev pub Given : ℕ → ℕ → List (ℕ × A) → Type 0
  Given id next m = contains id m ≡ true → next ≤ id → ⊥

  -- `told` and what may be told behind it are not more than what might be before.
  abbrev pub Spent : ℕ → ℕ → List (ℕ × A) → ℕ → List (ℕ × A) → ℕ → Type 0
  Spent id next m next' m' told =
      Given id next m → Given id next' m' × (told + allowance id next' m' ≤ allowance id next m)

  pub Spent-trans :
      (id a : ℕ) (m : List (ℕ × A)) (b : ℕ) (n : List (ℕ × A)) (c : ℕ) (o : List (ℕ × A))
      (x y z : ℕ)
      → x + y ≡ z
      → Spent id a m b n x
      → Spent id b n c o y
      → Spent id a m c o z
  Spent-trans id a m b n c o x y z e h k given =
      let first = h given in let rest = k first.0 in (rest.0, omega (arith, first.1, rest.1, e))

  pub Spent-same :
      (id next : ℕ) (m n : List (ℕ × A)) → contains id n ≡ contains id m → Spent id next m next n 0
  Spent-same id next m n c given =
      let b : allowance id next n ≡ allowance id next m =
        ap (λ b. if b || leb next id then 1 else 0) c in
      ((λ h le. given (sym c ∙ h) le), omega (arith, b))

  pub Spent-update :
      (id k : ℕ) (f : A → A) (next : ℕ) (m : List (ℕ × A)) → Spent id next m next (update k f m) 0
  Spent-update id k f next m = Spent-same id next m (update k f m) (contains-update id k f m)

  young :
      (id next : ℕ) (m : List (ℕ × A))
      → contains id m ≡ true
      → Given id next m
      → leb next id ≡ false
  young id next m h given = elim (Bool-cases (leb next id)) [
    | inl e ↦ absurd (given h (ground (arith, e)))
    | inr e ↦ e
  ]

  Spent-erase_self :
      (id next : ℕ) (m : List (ℕ × A)) → contains id m ≡ true → Spent id next m next (erase id m) 1
  Spent-erase_self id next m there given =
      let gone = contains-erase_self id m in
      let after : allowance id next (erase id m) ≡ 0 =
        ap (λ b. if b || leb next id then 1 else 0) gone
        ∙ ap (λ b. if b then 1 else 0) (young id next m there given) in
      let before : allowance id next m ≡ 1 = ap (λ b. if b || leb next id then 1 else 0) there in
      ((λ h. absurd (ground (arith, sym gone ∙ h))), omega (arith, after, before))

  -- The end of a key that is there is told.
  pub Spent-erase :
      (id k next : ℕ) (m : List (ℕ × A))
      → contains k m ≡ true
      → Spent id next m next (erase k m) (once k id)
  Spent-erase id k next m there given = elim (Bool-cases (k == id)) [
    | inl e ↦
        let q : k ≡ id = ground (arith, e) in
        let self = Spent-erase_self id next m (ap (λ k. contains k m) (sym q) ∙ there) given in
        subst
          (λ k.
            Given id next (erase k m)
            × (once k id + allowance id next (erase k m) ≤ allowance id next m))
          (sym q)
          (
            self.0,
            let same : once id id ≡ 1 = if_true _ _ (ap (λ k. k == id) (sym q) ∙ e) in
                omega (arith, self.1, same),
          )
    | inr e ↦
        let none_told : once k id ≡ 0 = if_false _ _ e in
        let rest = Spent-same id next m (erase k m) (contains-erase_other id k m e) given in
        (rest.0, omega (arith, rest.1, none_told))
  ]

  allowance-new : (id next : ℕ) (m : List (ℕ × A)) → leb next id ≡ true → allowance id next m ≡ 1
  allowance-new id next m old = elim (Bool-cases (contains id m)) [
    | inl t ↦ ap (λ b. if b || leb next id then 1 else 0) t
    | inr f ↦ ap (λ b. if b || leb next id then 1 else 0) f ∙ ap (λ b. if b then 1 else 0) old
  ]

  -- A new key is given out.
  pub Spent-assign :
      (id next : ℕ) (x : A) (m : List (ℕ × A)) → Spent id next m (next + 1) (assign next x m) 0
  unfolding assign
  Spent-assign id next x m given = elim (Bool-cases (next == id)) [
    | inl e ↦
        let q : next ≡ id = ground (arith, e) in
        let there : contains id ((next, x) ∷ erase next m) ≡ true =
          unfold contains in if_true _ _ e in
        let after : allowance id (next + 1) ((next, x) ∷ erase next m) ≡ 1 =
          ap (λ b. if b || leb (next + 1) id then 1 else 0) there in
        let before : allowance id next m ≡ 1 =
          allowance-new id next m (let le : leb next id ≡ true = ground (arith, q) in le) in
        ((λ _ le. absurd (omega (arith, q, le))), omega (arith, after, before))
    | inr e ↦
        let same : contains id ((next, x) ∷ erase next m) ≡ contains id m =
          unfold contains in if_false _ _ e ∙ contains-erase_other id next m e in
        let later : leb (next + 1) id ≡ leb next id = ground (arith, e) in
        let b : allowance id (next + 1) ((next, x) ∷ erase next m) ≡ allowance id next m =
          ap₂ (λ b c. if b || c then 1 else 0) same later in
        ((λ h le. given (sym same ∙ h) (omega (arith, le))), omega (arith, b))
  ]

  pub allowance_le : (id next : ℕ) (m : List (ℕ × A)) → allowance id next m ≤ 1
  allowance_le id next m =
      if_cases (λ (n : ℕ). n ≤ 1) (contains id m || leb next id) 1 0 (λ _. omega arith)
        (λ _. omega arith)
