-- ===== src/Base/Maps.antt =====
-- Maps with numbers for keys, as lists of pairs: `std::unordered_map`.
use Prim.Native.Nat.{ℕ}
use mathlib.Core.Bool.{Bool, true, false}
use mathlib.Core.List.{List, [], ◌∷◌}
use mathlib.Core.Option.{Option, none, some}
use mathlib.Core.Path.{◌≡◌, refl, subst, sym, ◌∙◌}
use native.Mathlib.Omega.{arith}
use qtrans.Base.Tests.{◌==◌, if◌then◌else◌, Bool-cases, if_cases, if_true, if_false}
use mathlib.Core.Logic.{inl, inr}

unfoldable pub find {ℓ} : {A : Type ℓ} → ℕ → List (ℕ × A) → Option A
find id [] = none
find id ((k, x) ∷ rest) = let behind = find id rest in if k == id then some x else behind

unfoldable pub contains {ℓ} : {A : Type ℓ} → ℕ → List (ℕ × A) → Bool
contains id [] = false
contains id ((k, x) ∷ rest) = let behind = contains id rest in if k == id then true else behind

unfoldable pub erase {ℓ} : {A : Type ℓ} → ℕ → List (ℕ × A) → List (ℕ × A)
erase id [] = []
erase id ((k, x) ∷ rest) = let behind = erase id rest in if k == id then behind else (k, x) ∷ behind

-- `m[id] = x`.
unfoldable pub assign {ℓ} : {A : Type ℓ} → ℕ → A → List (ℕ × A) → List (ℕ × A)
unfolding erase
assign id x m = (id, x) ∷ erase id m

-- The value of a key, if there is one, is changed.
unfoldable pub update {ℓ} : {A : Type ℓ} → ℕ → (A → A) → List (ℕ × A) → List (ℕ × A)
update id f [] = []
update id f ((k, x) ∷ rest) =
    let behind = update id f rest in if k == id then (k, f x) ∷ behind else (k, x) ∷ behind

module _ {ℓ} {A : Type ℓ} where
  pub contains-erase_self : (id : ℕ) (m : List (ℕ × A)) → contains id (erase id m) ≡ false
  unfolding contains erase
  contains-erase_self id [] = refl
  contains-erase_self id ((k, x) ∷ rest) =
      if_cases (λ (m : List (ℕ × A)). contains id m ≡ false) (k == id) _ _
        (λ _. contains-erase_self id rest) (λ f. if_false _ _ f ∙ contains-erase_self id rest)

  pub contains-erase_other :
      (id k : ℕ) (m : List (ℕ × A)) → (k == id) ≡ false → contains id (erase k m) ≡ contains id m
  unfolding contains erase
  contains-erase_other id k [] h = refl
  contains-erase_other id k ((j, x) ∷ rest) h = elim (Bool-cases (j == k)) [
    | inl e ↦
        let other : (j == id) ≡ false = ground (arith, e, h) in
        rw (e, other) (contains-erase_other id k rest h)
    | inr e ↦ rw (e, contains-erase_other id k rest h) refl
  ]

  pub contains-update :
      (id k : ℕ) (f : A → A) (m : List (ℕ × A)) → contains id (update k f m) ≡ contains id m
  unfolding contains update
  contains-update id k f [] = refl
  contains-update id k f ((j, x) ∷ rest) = elim (Bool-cases (j == k)) [
    | inl e ↦ rw (e, contains-update id k f rest) refl
    | inr e ↦ rw (e, contains-update id k f rest) refl
  ]

  pub contains_of_find :
      (id : ℕ) (m : List (ℕ × A)) (x : A) → find id m ≡ some x → contains id m ≡ true
  unfolding contains find
  contains_of_find id [] x h = absurd cc
  contains_of_find id ((k, y) ∷ rest) x h = elim (Bool-cases (k == id)) [
    | inl e ↦ rw e refl
    | inr e ↦ rw e (contains_of_find id rest x (sym (if_false (some y) (find id rest) e) ∙ h))
  ]

  pub find-erase_self : (id : ℕ) (m : List (ℕ × A)) → find id (erase id m) ≡ none
  unfolding find erase
  find-erase_self id [] = refl
  find-erase_self id ((k, x) ∷ rest) =
      if_cases (λ (m : List (ℕ × A)). find id m ≡ none) (k == id) _ _ (λ _. find-erase_self id rest)
        (λ f. if_false _ _ f ∙ find-erase_self id rest)

  pub find-erase_other :
      (id k : ℕ) (m : List (ℕ × A)) → (k == id) ≡ false → find id (erase k m) ≡ find id m
  unfolding find erase
  find-erase_other id k [] h = refl
  find-erase_other id k ((j, x) ∷ rest) h = elim (Bool-cases (j == k)) [
    | inl e ↦
        let other : (j == id) ≡ false = ground (arith, e, h) in
        rw (e, other) (find-erase_other id k rest h)
    | inr e ↦ rw (e, find-erase_other id k rest h) refl
  ]

  pub find-update_other :
      (id k : ℕ) (f : A → A) (m : List (ℕ × A))
      → (k == id) ≡ false
      → find id (update k f m) ≡ find id m
  unfolding find update
  find-update_other id k f [] h = refl
  find-update_other id k f ((j, x) ∷ rest) h = elim (Bool-cases (j == k)) [
    | inl e ↦
        let other : (j == id) ≡ false = ground (arith, e, h) in
        rw (e, other) (find-update_other id k f rest h)
    | inr e ↦ rw (e, find-update_other id k f rest h) refl
  ]

  -- A property of the value of a key, if it has one, that a change keeps.
  abbrev pub Holds {κ} : (A → Type κ) → Option A → Type κ
  Holds P none = Unit
  Holds P (some x) = P x

  pub find-update_self-Holds {κ} :
      (P Q : A → Type κ) (id : ℕ) (f : A → A) (m : List (ℕ × A))
      → ((x : A) → P x → Q (f x))
      → Holds P (find id m)
      → Holds Q (find id (update id f m))
  unfolding find update
  find-update_self-Holds P Q id f [] keep h = tt
  find-update_self-Holds P Q id f ((j, x) ∷ rest) keep h = elim (Bool-cases (j == id)) [
    | inl e ↦
        let here : P x = subst (Holds P) (if_true _ _ e) h in
        subst (λ (l : List (ℕ × A)). Holds Q (find id l)) (sym (if_true _ _ e))
          (subst (Holds Q) (sym (if_true _ _ e)) (keep x here))
    | inr e ↦
        let behind : Holds P (find id rest) = subst (Holds P) (if_false _ _ e) h in
        subst (λ (l : List (ℕ × A)). Holds Q (find id l)) (sym (if_false _ _ e))
          (subst (Holds Q) (sym (if_false _ _ e))
            (find-update_self-Holds P Q id f rest keep behind))
  ]

  pub Holds-all {κ} : (P : A → Type κ) (o : Option A) → ((x : A) → P x) → Holds P o
  Holds-all P none h = tt
  Holds-all P (some x) h = h x
