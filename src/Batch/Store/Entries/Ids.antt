-- ===== src/Batch/Store/Entries/Ids.antt =====
-- `repair_duplicate_ids` of app/src/batch/batch_store.cpp.
use qtrans.Base.{
  Bytes, ℕ, zero, suc, ◌+◌, ◌≤◌, ◌<◌, true, false, ◌≡◌, ◌≢◌, refl, sym, ap, ◌∙◌, List, [], ◌∷◌,
  ◌++◌, length, bytes_eq, eq_of_bytes_eq, Bool-cases, inl, inr, if◌then◌else◌, arith, subst, drop,
  ltb, ltb→lt, if_cases,
}
use qtrans.Batch.Types.{BatchEntry}
use qtrans.Batch.Store.Entries.{
  contains, candidate, free_candidate, repair_from, repair_duplicate_ids,
}

-- The list without the first `x`.
erase : Bytes → List Bytes → List Bytes
erase x [] = []
erase x (y ∷ seen) = let rest = erase x seen in if bytes_eq y x then seen else y ∷ rest

length-erase :
    (x : Bytes) (seen : List Bytes)
    → contains seen x ≡ true
    → suc (length (erase x seen)) ≡ length seen
unfolding erase contains
length-erase x [] h = absurd (cc)
length-erase x (y ∷ seen) h = elim (Bool-cases (bytes_eq y x)) [
  | inl e ↦ rw e refl
  | inr e ↦ rw e (ap suc (length-erase x seen (rw e at h)))
]

contains-erase :
    (x y : Bytes) (seen : List Bytes)
    → bytes_eq x y ≡ false
    → contains seen y ≡ true
    → contains (erase x seen) y ≡ true
unfolding erase contains
contains-erase x y [] ne h = h
contains-erase x y (z ∷ seen) ne h = elim (Bool-cases (bytes_eq z x)) [
  | inl e ↦ rw (e, erase) (ground (arith, h, eq_of_bytes_eq z x e, ne))
  | inr e ↦ elim (Bool-cases (bytes_eq z y)) [
    | inl f ↦ rw (e, f) refl
    | inr f ↦ rw (e, f) (contains-erase x y seen ne (rw f at h))
  ]
]

-- Distinct texts that all occur in a list are at most as many as its items.
pigeonhole :
    (f : ℕ → Bytes)
    → ((i j : ℕ) → f i ≡ f j → i ≡ j)
    → (n : ℕ) (seen : List Bytes) → ((i : ℕ) → i < n → contains seen (f i) ≡ true)
    → n ≤ length seen
pigeonhole f injective zero seen h = omega arith
pigeonhole f injective (suc n) seen h =
    let rest =
      pigeonhole (λ i. f (suc i)) (λ i j e. omega (arith, injective (suc i) (suc j) e)) n
        (erase (f 0) seen)
        (λ i lt.
          contains-erase (f 0) (f (suc i)) seen
            (elim (Bool-cases (bytes_eq (f 0) (f (suc i)))) [
              | inl e ↦ absurd (omega (arith, injective 0 (suc i) (eq_of_bytes_eq _ _ e)))
              | inr e ↦ e
            ])
            (h (suc i) (omega arith))) in
    omega (arith, rest, length-erase (f 0) seen (h 0 (omega arith)))

-- The ids are distinct, and none is one of `seen`.
abbrev pub AreFresh : List Bytes → List BatchEntry → Type 0
AreFresh seen [] = Unit
AreFresh seen (e ∷ entries) = (contains seen e.id ≡ false) × AreFresh (e.id ∷ seen) entries

-- The same entries but for their ids.
abbrev pub SameButIds : List BatchEntry → List BatchEntry → Type 0
SameButIds [] [] = Unit
SameButIds [] (e ∷ after) = ⊥
SameButIds (d ∷ before) [] = ⊥
SameButIds (d ∷ before) (e ∷ after) = (e ≡ record d { id = e.id }) × SameButIds before after

abbrev pub IsRepaired : List Bytes → List BatchEntry → List BatchEntry × ℕ → Type 0
IsRepaired seen before (after, repaired) =
    AreFresh seen after
    × SameButIds before after
    × (repaired ≡ 0 → after ≡ before)
    × (AreFresh seen before → repaired ≡ 0)

-- What stands behind an id and its `_dup`.
behind_dup :
    (id text : Bytes) → drop 4 (drop (length id) (id ++ 0x5f ∷ 0x64 ∷ 0x75 ∷ 0x70 ∷ text)) ≡ text
behind_dup [] text = refl
behind_dup (c ∷ id) text = behind_dup id text

module _ (to_string : ℕ → Bytes) (injective : (m n : ℕ) → to_string m ≡ to_string n → m ≡ n)
    (nonempty : (n : ℕ) → to_string n ≢ []) where
  candidate_injective :
      (id : Bytes) (i j : ℕ) → candidate to_string id i ≡ candidate to_string id j → i ≡ j
  unfolding candidate
  candidate_injective id zero zero e = refl
  candidate_injective id zero (suc j) e = absurd (
      nonempty (suc j + 1) (
        sym (behind_dup id (to_string (suc j + 1)))
        ∙ sym (ap (λ l. drop 4 (drop (length id) l)) e)
        ∙ behind_dup id []))
  candidate_injective id (suc i) zero e = absurd (
      nonempty (suc i + 1) (
        sym (behind_dup id (to_string (suc i + 1)))
        ∙ ap (λ l. drop 4 (drop (length id) l)) e
        ∙ behind_dup id []))
  candidate_injective id (suc i) (suc j) e =
      let same : to_string (suc i + 1) ≡ to_string (suc j + 1) =
        sym (behind_dup id (to_string (suc i + 1)))
        ∙ ap (λ l. drop 4 (drop (length id) l)) e
        ∙ behind_dup id (to_string (suc j + 1)) in
      omega (arith, injective (suc i + 1) (suc j + 1) same)

  -- The first `k` candidates are taken.
  Taken : List Bytes → Bytes → ℕ → Type 0
  Taken seen id k = (i : ℕ) → i < k → contains seen (candidate to_string id i) ≡ true

  Taken-suc :
      (seen : List Bytes) (id : Bytes) (k : ℕ)
      → Taken seen id k
      → contains seen (candidate to_string id k) ≡ true
      → Taken seen id (suc k)
  unfolding Taken
  Taken-suc seen id k h e i lt = elim (Bool-cases (ltb i k)) [
    | inl t ↦ h i (ltb→lt i k t)
    | inr f ↦
        subst (λ m. contains seen (candidate to_string id m) ≡ true)
          (let q : k ≡ i = ground (arith, f, lt) in q) e
  ]

  -- With as many rounds as there are ids the loop finds one that is free.
  free_candidate_lem :
      (seen : List Bytes) (id : Bytes) (fuel k : ℕ)
      → fuel + k ≡ length seen
      → Taken seen id k
      → contains seen (free_candidate to_string fuel seen id k) ≡ false
  unfolding free_candidate Taken
  free_candidate_lem seen id zero k size h =
      elim (Bool-cases (contains seen (candidate to_string id k))) [
        | inl e ↦ absurd (
            omega (
              arith,
              pigeonhole (candidate to_string id) (candidate_injective id) (suc k) seen
                  (Taken-suc seen id k h e),
            ))
        | inr e ↦ e
      ]
  free_candidate_lem seen id (suc fuel) k size h =
      if_cases (λ c. contains seen c ≡ false) (contains seen (candidate to_string id k)) _ _
        (λ e. free_candidate_lem seen id fuel (suc k) (omega arith) (Taken-suc seen id k h e))
        (λ e. e)

  repair_from-IsRepaired :
      (seen : List Bytes) (entries : List BatchEntry)
      → IsRepaired seen entries (repair_from to_string seen entries)
  unfolding repair_from Taken
  repair_from-IsRepaired seen [] = (tt, tt, (λ h. refl), (λ h. refl))
  repair_from-IsRepaired seen (e ∷ entries) = elim (Bool-cases (contains seen e.id)) [
    | inr f ↦
        let (fresh, same, kept, none_repaired) = repair_from-IsRepaired (e.id ∷ seen) entries in
        rw f ((f, fresh), ((refl, same)), (λ h. ap (◌∷◌ e) (kept h)), (λ h. none_repaired h.1))
    | inl t ↦
        let id = free_candidate to_string (length seen) seen e.id 0 in
        let (fresh, same, kept, none_repaired) = repair_from-IsRepaired (id ∷ seen) entries in
        let free =
          free_candidate_lem seen e.id (length seen) 0 (omega arith)
            (λ i lt. absurd (omega arith)) in
        rw t (
          (free, fresh),
          (refl, same),
          (λ h. absurd (omega arith)),
          (λ h. absurd (ground (arith, t, h.0))),
        )
  ]

  -- Where different numbers are written as different texts that are not empty: after the repair the
  -- ids are distinct. An entry changes in nothing but its id, the queue is as it
  -- was if no entry is counted, and none is counted if the ids were distinct.
  pub repair_duplicate_ids-IsRepaired :
      (entries : List BatchEntry) → IsRepaired [] entries (repair_duplicate_ids to_string entries)
  unfolding repair_duplicate_ids
  repair_duplicate_ids-IsRepaired entries = repair_from-IsRepaired [] entries
