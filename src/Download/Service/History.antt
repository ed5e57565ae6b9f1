-- ===== src/Download/Service/History.antt =====
-- The history of app/src/download/download_service.cpp.
use qtrans.Base.{
  ℕ, suc, ◌+◌, ◌-◌, ◌≤◌, ◌≡◌, List, [], ◌∷◌, ◌++◌, length, ltb, ◌==◌, if◌then◌else◌, if_cases,
  Bool-cases, inl, inr, arith,
}
use qtrans.Download.Service.{
  DownloadState, Service, terminal_history_limit, trim, erase, assign, remember_terminal_download,
}

-- How often an id stands in the map, and in the order.
abbrev kept : ℕ → List (ℕ × DownloadState) → ℕ
kept id [] = 0
kept id ((k, state) ∷ terminal) = (if k == id then 1 else 0) + kept id terminal

abbrev mentions : ℕ → List ℕ → ℕ
mentions id [] = 0
mentions id (k ∷ order) = (if k == id then 1 else 0) + mentions id order

abbrev Covers : List ℕ → List (ℕ × DownloadState) → Type 0
Covers order terminal = (id : ℕ) → kept id terminal ≤ mentions id order

-- No id stands more often in the map than in the order, with which it is dropped.
abbrev pub IsCovered : Service → Type 0
IsCovered s = Covers s.terminal_download_order s.terminal_downloads

abbrev pub IsBounded : List (ℕ × DownloadState) × List ℕ → Type 0
IsBounded (terminal, order) =
    Covers order terminal
    × (length terminal ≤ terminal_history_limit)
    × (length order ≤ terminal_history_limit)

kept-erase_other :
    (id k : ℕ) (terminal : List (ℕ × DownloadState)) → kept id (erase k terminal) ≤ kept id terminal
unfolding erase
kept-erase_other id k [] = omega arith
kept-erase_other id k ((j, x) ∷ terminal) = ground (arith, kept-erase_other id k terminal)

kept-erase :
    (id : ℕ) (terminal : List (ℕ × DownloadState))
    → kept id (erase id terminal) ≡ kept id terminal - 1
unfolding erase
kept-erase id [] = omega arith
kept-erase id ((j, x) ∷ terminal) = ground (arith, kept-erase id terminal)

length-erase :
    (k : ℕ) (terminal : List (ℕ × DownloadState))
    → length terminal ≤ suc (length (erase k terminal))
unfolding erase
length-erase k [] = omega arith
length-erase k ((j, x) ∷ terminal) = ground (arith, length-erase k terminal)

erase-Covers :
    (oldest : ℕ) (order : List ℕ) (terminal : List (ℕ × DownloadState))
    → Covers (oldest ∷ order) terminal
    → Covers order (erase oldest terminal)
erase-Covers oldest order terminal h id = elim (Bool-cases (oldest == id)) [
  | inl e ↦ ground (arith, e, h oldest, kept-erase oldest terminal)
  | inr e ↦ ground (arith, e, h id, kept-erase_other id oldest terminal)
]

Covers-length :
    (order : List ℕ) (terminal : List (ℕ × DownloadState))
    → Covers order terminal
    → length terminal ≤ length order
Covers-length order [] h = omega arith
Covers-length [] ((k, x) ∷ terminal) h = absurd (ground (arith, h k))
Covers-length (oldest ∷ order) ((k, x) ∷ terminal) h = omega (
  arith,
  length-erase oldest ((k, x) ∷ terminal),
  Covers-length order (erase oldest ((k, x) ∷ terminal))
      (erase-Covers oldest order ((k, x) ∷ terminal) h),
)

trim-IsBounded :
    (terminal : List (ℕ × DownloadState)) (order : List ℕ)
    → Covers order terminal
    → IsBounded (trim terminal order)
unfolding trim
trim-IsBounded terminal [] h = (h, omega (arith, Covers-length [] terminal h), omega arith)
trim-IsBounded terminal (oldest ∷ order) h =
    if_cases IsBounded (ltb terminal_history_limit (length (oldest ∷ order))) _ _
      (λ _. trim-IsBounded (erase oldest terminal) order (erase-Covers oldest order terminal h))
      (λ short.
        let within : length (oldest ∷ order) ≤ terminal_history_limit = ground (arith, short) in
        (h, omega (arith, within, Covers-length (oldest ∷ order) terminal h), within))

mentions-snoc :
    (id k : ℕ) (order : List ℕ)
    → mentions id (order ++ k ∷ []) ≡ mentions id order + (if k == id then 1 else 0)
mentions-snoc id k [] = omega arith
mentions-snoc id k (j ∷ order) = omega (arith, mentions-snoc id k order)

assign-Covers :
    (k : ℕ) (state : DownloadState) (order : List ℕ) (terminal : List (ℕ × DownloadState))
    → Covers order terminal
    → Covers (order ++ k ∷ []) (assign k state terminal)
unfolding assign
assign-Covers k state order terminal h id = elim (Bool-cases (k == id)) [
  | inl e ↦ ground (arith, e, h k, mentions-snoc k k order, kept-erase k terminal)
  | inr e ↦ ground (arith, e, h id, mentions-snoc id k order, kept-erase_other id k terminal)
]

-- If no id stands more often in the map of ended downloads than in their order: to remember one more
-- download keeps that, and leaves at most 128 downloads in the map and 128 ids in the order.
pub history_bound :
    (id : ℕ) (state : DownloadState) (s : Service)
    → IsCovered s
    → let t = remember_terminal_download id state s in
      IsBounded (t.terminal_downloads, t.terminal_download_order)
unfolding remember_terminal_download
history_bound id state s h =
    trim-IsBounded (assign id state s.terminal_downloads) _
      (assign-Covers id state s.terminal_download_order s.terminal_downloads h)
