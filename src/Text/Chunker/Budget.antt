-- ===== src/Text/Chunker/Budget.antt =====
-- What `chunk_by_token_budget` of app/src/runtime/internal/text/chunker.cpp returns.
use qtrans.Base.{Bytes, ℕ, ◌≤◌, ◌≡◌, ◌⊎◌, List, [], concat, All, Result, ok, err}
use qtrans.Text.Utf8.{Validator, ReportsPosition}
use qtrans.Text.Chunker.{ChunkError, unable_to_split}
use qtrans.Text.Chunker.Pieces.{Fits, IsStuck}

-- The text is cut: nothing is lost, and every chunk fits; or what comes before some character is cut
-- into chunks that fit, and that character alone is beyond the budget. The other two exceptions do
-- not occur.
abbrev pub IsChunking :
    Validator → (Bytes → ℕ) → ℕ → Bytes → Result ChunkError (List Bytes) → Type 0
IsChunking validate token_counter max_tokens text (ok chunks) =
    (concat chunks ≡ text) × All (Fits token_counter max_tokens) chunks
IsChunking validate token_counter max_tokens text (err e) =
    (e ≡ unable_to_split) × IsStuck validate token_counter max_tokens text

module _ (validate : Validator) (reports : ReportsPosition validate) (token_counter : Bytes → ℕ)
    (max_tokens : ℕ) where
  -- The chunk that is being collected is empty, or it fits.
  abbrev FitsSoFar : Bytes → Type 0
  FitsSoFar current = (current ≡ []) ⊎ (token_counter current ≤ max_tokens)

  abbrev Done : Bytes → Result ChunkError (List Bytes) → Type 0
  Done text r = IsChunking validate token_counter max_tokens text r
