-- ===== src/Batch/Types.antt =====
-- app/src/batch/batch_types.h and batch_enums.h. A path is the list of its UTF-8 bytes, a line number
-- and a time (seconds since the epoch) a natural number.
use qtrans.Base.{Bytes, ℕ, List}

pub data BatchFileType : Type 0 where
  unknown plain_text txt md srt : BatchFileType

pub data BatchEntryState : Type 0 where
  queued processing completed failed cancelled : BatchEntryState

pub data BatchSegmentState : Type 0 where
  pending completed failed : BatchSegmentState

pub record BatchSegment : Type 0 where
  pub index : ℕ
  pub start_line : ℕ
  pub end_line : ℕ
  pub source_text : Bytes
  pub translated_text : Bytes
  pub literal_prefix : Bytes
  pub state : BatchSegmentState

pub record BatchFile : Type 0 where
  pub path : Bytes
  pub file_type : BatchFileType
  pub segments : List BatchSegment
  pub trailing_text : Bytes

pub record BatchEntry : Type 0 where
  pub id : Bytes
  pub file : BatchFile
  pub source_language : Bytes
  pub target_language : Bytes
  pub state : BatchEntryState
  pub created_at : ℕ
  pub updated_at : ℕ
  pub output_path : Bytes
