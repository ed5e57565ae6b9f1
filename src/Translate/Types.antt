-- ===== src/Translate/Types.antt =====
-- app/src/translate/inference_types.h: the states of a job and the channels of its text.
pub data TranslationState : Type 0 where
  pending running completed failed cancelled preempted : TranslationState

pub data Channel : Type 0 where
  target back_translate : Channel
