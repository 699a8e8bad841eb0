-- ===== src/Voice.antt =====
-- sara_unified/voice: a text is cut into segments, each is pronounced by a dictionary and
-- synthesised, and a job keeps a receipt for every segment that was spoken.
pub mod Segments
pub mod Controls
pub mod Pronunciation
pub mod Receipts
pub mod Jobs
