-- ===== src/Identity.antt =====
-- v2/src/footballai_v2/execution/ai2c: the identities of players, from tracklets. The id of a
-- tracklet is its place in the text order of the ids, so equality and order are those of the texts.
pub mod Corrections
pub mod IdMap
pub mod Constraints
pub mod Config
pub mod Groups
