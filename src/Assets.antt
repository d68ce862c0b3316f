-- ===== src/Assets.antt =====
-- packages/nouns-assets/src: the seeds of the Nouns.
pub mod Seeds
