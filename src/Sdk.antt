-- ===== src/Sdk.antt =====
-- packages/nouns-sdk/src: the image encoding of the Nouns art.
pub mod Hex
pub mod Image
pub mod Svg
pub mod Encoder
mod Tests
