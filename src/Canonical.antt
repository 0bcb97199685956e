-- ===== src/Canonical.antt =====
-- dymaxion-runtime/src/contracts/canonical.ts: the stable text of a JSON value, which every
-- payload hash is taken of.
mod Value
mod Quote
mod Sort
mod Print
pub use Value.*
unfoldable pub use Quote.{quote}
pub use Sort.*
unfoldable pub use Print.{canonical_json, canonical_items, canonical_fields, sha256_canonical}
