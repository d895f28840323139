-- ===== src/Names.antt =====
-- Name actions and the confirm step (src/core/namegate.ts, src/core/namecache.ts).
pub mod Gate
pub mod HintSet
