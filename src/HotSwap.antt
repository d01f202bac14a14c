-- ===== src/HotSwap.antt =====
-- Hot swapping of playlist assets: backend/app/streaming/hot_swap.py.
pub mod Asset
pub mod Queue
pub mod State
mod Tests
