-- ===== src/Util.antt =====
-- cort_util.h: the containers of plain elements.
pub mod PodQueue
pub mod PodPool
mod Tests
