-- ===== src/Paging/Mapper/Map.antt =====
-- `map_to`: the page is translated to the frame, and no other page otherwise than before.
pub mod Reach
pub mod Fill
pub mod Laws
