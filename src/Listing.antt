-- ===== src/Listing.antt =====
-- porthmos-core/src/listing: what a panel shows of a directory.
pub mod Sort
pub mod SortLaws
pub mod Panel
pub mod PanelLaws
mod Examples
