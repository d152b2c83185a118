-- ===== src/Category.antt =====
-- category/store.py.
pub mod Store
pub mod Laws
pub mod History
