-- ===== src/Restore.antt =====
-- The restore area of src/fs.c: the list of its items, names that are not taken, and the restoring
-- of an item.
pub mod Search
pub mod Pages
pub mod Order
pub mod Names
pub mod Item
pub mod Careful
