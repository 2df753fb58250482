-- ===== src/Database.antt =====
-- database/: the tables. A table is the list of its rows, and a statement is the function of the
-- tables that its SQL text denotes. A SELECT with no ORDER BY returns the rows in table order.
pub mod Rows
pub mod Media
pub mod Quarantine
pub mod Thumbnails
pub mod Ids
pub mod Access
pub mod Counted
pub mod Updates
