-- ===== src/World.antt =====
-- The state that a request works on: the tables, the datastore objects that have been stored and
-- removed, and the outcomes of what lies outside the program. A handler is a function from a world to its
-- result and the world that it leaves; what it wrote before an error stays written.
mod Monad
pub mod Rules
pub mod Keeps
unfoldable pub use Monad.*
