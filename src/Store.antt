-- ===== src/Store.antt =====
-- The state that the services share, and what a request does to it: the collections of the database
-- as lists of documents, with a request that reads and writes them and may raise.
mod Docs
mod Effects
mod Repos
unfoldable pub use Docs.*
pub use Effects.*
pub use Repos.*
