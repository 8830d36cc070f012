-- ===== src/Control.antt =====
-- The identities and messages that the parts of the worker share: the messages of
-- proto/dispatch/worker/v1 that the models read, the errors of rust/worker/src/control.rs, and
-- the identity tests of rust/worker/src/control/work.rs.
mod Messages
mod Identity
mod Transfers
mod Completions
unfoldable pub use Messages.*
unfoldable pub use Identity.*
unfoldable pub use Transfers.*
unfoldable pub use Completions.*
