-- ===== src/Messages.antt =====
-- i18n: the message catalogues. Defs holds the bundle of a catalogue, Locale which catalogue is read and how
-- a message is made of it, and Printed what a bundle of a file of entries holds.
mod Defs
pub mod Locale
pub mod Printed
mod Examples
unfoldable pub use Defs.*
