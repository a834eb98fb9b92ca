-- ===== src/Secrets.antt =====
-- Secrets: what is done to a payload on its way to a secret store and back, from the translations
-- of barbican/plugin/util to barbican/plugin/resources.py and barbican/plugin/store_crypto.py.
pub mod MimeTypes
pub mod Normal
pub mod Data
pub mod Translations
pub mod Forms
pub mod World
pub mod Crypto
pub mod Resources
pub mod Requests
pub mod Generate
pub mod Steps
pub mod Keks
pub mod Binding
pub mod Encrypted
pub mod Rows
pub mod Kept
pub mod RoundTrip
pub mod Guards
pub mod Removal
mod Samples
mod Tests
