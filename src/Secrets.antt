-- ===== src/Secrets.antt =====
-- src/adapters/secrets and src/crypto: the encrypted secrets and the master key.
pub mod Store
pub mod MasterKey
pub mod RoundTrip
pub mod KeyLaws
mod Tests
