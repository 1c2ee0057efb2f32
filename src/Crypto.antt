-- ===== src/Crypto.antt =====
-- common/src/crypto: signed payloads and the stores of public keys.
pub mod LittleEndian
pub mod Library
pub mod Samples
pub mod SignedPayload
pub mod KeyStore
