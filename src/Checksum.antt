-- ===== src/Checksum.antt =====
-- src/core/checksum.cpp: the CRC-32, SHA-256 and MD5 engines. A `uint32_t` is a number below 2 ^ 32.
pub mod Crc32
pub mod Blocks
pub mod Sha256
pub mod Md5
pub mod Engines
