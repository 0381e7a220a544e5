-- ===== src/Collect.antt =====
-- internal/collect: what the kernel's rules become in the document.
pub mod Nft
pub mod Xt
pub mod Convert
pub mod Redecode
pub mod Sockets
