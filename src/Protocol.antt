-- ===== src/Protocol.antt =====
-- src/pybmpmon/protocol: BMP messages and the BGP messages inside them.
pub mod Bmp
pub mod BmpParser
pub mod Bgp
pub mod BgpParser
