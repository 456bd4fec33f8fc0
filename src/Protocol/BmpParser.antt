-- ===== src/Protocol/BmpParser.antt =====
-- src/pybmpmon/protocol/bmp_parser.py
pub mod Header
pub mod Tlvs
pub mod Messages
pub mod Wire
pub mod HeaderRoundTrip
pub mod PeerHeaderRoundTrip
pub mod TlvsRoundTrip
pub mod MessageRoundTrip
pub mod PeerUpRoundTrip
pub mod ReportRoundTrip
pub mod Exceptions
pub mod Kind
mod Examples
