-- ===== src/Protocol/BgpParser.antt =====
-- src/pybmpmon/protocol/bgp_parser.py
pub mod Structure
pub mod Prefixes
pub mod AsPath
pub mod Communities
pub mod Evpn
pub mod Multiprotocol
pub mod Update
pub mod Wire
pub mod AttributesRoundTrip
pub mod AsPathRoundTrip
pub mod AsPathGuess
pub mod PrefixesRoundTrip
pub mod CommunitiesRoundTrip
pub mod StructureRoundTrip
pub mod AttributesEnd
pub mod UpdateLaws
pub mod Exceptions
pub mod AttributeExceptions
pub mod UpdateTotal
pub mod UpdateRoundTrip
mod Examples
