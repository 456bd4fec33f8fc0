-- ===== src/Protocol/Bmp.antt =====
-- src/pybmpmon/protocol/bmp.py: the enumerations, the message structures and the constants of BMP.
use pybmpmon.Base.{ℕ, List, Option, none, some, Bool, not, ◌==◌, if◌then◌else◌, bit_and}
use pybmpmon.Utils.Binary.{IpAddress}

pub data BmpMessageType : Type 0 where
  route_monitoring statistics_report peer_down_notification peer_up_notification : BmpMessageType
  initiation termination : BmpMessageType

-- The value of an `IntEnum` member, and the call of the class on a value; `none` is ValueError.
unfoldable pub message_type_code : BmpMessageType → ℕ
message_type_code route_monitoring = 0
message_type_code statistics_report = 1
message_type_code peer_down_notification = 2
message_type_code peer_up_notification = 3
message_type_code initiation = 4
message_type_code termination = 5

unfoldable pub message_type_of : ℕ → Option BmpMessageType
message_type_of n =
    if n == 0
    then some route_monitoring
    else if n == 1
    then some statistics_report
    else if n == 2
    then some peer_down_notification
    else if n == 3
    then some peer_up_notification
    else if n == 4
    then some initiation
    else if n == 5
    then some termination
    else none

pub data BmpPeerType : Type 0 where
  global_instance rd_instance local_instance loc_rib_instance : BmpPeerType

unfoldable pub peer_type_code : BmpPeerType → ℕ
peer_type_code global_instance = 0
peer_type_code rd_instance = 1
peer_type_code local_instance = 2
peer_type_code loc_rib_instance = 3

unfoldable pub peer_type_of : ℕ → Option BmpPeerType
peer_type_of n =
    if n == 0
    then some global_instance
    else if n == 1
    then some rd_instance
    else if n == 2
    then some local_instance
    else if n == 3
    then some loc_rib_instance
    else none

-- `bool(peer_flags & BMPPeerFlags.IPV6)`
unfoldable pub has_ipv6_flag : ℕ → Bool
has_ipv6_flag peer_flags = not (bit_and peer_flags 0x80 == 0)

pub data BmpPeerDownReason : Type 0 where
  local_notification local_no_notification remote_notification : BmpPeerDownReason
  remote_no_notification peer_de_configured : BmpPeerDownReason

unfoldable pub peer_down_reason_code : BmpPeerDownReason → ℕ
peer_down_reason_code local_notification = 1
peer_down_reason_code local_no_notification = 2
peer_down_reason_code remote_notification = 3
peer_down_reason_code remote_no_notification = 4
peer_down_reason_code peer_de_configured = 5

unfoldable pub peer_down_reason_of : ℕ → Option BmpPeerDownReason
peer_down_reason_of n =
    if n == 1
    then some local_notification
    else if n == 2
    then some local_no_notification
    else if n == 3
    then some remote_notification
    else if n == 4
    then some remote_no_notification
    else if n == 5
    then some peer_de_configured
    else none

pub record BmpHeader : Type 0 where
  pub version : ℕ
  pub length : ℕ
  pub msg_type : BmpMessageType

pub record BmpPerPeerHeader : Type 0 where
  pub peer_type : BmpPeerType
  pub peer_flags : ℕ
  pub peer_distinguisher : List ℕ
  pub peer_address : IpAddress
  pub peer_asn : ℕ
  pub peer_bgp_id : IpAddress
  pub timestamp_sec : ℕ
  pub timestamp_usec : ℕ

pub record BmpInfoTlv : Type 0 where
  pub info_type : ℕ
  pub info_length : ℕ
  pub info_value : List ℕ

pub record BmpStatTlv : Type 0 where
  pub stat_type : ℕ
  pub stat_length : ℕ
  pub stat_value : ℕ

pub record BmpInitiationMessage : Type 0 where
  pub header : BmpHeader
  pub information_tlvs : List BmpInfoTlv

pub record BmpTerminationMessage : Type 0 where
  pub header : BmpHeader
  pub information_tlvs : List BmpInfoTlv

pub record BmpRouteMonitoringMessage : Type 0 where
  pub header : BmpHeader
  pub per_peer_header : BmpPerPeerHeader
  pub bgp_update : List ℕ

pub record BmpStatisticsReportMessage : Type 0 where
  pub header : BmpHeader
  pub per_peer_header : BmpPerPeerHeader
  pub stats_count : ℕ
  pub stats_tlvs : List BmpStatTlv

-- The field `data` of the source is `additional_data`.
pub record BmpPeerDownMessage : Type 0 where
  pub header : BmpHeader
  pub per_peer_header : BmpPerPeerHeader
  pub reason : BmpPeerDownReason
  pub additional_data : List ℕ

pub record BmpPeerUpMessage : Type 0 where
  pub header : BmpHeader
  pub per_peer_header : BmpPerPeerHeader
  pub local_address : IpAddress
  pub local_port : ℕ
  pub remote_port : ℕ
  pub sent_open_message : List ℕ
  pub received_open_message : List ℕ
  pub information_tlvs : List BmpInfoTlv

-- The union that `parse_bmp_message` returns.
pub data BmpMessage : Type 0 where
  initiation_message : BmpInitiationMessage → BmpMessage
  termination_message : BmpTerminationMessage → BmpMessage
  route_monitoring_message : BmpRouteMonitoringMessage → BmpMessage
  statistics_report_message : BmpStatisticsReportMessage → BmpMessage
  peer_down_message : BmpPeerDownMessage → BmpMessage
  peer_up_message : BmpPeerUpMessage → BmpMessage

abbrev pub bmp_header_size : ℕ
bmp_header_size = 6

abbrev pub bmp_per_peer_header_size : ℕ
bmp_per_peer_header_size = 42

abbrev pub bmp_current_version : ℕ
bmp_current_version = 3
