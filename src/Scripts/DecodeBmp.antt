-- ===== src/Scripts/DecodeBmp.antt =====
-- src/decode_bmp.py: it reads a message as hexadecimal text and prints its parts. A printed line is the
-- values in it; empty lines are left out, and so is the traceback of an exception.
pub mod HexText
pub mod Laws
mod Examples
use pybmpmon.Base.{
  ℕ, ◌+◌, ◌*◌, Bool, true, false, ◌&&◌, ◌||◌, List, [], ◌∷◌, ◌++◌, map, length, Option, none, some,
  leb, ltb, ◌==◌, if◌then◌else◌, Error, Result, ok, err, value_error, ◌>>=◌,
}
use mathlib.Core.List.{reverse}
use pybmpmon.Utils.Binary.{IpAddress}
use pybmpmon.Utils.Text.{skip_spaces}
use pybmpmon.Protocol.Bmp.{
  BmpMessageType, BmpPeerType, BmpHeader, BmpPerPeerHeader, BmpMessage, initiation_message,
  termination_message, route_monitoring_message, statistics_report_message, peer_down_message,
  peer_up_message,
}
use pybmpmon.Protocol.Bgp.{
  ParsedBgpUpdate, Prefix, cidr, Cidr, route_info, mac_ip_route, other_route, RouteDistinguisher,
  Community, ExtendedCommunity,
}
use pybmpmon.Protocol.BmpParser.Messages.{parse_bmp_message}
use pybmpmon.Protocol.BgpParser.Update.{parse_bgp_update}
use pybmpmon.Database.Connection.MacAddress.{hex_value}

-- `hex_string.replace(" ", "").strip()` of an ASCII text
unfoldable pub remove_blanks : List ℕ → List ℕ
remove_blanks [] = []
remove_blanks (c ∷ cs) = let rest = remove_blanks cs in if c == 32 then rest else c ∷ rest

unfoldable pub strip : List ℕ → List ℕ
unfolding skip_spaces
strip text = reverse (skip_spaces (reverse (skip_spaces text)))

-- `bytes.fromhex` skips blanks between two bytes.
abbrev pub is_blank : ℕ → Bool
is_blank c = (c == 32) || (leb 9 c && leb c 13)

abbrev pub hex_pair : Option ℕ → Option ℕ → Result (List ℕ) → Result (List ℕ)
hex_pair none low rest = err value_error
hex_pair (some h) none rest = err value_error
hex_pair (some h) (some l) (err e) = err e
hex_pair (some h) (some l) (ok bs) = ok ((h * 16 + l) ∷ bs)

unfoldable pub from_hex : List ℕ → Result (List ℕ)
from_hex [] = ok []
from_hex (c ∷ []) = if is_blank c then ok [] else err value_error
from_hex (c ∷ d ∷ cs) = elim (is_blank c) [
  | true ↦ from_hex (d ∷ cs)
  | false ↦ hex_pair (hex_value c) (hex_value d) (from_hex cs)
]

pub data OriginName : Type 0 where
  igp egp incomplete : OriginName
  unknown_origin : ℕ → OriginName

pub data Line : Type 0 where
  total_length : ℕ → Line
  bmp_heading peer_heading update_heading routes_heading withdrawn_heading : Line
  announced_heading : Line
  version message_length peer_flags peer_asn : ℕ → Line
  message_type : BmpMessageType → Line
  peer_type : BmpPeerType → Line
  peer_address peer_bgp_id : IpAddress → Line
  timestamp : ℕ → ℕ → Line
  afi_safi : ℕ → ℕ → Line
  is_withdrawal : Bool → Line
  next_hop : IpAddress → Line
  as_path : List ℕ → Line
  origin : OriginName → Line
  local_preference med : ℕ → Line
  communities : List Community → Line
  extended_communities : List ExtendedCommunity → Line
  withdrawn_prefix announced_prefix : Prefix → Line
  evpn_heading evpn_route_type : ℕ → Line
  rd evpn_rd : RouteDistinguisher → Line
  esi evpn_esi mac_address : List ℕ → Line
  mac : Option (List ℕ) → Line
  ip : Option IpAddress → Line
  error_parsing : Error → Line

abbrev pub header_lines : BmpHeader → List Line
header_lines h =
    bmp_heading ∷ version h.version ∷ message_length h.length ∷ message_type h.msg_type ∷ []

abbrev pub peer_lines : BmpPerPeerHeader → List Line
peer_lines p =
    peer_heading
    ∷ peer_type p.peer_type
    ∷ peer_flags p.peer_flags
    ∷ peer_address p.peer_address
    ∷ peer_asn p.peer_asn
    ∷ peer_bgp_id p.peer_bgp_id
    ∷ timestamp p.timestamp_sec p.timestamp_usec
    ∷ []

-- `if value is not None`
abbrev pub if_some : {A : Type 0} → (A → Line) → Option A → List Line
if_some line none = []
if_some line (some a) = line a ∷ []

-- `if value`, for a list or a text.
abbrev pub if_any : {A : Type 0} → (List A → Line) → Option (List A) → List Line
if_any line none = []
if_any line (some []) = []
if_any line (some (a ∷ as_)) = line (a ∷ as_) ∷ []

-- `if bgp_update.afi and bgp_update.safi`
abbrev pub afi_lines : Option ℕ → Option ℕ → List Line
afi_lines none safi = []
afi_lines (some afi) none = []
afi_lines (some afi) (some safi) = if (afi == 0) || (safi == 0) then [] else afi_safi afi safi ∷ []

abbrev pub origin_name : ℕ → OriginName
origin_name n =
    if n == 0 then igp else if n == 1 then egp else if n == 2 then incomplete else unknown_origin n

abbrev pub announced_lines : Prefix → List Line
announced_lines (cidr c) = announced_prefix (cidr c) ∷ []
announced_lines (route_info (mac_ip_route n d e m a)) =
    evpn_heading n ∷ rd d ∷ esi e ∷ mac m ∷ ip a ∷ []
announced_lines (route_info (other_route n)) = evpn_heading n ∷ []

abbrev pub concat_lines : List Prefix → List Line
concat_lines [] = []
concat_lines (p ∷ ps) = announced_lines p ++ concat_lines ps

abbrev pub with_heading : Line → List Line → List Line
with_heading heading [] = []
with_heading heading (l ∷ ls) = heading ∷ l ∷ ls

abbrev pub evpn_lines : ParsedBgpUpdate → Option ℕ → List Line
evpn_lines u none = []
evpn_lines u (some n) =
    evpn_route_type n
    ∷ (if_some evpn_rd u.evpn_rd
        ++ (if_any evpn_esi u.evpn_esi ++ if_any mac_address u.mac_address))

unfoldable pub update_lines : ParsedBgpUpdate → List Line
update_lines u =
    afi_lines u.afi u.safi
    ++ ((is_withdrawal u.is_withdrawal ∷ [])
        ++ (if_some next_hop u.next_hop
            ++ (if_any as_path u.as_path
                ++ (if_some (λ n. origin (origin_name n)) u.origin
                    ++ (if_some local_preference u.local_pref
                        ++ (if_some med u.med
                            ++ (if_any communities u.communities
                                ++ (if_any extended_communities u.extended_communities
                                    ++ ((routes_heading ∷ [])
                                        ++ (with_heading withdrawn_heading
                                              (map withdrawn_prefix u.withdrawn_prefixes)
                                            ++ (with_heading announced_heading
                                                  (concat_lines u.prefixes)
                                                ++ evpn_lines u u.evpn_route_type)))))))))))

-- "If it's Route Monitoring, parse the BGP UPDATE"
abbrev pub of_update : Result ParsedBgpUpdate → List Line
unfolding update_lines
of_update (err e) = error_parsing e ∷ []
of_update (ok u) = update_lines u

-- What is printed of a message, by the fields that it has.
unfoldable pub message_lines : BmpMessage → List Line
unfolding update_lines
message_lines (initiation_message m) = header_lines m.header
message_lines (termination_message m) = header_lines m.header
message_lines (route_monitoring_message m) =
    header_lines m.header
    ++ (peer_lines m.per_peer_header
        ++ (update_heading ∷ of_update (parse_bgp_update m.bgp_update)))
message_lines (statistics_report_message m) = header_lines m.header ++ peer_lines m.per_peer_header
message_lines (peer_down_message m) = header_lines m.header ++ peer_lines m.per_peer_header
message_lines (peer_up_message m) = header_lines m.header ++ peer_lines m.per_peer_header

abbrev pub of_message : Result BmpMessage → List Line
unfolding message_lines
of_message (err e) = error_parsing e ∷ []
of_message (ok m) = message_lines m

-- The printed lines; it raises only what `bytes.fromhex` does.
unfoldable pub decode_bmp_message : List ℕ → Result (List Line)
unfolding from_hex strip remove_blanks message_lines
decode_bmp_message hex_string = do
  bytes ← from_hex (strip (remove_blanks hex_string))
  ok (total_length (length bytes) ∷ of_message (parse_bmp_message bytes))
