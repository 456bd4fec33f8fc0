-- ===== src/Protocol/BgpParser/Wire.antt =====
-- RFC 4271 and RFC 4760, as an independent description: the bytes of what bgp_parser.py reads.
use pybmpmon.Base.{
  ℕ, ◌+◌, ◌-◌, ◌*◌, ◌/◌, ◌<◌, ◌≤◌, ◌^◌, ◌≡◌, List, [], ◌∷◌, ◌++◌, length, take, replicate, All,
  Bool, true, false, ◌||◌, ◌==◌, if◌then◌else◌,
}
use pybmpmon.Utils.Binary.{IpAddress}
use pybmpmon.Utils.Binary.Wire.{u8, u16}
use pybmpmon.Protocol.Bgp.{
  BgpPathAttribute, BgpUpdateMessage, Cidr, Community, has_extended_length, bgp_marker,
}

-- The length field of an attribute has two bytes if the extended-length flag is set, else one.
abbrev pub length_field : Bool → ℕ → List ℕ
length_field true n = u16 n
length_field false n = u8 n

abbrev pub length_limit : Bool → ℕ
length_limit true = 2 ^ 16
length_limit false = 256

abbrev pub encode_attribute : BgpPathAttribute → List ℕ
encode_attribute a =
    u8 a.flags
    ++ (u8 a.type_code ++ (length_field (has_extended_length a.flags) a.length ++ a.value))

abbrev pub encode_attributes : List BgpPathAttribute → List ℕ
encode_attributes [] = []
encode_attributes (a ∷ as_) = encode_attribute a ++ encode_attributes as_

abbrev pub IsAttribute : BgpPathAttribute → Type 0
IsAttribute a =
    (a.flags < 256)
    × (a.type_code < 256)
    × (a.length < length_limit (has_extended_length a.flags))
    × (length a.value ≡ a.length)

-- A BGP UPDATE with its 19-byte header.
abbrev pub update_length : BgpUpdateMessage → ℕ
update_length m = 23 + m.withdrawn_routes_length + m.total_path_attr_length + length m.nlri

abbrev pub encode_update : BgpUpdateMessage → List ℕ
encode_update m =
    bgp_marker
    ++ (u16 (update_length m)
        ++ (u8 2
            ++ (u16 m.withdrawn_routes_length
                ++ (m.withdrawn_routes
                    ++ (u16 m.total_path_attr_length
                        ++ (encode_attributes m.path_attributes ++ m.nlri))))))

pub record IsUpdate (m : BgpUpdateMessage) : Type 0 where
  pub withdrawn : length m.withdrawn_routes ≡ m.withdrawn_routes_length
  pub attributes : length (encode_attributes m.path_attributes) ≡ m.total_path_attr_length
  pub each_attribute : All IsAttribute m.path_attributes

-- A prefix: its length in bits, and as many bytes of the address as hold a bit of it.
abbrev pub prefix_bytes : ℕ → ℕ
prefix_bytes prefix_len = (prefix_len + 7) / 8

abbrev pub encode_prefix : ℕ → List ℕ → List ℕ
encode_prefix prefix_len address = u8 prefix_len ++ take (prefix_bytes prefix_len) address

-- COMMUNITIES: two 16-bit halves each.
abbrev pub encode_community : Community → List ℕ
encode_community c = u16 c.as_num ++ u16 c.comm_value

abbrev pub encode_communities : List Community → List ℕ
encode_communities [] = []
encode_communities (c ∷ cs) = encode_community c ++ encode_communities cs

-- An AS_PATH segment, with AS numbers of four bytes, or of two as old speakers write them.
pub record Segment : Type 0 where
  pub kind : ℕ
  pub numbers : List ℕ

abbrev pub encode_numbers : (ℕ → List ℕ) → List ℕ → List ℕ
encode_numbers format [] = []
encode_numbers format (n ∷ ns) = format n ++ encode_numbers format ns

abbrev pub encode_segment : (ℕ → List ℕ) → Segment → List ℕ
encode_segment format s = u8 s.kind ++ (u8 (length s.numbers) ++ encode_numbers format s.numbers)

abbrev pub encode_segments : (ℕ → List ℕ) → List Segment → List ℕ
encode_segments format [] = []
encode_segments format (s ∷ ss) = encode_segment format s ++ encode_segments format ss

-- Sequences and sets count, in the order in which they stand; other segments do not.
abbrev pub is_path_segment : ℕ → Bool
is_path_segment kind = (kind == 2) || (kind == 1)

abbrev pub path_of : List Segment → List ℕ
path_of [] = []
path_of (s ∷ ss) = (if is_path_segment s.kind then s.numbers else []) ++ path_of ss

-- A prefix as its length and the bytes of its address, of `width` bytes, zero behind the last byte
-- that holds a bit of the prefix.
abbrev pub IsPrefix : ℕ → ℕ × List ℕ → Type 0
IsPrefix width (n, address) =
    (n ≤ width * 8)
    × (length (take (prefix_bytes n) address) ≡ prefix_bytes n)
    × (take (prefix_bytes n) address ++ replicate (width - prefix_bytes n) 0 ≡ address)

abbrev pub encode_prefixes : List (ℕ × List ℕ) → List ℕ
encode_prefixes [] = []
encode_prefixes ((n, address) ∷ ps) = encode_prefix n address ++ encode_prefixes ps

abbrev pub to_cidr : (List ℕ → IpAddress) → ℕ × List ℕ → Cidr
to_cidr make (n, address) = record { address = make address; prefix_len = n }
