-- ===== src/Protocol/BgpParser/AttributesEnd.antt =====
-- No attribute makes `parse_bgp_update` go on for ever: what it skips failed with an exception.
use pybmpmon.Base.{
  ◌≡◌, ◌≢◌, refl, List, [], ◌∷◌, Result, ok, err, arith, value_error, bmp_parse_error,
  bgp_parse_error, out_of_fuel,
}
use pybmpmon.Utils.Binary.{read_uint8, read_uint32}
use pybmpmon.Protocol.Bgp.{BgpPathAttribute}
use pybmpmon.Protocol.BgpParser.Update.{Fields, take_attribute, take_attributes, or_skip}
use pybmpmon.Protocol.BgpParser.AttributeExceptions.{
  parse_as_path-raises, parse_communities_returns, parse_extended_communities_returns,
  parse_mp_reach_nlri-raises, parse_mp_unreach_nlri-raises,
}

-- An attribute that `parse_bgp_update` skips failed with an exception of the code: on no
-- attribute does a loop of its parser run out of fuel.
pub take_attribute_ends : (a : BgpPathAttribute) (s : Fields) → take_attribute a s ≢ err out_of_fuel
unfolding take_attribute read_uint8 read_uint32
take_attribute_ends a s e = ground (
  arith,
  parse_as_path-raises a.value out_of_fuel,
  parse_communities_returns a.value,
  parse_extended_communities_returns a.value,
  parse_mp_reach_nlri-raises a.value out_of_fuel,
  parse_mp_unreach_nlri-raises a.value out_of_fuel,
)

-- What is collected, where an attribute that fails leaves the fields as they were.
abbrev pub or_keep : Result Fields → Fields → Fields
or_keep (ok s') s = s'
or_keep (err x) s = s

abbrev pub keep_attributes : List BgpPathAttribute → Fields → Fields
keep_attributes [] s = s
keep_attributes (a ∷ as_) s = keep_attributes as_ (or_keep (take_attribute a s) s)

or_skip-or_keep :
    (r : Result Fields) (s : Fields) → r ≢ err out_of_fuel → or_skip r s ≡ ok (or_keep r s)
or_skip-or_keep (ok t) s h = refl
or_skip-or_keep (err out_of_fuel) s h = absurd (h refl)
or_skip-or_keep (err value_error) s h = refl
or_skip-or_keep (err bmp_parse_error) s h = refl
or_skip-or_keep (err bgp_parse_error) s h = refl

-- Collecting from the attributes ends, whatever they are.
pub take_attributes_end :
    (as_ : List BgpPathAttribute) (s : Fields) → take_attributes as_ s ≡ ok (keep_attributes as_ s)
unfolding take_attributes
take_attributes_end [] s = refl
take_attributes_end (a ∷ as_) s =
    rw (or_skip-or_keep (take_attribute a s) s (take_attribute_ends a s))
      (take_attributes_end as_ (or_keep (take_attribute a s) s))
