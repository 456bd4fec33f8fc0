-- ===== src/Protocol/BgpParser/CommunitiesRoundTrip.antt =====
-- COMMUNITIES: what is written is read back.
use pybmpmon.Base.{
  ℕ, zero, suc, ◌+◌, ◌-◌, ◌%◌, ◌<◌, ◌≡◌, refl, List, [], ◌∷◌, length, lt→ltb, ok, arith,
}
use pybmpmon.Base.Slices.{At, At-cut, At-whole}
use pybmpmon.Utils.Binary.Reads.{read_uint16-At}
use pybmpmon.Utils.Binary.Wire.{u16}
use pybmpmon.Protocol.Bgp.{Community}
use pybmpmon.Protocol.BgpParser.Communities.{communities_loop, parse_communities}
use pybmpmon.Protocol.BgpParser.Wire.{encode_communities}

length-encode_communities_mod : (cs : List Community) → length (encode_communities cs) % 4 ≡ 0
length-encode_communities_mod [] = refl
length-encode_communities_mod (c ∷ cs) = omega (arith, length-encode_communities_mod cs)

communities_loop-encode :
    (xs : List ℕ) (fuel off : ℕ) (cs : List Community)
    → length xs - off < fuel
    → off + length (encode_communities cs) ≡ length xs
    → At xs off (encode_communities cs)
    → communities_loop fuel xs off ≡ ok cs
unfolding communities_loop
communities_loop-encode xs zero off cs h e at = absurd (omega arith)
communities_loop-encode xs (suc fuel) off [] h e at = ground arith
communities_loop-encode xs (suc fuel) off (c ∷ cs) h e at =
    let (as_at, r1) = At-cut xs off (off + 2) (u16 c.as_num) _ refl at in
    let (value_at, rest_at) = At-cut xs (off + 2) (off + 4) (u16 c.comm_value) _ (omega arith) r1 in
    rw (
      lt→ltb off (length xs) (omega arith),
      read_uint16-At xs off _ as_at,
      read_uint16-At xs (off + 2) _ value_at,
      communities_loop-encode xs fuel (off + 4) cs (omega arith) (omega arith) rest_at,
    )

-- Any list of communities is read back from its two 16-bit numbers each, in order.
pub parse_communities-encode :
    (cs : List Community) → parse_communities (encode_communities cs) ≡ ok cs
unfolding parse_communities
parse_communities-encode cs =
    let xs : List ℕ = encode_communities cs in
    rw length-encode_communities_mod
      (communities_loop-encode xs (suc (length xs)) 0 cs (omega arith) (omega arith) (At-whole xs))
