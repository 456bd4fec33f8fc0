-- ===== src/Protocol/BgpParser/PrefixesRoundTrip.antt =====
-- Prefixes: lists of well-formed prefixes are read back, and what is read is well formed.
use pybmpmon.Base.{
  ℕ, zero, suc, ◌+◌, ◌-◌, ◌*◌, ◌<◌, ◌≤◌, ◌≡◌, refl, ap, ◌∙◌, List, [], ◌∷◌, ◌++◌, map, length,
  length-append, length-replicate, take, replicate, leb, lt→ltb, le→ltb, false, ok, arith, All,
}
use pybmpmon.Base.Slices.{At, At-cut, At-whole, slice}
use pybmpmon.Utils.Binary.{IpAddress, ipv4, ipv6, read_bytes}
use pybmpmon.Utils.Binary.Reads.{read_uint8-At, read_bytes-At, read_bytes-eq-ok}
use pybmpmon.Utils.Binary.Wire.{u8}
use pybmpmon.Protocol.Bgp.{Cidr}
use pybmpmon.Protocol.BgpParser.Prefixes.{
  parse_prefix, parse_ipv4_prefix, parse_ipv6_prefix, prefixes_loop, parse_prefixes,
}
use pybmpmon.Protocol.BgpParser.Wire.{
  prefix_bytes, encode_prefix, IsPrefix, encode_prefixes, to_cidr,
}

lt→leb : (a b : ℕ) → a < b → leb b a ≡ false
lt→leb a b h = ground arith

module _ (width : ℕ) (make : List ℕ → IpAddress) (xs : List ℕ) where
  parse_prefix-encode :
      (off : ℕ) (p : ℕ × List ℕ)
      → IsPrefix width p
      → At xs off (encode_prefix p.0 p.1)
      → parse_prefix (width * 8) width make xs off ≡ ok (to_cidr make p, 1 + prefix_bytes p.0)
  unfolding parse_prefix
  parse_prefix-encode off (n, address) (small, size, padded) at =
      let shown : List ℕ = take (prefix_bytes n) address in
      let (n_at, shown_at) = At-cut xs off (off + 1) (u8 n) shown refl at in
      let shown_read : read_bytes xs (off + 1) (prefix_bytes n) ≡ ok shown =
        rw size at (read_bytes-At xs (off + 1) shown shown_at) in
      rw (
        lt→leb off (length xs) (omega (arith, n_at.fits)),
        read_uint8-At xs off n n_at,
        le→ltb (width * 8) n small,
        le→ltb (length xs) (off + 1 + prefix_bytes n) (omega (arith, shown_at.fits)),
        shown_read,
        padded,
      )

  prefixes_loop-encode :
      (fuel off : ℕ) (ps : List (ℕ × List ℕ))
      → All (IsPrefix width) ps
      → length xs - off < fuel
      → off + length (encode_prefixes ps) ≡ length xs
      → At xs off (encode_prefixes ps)
      → prefixes_loop (parse_prefix (width * 8) width make) fuel xs off ≡ ok (map (to_cidr make) ps)
  unfolding prefixes_loop
  prefixes_loop-encode zero off ps valid h e at = absurd (omega arith)
  prefixes_loop-encode (suc fuel) off [] valid h e at = ground arith
  prefixes_loop-encode (suc fuel) off ((n, address) ∷ ps) (valid_p, valid) h e at =
      let size = valid_p.1 in
      let whole = length-append (encode_prefix n address) (encode_prefixes ps) in
      let next = off + (1 + prefix_bytes n) in
      let (p_at, rest_at) = At-cut xs off next (encode_prefix n address) _ (omega arith) at in
      rw (
        lt→ltb off (length xs) (omega (arith, whole)),
        parse_prefix-encode off (n, address) valid_p p_at,
        prefixes_loop-encode fuel next ps valid (omega (arith, whole)) (omega (arith, whole))
            rest_at,
      )

-- A list of well-formed IPv4 prefixes, as it stands in the withdrawn routes or the NLRI, is read
-- back in order, each address filled up with zeros to four bytes.
pub parse_ipv4_prefixes-encode :
    (ps : List (ℕ × List ℕ))
    → All (IsPrefix 4) ps
    → parse_prefixes parse_ipv4_prefix (encode_prefixes ps) 0 ≡ ok (map (to_cidr ipv4) ps)
unfolding parse_prefixes parse_ipv4_prefix
parse_ipv4_prefixes-encode ps valid =
    let xs : List ℕ = encode_prefixes ps in
    prefixes_loop-encode 4 ipv4 xs (suc (length xs - 0)) 0 ps valid (omega arith) (omega arith)
      (At-whole xs)

-- A list of well-formed IPv6 prefixes that stands at the offset and ends with the data is read
-- back in order, each address filled up with zeros to sixteen bytes.
pub parse_ipv6_prefixes-encode :
    (xs : List ℕ) (off : ℕ) (ps : List (ℕ × List ℕ))
    → All (IsPrefix 16) ps
    → off + length (encode_prefixes ps) ≡ length xs
    → At xs off (encode_prefixes ps)
    → parse_prefixes parse_ipv6_prefix xs off ≡ ok (map (to_cidr ipv6) ps)
unfolding parse_prefixes parse_ipv6_prefix
parse_ipv6_prefixes-encode xs off ps valid =
    prefixes_loop-encode 16 ipv6 xs (suc (length xs - off)) off ps valid (omega arith)

-- What the class of the address is made from: as many bytes as it wants.
abbrev pub address_bytes : IpAddress → List ℕ
address_bytes (ipv4 bs) = bs
address_bytes (ipv6 bs) = bs

prefix_size :
    (bits width count : ℕ) (shown : List ℕ)
    → bits ≡ width * 8
    → count ≤ bits
    → length shown ≡ prefix_bytes count
    → length (shown ++ replicate (width - prefix_bytes count) 0) ≡ width
prefix_size bits width count shown e small size = omega (
  arith,
  length-append shown (replicate (width - prefix_bytes count) 0),
  length-replicate {A = ℕ} (width - prefix_bytes count) 0,
)

module _ (xs : List ℕ) (off : ℕ) where
  prefix_steps :
      (bits width : ℕ) (make : List ℕ → IpAddress) (c : Cidr) (n : ℕ)
      → parse_prefix bits width make xs off ≡ ok (c, n)
      → (shown : List ℕ) × (read_bytes xs (off + 1) (prefix_bytes c.prefix_len) ≡ ok shown)
        × (c.address ≡ make (shown ++ replicate (width - prefix_bytes c.prefix_len) 0))
        × (c.prefix_len ≤ bits)
        × (n ≡ 1 + prefix_bytes c.prefix_len)
        × (off + n ≤ length xs)
  unfolding parse_prefix read_bytes
  prefix_steps bits width make c n h = (
    slice xs (off + 1) (prefix_bytes c.prefix_len),
    ground arith,
    ground arith,
    ground arith,
    ground arith,
    ground arith,
  )

  -- An IPv4 prefix that is returned has at most 32 bits and an address of four bytes; it
  -- consumes one byte and those that hold its bits, all inside the data.
  pub parse_ipv4_prefix_shape :
      (c : Cidr) (n : ℕ)
      → parse_ipv4_prefix xs off ≡ ok (c, n)
      → (c.prefix_len ≤ 32)
        × (length (address_bytes c.address) ≡ 4)
        × (n ≡ 1 + prefix_bytes c.prefix_len)
        × (off + n ≤ length xs)
  unfolding parse_ipv4_prefix
  parse_ipv4_prefix_shape c n h =
      let (shown, read, made, small, moved, inside) = prefix_steps 32 4 ipv4 c n h in
      let (_, size, _) = read_bytes-eq-ok xs (off + 1) (prefix_bytes c.prefix_len) shown read in
      (
        small,
        ap (λ a. length (address_bytes a)) made
            ∙ prefix_size 32 4 c.prefix_len shown refl small size,
        moved,
        inside,
      )

  -- An IPv6 prefix that is returned has at most 128 bits and an address of sixteen bytes; it
  -- consumes one byte and those that hold its bits, all inside the data.
  pub parse_ipv6_prefix_shape :
      (c : Cidr) (n : ℕ)
      → parse_ipv6_prefix xs off ≡ ok (c, n)
      → (c.prefix_len ≤ 128)
        × (length (address_bytes c.address) ≡ 16)
        × (n ≡ 1 + prefix_bytes c.prefix_len)
        × (off + n ≤ length xs)
  unfolding parse_ipv6_prefix
  parse_ipv6_prefix_shape c n h =
      let (shown, read, made, small, moved, inside) = prefix_steps 128 16 ipv6 c n h in
      let (_, size, _) = read_bytes-eq-ok xs (off + 1) (prefix_bytes c.prefix_len) shown read in
      (
        small,
        ap (λ a. length (address_bytes a)) made
            ∙ prefix_size 128 16 c.prefix_len shown refl small size,
        moved,
        inside,
      )
