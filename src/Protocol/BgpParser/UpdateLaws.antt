-- ===== src/Protocol/BgpParser/UpdateLaws.antt =====
-- What `parse_bgp_update` collects: the routes of all attributes in order, the last value of each
-- other attribute, and nothing from an attribute that fails to parse.
use pybmpmon.Base.{
  ℕ, ◌≡◌, ◌≢◌, refl, sym, ap, ◌∙◌, ◌↔◌, ◌⊎◌, inl, inr, List, [], ◌∷◌, ◌++◌, map, length, Bool, true,
  false, ◌==◌, ◌&&◌, ◌||◌, if◌then◌else◌, Option, some, ok, err, arith, Error, Result, Result-cases,
  Returns, ltb, ◌>>=◌,
}
use mathlib.Core.Path.{fun_ext}
use mathlib.Core.List.{append_assoc, append-nil}
use native.Mathlib.Decide.{ℕ_discrete}
use pybmpmon.Utils.Binary.{IpAddress}
use pybmpmon.Protocol.Bgp.{
  BgpPathAttribute, BgpUpdateMessage, ParsedBgpUpdate, Cidr, Prefix, cidr, attr_mp_reach_nlri,
  attr_mp_unreach_nlri, afi_ipv4, safi_unicast,
}
use pybmpmon.Protocol.BgpParser.Structure.{parse_bgp_update_structure}
use pybmpmon.Protocol.BgpParser.Prefixes.{parse_ipv4_prefix, parse_prefixes, prefixes_loop}
use pybmpmon.Protocol.BgpParser.Multiprotocol.{parse_mp_reach_nlri, parse_mp_unreach_nlri}
use pybmpmon.Protocol.BgpParser.AttributesEnd.{or_keep, keep_attributes, take_attributes_end}
use pybmpmon.Protocol.BgpParser.Update.{
  or_skip, Fields, initial_fields, take_evpn_fields, take_mp_reach, take_mp_unreach, take_attribute,
  take_attributes, take_nlri, to_update, parse_bgp_update,
}

-- The prefixes that one attribute announces, and those that it withdraws.
abbrev reach_result : Result (ℕ × ℕ × Option IpAddress × List Prefix) → List Prefix
reach_result (ok (afi, safi, next_hop, found)) = found
reach_result (err x) = []

abbrev unreach_result : Result (ℕ × ℕ × List Prefix) → List Prefix
unreach_result (ok (afi, safi, found)) = found
unreach_result (err x) = []

abbrev pub announced : BgpPathAttribute → List Prefix
announced a =
    if a.type_code == attr_mp_reach_nlri then reach_result (parse_mp_reach_nlri a.value) else []

abbrev pub withdrawn : BgpPathAttribute → List Prefix
withdrawn a =
    if a.type_code == attr_mp_unreach_nlri
    then unreach_result (parse_mp_unreach_nlri a.value)
    else []

abbrev pub collect : (BgpPathAttribute → List Prefix) → List BgpPathAttribute → List Prefix
collect f [] = []
collect f (a ∷ as_) = f a ++ collect f as_

-- Only MP_REACH_NLRI and MP_UNREACH_NLRI touch the routes.
module _ (a : BgpPathAttribute) (s : Fields) where
  other_attribute :
      a.type_code ≢ attr_mp_reach_nlri
      → a.type_code ≢ attr_mp_unreach_nlri
      → ((or_keep (take_attribute a s) s).prefixes ≡ s.prefixes)
        × ((or_keep (take_attribute a s) s).withdrawn_prefixes ≡ s.withdrawn_prefixes)
        × ((or_keep (take_attribute a s) s).has_mp_unreach ≡ s.has_mp_unreach)
  unfolding take_attribute
  other_attribute reach unreach = (ground arith, ground arith, ground arith)

evpn_fields_keep :
    (afi safi : ℕ) (found : List Prefix) (s : Fields)
    → ((take_evpn_fields afi safi found s).prefixes ≡ s.prefixes)
      × ((take_evpn_fields afi safi found s).withdrawn_prefixes ≡ s.withdrawn_prefixes)
      × ((take_evpn_fields afi safi found s).has_mp_unreach ≡ s.has_mp_unreach)
unfolding take_evpn_fields
evpn_fields_keep afi safi found s = (ground arith, ground arith, ground arith)

-- Whether an attribute is an MP_UNREACH_NLRI that parses.
abbrev is_ok {ℓ} : {A : Type ℓ} → Result A → Bool
is_ok (ok a) = true
is_ok (err x) = false

abbrev pub unreaches : BgpPathAttribute → Bool
unreaches a = (a.type_code == attr_mp_unreach_nlri) && is_ok (parse_mp_unreach_nlri a.value)

abbrev pub any_unreach : List BgpPathAttribute → Bool
any_unreach [] = false
any_unreach (a ∷ as_) = unreaches a || any_unreach as_

-- One attribute adds what it announces and what it withdraws.
abbrev Adds : BgpPathAttribute → Fields → Fields → Type 0
Adds a s t =
    (t.prefixes ≡ s.prefixes ++ announced a)
    × (t.withdrawn_prefixes ≡ s.withdrawn_prefixes ++ withdrawn a)
    × (t.has_mp_unreach ≡ (s.has_mp_unreach || unreaches a))

or_false : (b : Bool) → (b || false) ≡ b
or_false true = refl
or_false false = refl

or_true : (b : Bool) → (b || true) ≡ true
or_true true = refl
or_true false = refl

reach-Adds :
    (a : BgpPathAttribute) (s : Fields)
    → a.type_code ≡ attr_mp_reach_nlri
    → Adds a s (or_keep (take_attribute a s) s)
unfolding take_attribute take_mp_reach
reach-Adds a s e = elim (Result-cases (parse_mp_reach_nlri a.value)) [
  | inl ((afi, safi, hop, found), p) ↦
      let (_, same_withdrawn, same_flag) = evpn_fields_keep afi safi found s in
      (
        ground (arith, p, e),
        ground (arith, p, e, same_withdrawn, append-nil s.withdrawn_prefixes),
        ground (arith, p, e, same_flag, or_false s.has_mp_unreach),
      )
  | inr (y, p) ↦ (
    ground (arith, p, e, append-nil s.prefixes),
    ground (arith, p, e, append-nil s.withdrawn_prefixes),
    ground (arith, p, e, or_false s.has_mp_unreach),
  )
]

unreach-Adds :
    (a : BgpPathAttribute) (s : Fields)
    → a.type_code ≡ attr_mp_unreach_nlri
    → Adds a s (or_keep (take_attribute a s) s)
unfolding take_attribute take_mp_unreach
unreach-Adds a s e = elim (Result-cases (parse_mp_unreach_nlri a.value)) [
  | inl ((afi, safi, found), p) ↦
      let (same_prefixes, _, _) = evpn_fields_keep afi safi found s in
      (
        ground (arith, p, e, same_prefixes, append-nil s.prefixes),
        ground (arith, p, e),
        ground (arith, p, e, or_true s.has_mp_unreach),
      )
  | inr (y, p) ↦ (
    ground (arith, p, e, append-nil s.prefixes),
    ground (arith, p, e, append-nil s.withdrawn_prefixes),
    ground (arith, p, e, or_false s.has_mp_unreach),
  )
]

attribute-Adds : (a : BgpPathAttribute) (s : Fields) → Adds a s (or_keep (take_attribute a s) s)
attribute-Adds a s = elim (ℕ_discrete a.type_code attr_mp_reach_nlri) [
  | yes reach ↦ reach-Adds a s reach
  | no not_reach ↦ elim (ℕ_discrete a.type_code attr_mp_unreach_nlri) [
    | yes unreach ↦ unreach-Adds a s unreach
    | no not_unreach ↦
        let (same_prefixes, same_withdrawn, same_flag) =
          other_attribute a s not_reach not_unreach in
        (
          ground (arith, same_prefixes, append-nil s.prefixes),
          ground (arith, same_withdrawn, append-nil s.withdrawn_prefixes),
          ground (arith, same_flag, or_false s.has_mp_unreach),
        )
  ]
]

pub attributes_add :
    (as_ : List BgpPathAttribute) (s : Fields)
    → ((keep_attributes as_ s).prefixes ≡ s.prefixes ++ collect announced as_)
      × ((keep_attributes as_ s).withdrawn_prefixes ≡ s.withdrawn_prefixes ++ collect withdrawn as_)
      × ((keep_attributes as_ s).has_mp_unreach ≡ (s.has_mp_unreach || any_unreach as_))
attributes_add [] s = (
  sym (append-nil s.prefixes),
  sym (append-nil s.withdrawn_prefixes),
  sym (or_false s.has_mp_unreach),
)
attributes_add (a ∷ as_) s =
    let t = or_keep (take_attribute a s) s in
    let (one_prefixes, one_withdrawn, one_flag) = attribute-Adds a s in
    let (rest_prefixes, rest_withdrawn, rest_flag) = attributes_add as_ t in
    (
      rest_prefixes
          ∙ rw one_prefixes (append_assoc s.prefixes (announced a) (collect announced as_)),
      rest_withdrawn
          ∙ rw one_withdrawn
              (append_assoc s.withdrawn_prefixes (withdrawn a) (collect withdrawn as_)),
      ground (arith, one_flag, rest_flag),
    )

-- The routes of a parsed update, by the parts of the message.
pub record RoutesOf (m : BgpUpdateMessage) (w n : List Prefix) (u : ParsedBgpUpdate) : Type 0 where
  pub prefixes : u.prefixes ≡ collect announced m.path_attributes ++ n
  pub withdrawn_prefixes : u.withdrawn_prefixes ≡ w ++ collect withdrawn m.path_attributes
  pub is_withdrawal :
      (u.is_withdrawal ≡ true)
      ↔ ((u.withdrawn_prefixes ≢ []) ⊎ ((any_unreach m.path_attributes ≡ true) × (u.prefixes ≡ [])))

withdrawal_test :
    (w p : List Prefix) (b : Bool)
    → ((ltb 0 (length w) || (b && (length p == 0))) ≡ true) ↔ ((w ≢ []) ⊎ ((b ≡ true) × (p ≡ [])))
withdrawal_test [] [] true = (λ h. inr (refl, refl), λ h. refl)
withdrawal_test [] [] false = (λ h. cc, λ h. ground arith)
withdrawal_test [] (x ∷ p) true = (λ h. ground arith, λ h. ground arith)
withdrawal_test [] (x ∷ p) false = (λ h. cc, λ h. ground arith)
withdrawal_test (x ∷ w) p b = (λ h. inl (λ e. cc), λ h. ground arith)

-- The NLRI adds its prefixes behind those of the attributes.
nlri_adds :
    (nlri : List ℕ) (n : List Cidr) (s t : Fields)
    → parse_prefixes parse_ipv4_prefix nlri 0 ≡ ok n
    → take_nlri nlri s ≡ ok t
    → (t.prefixes ≡ s.prefixes ++ map cidr n)
      × (t.withdrawn_prefixes ≡ s.withdrawn_prefixes)
      × (t.has_mp_unreach ≡ s.has_mp_unreach)
unfolding take_nlri
nlri_adds [] n s t p e =
    unfold parse_prefixes prefixes_loop in
    (ground (arith, append-nil s.prefixes), ground arith, ground arith)
nlri_adds (b ∷ nlri) n s t p e = (ground arith, ground arith, ground arith)

take_nlri_returns :
    (nlri : List ℕ) (n : List Cidr) (s : Fields)
    → parse_prefixes parse_ipv4_prefix nlri 0 ≡ ok n
    → (t : Fields) × (take_nlri nlri s ≡ ok t)
unfolding take_nlri
take_nlri_returns [] n s p = (s, refl)
take_nlri_returns (b ∷ nlri) n s p = (
  record s { afi = some afi_ipv4; safi = some safi_unicast; prefixes = s.prefixes ++ map cidr n },
  ground arith,
)

to_update_routes :
    (m : BgpUpdateMessage) (w n : List Prefix) (t : Fields)
    → t.prefixes ≡ collect announced m.path_attributes ++ n
    → t.withdrawn_prefixes ≡ w ++ collect withdrawn m.path_attributes
    → t.has_mp_unreach ≡ any_unreach m.path_attributes
    → RoutesOf m w n (to_update t)
unfolding to_update
to_update_routes m w n t p q r = record {
  prefixes = p;
  withdrawn_prefixes = q;
  is_withdrawal = rw (← r) (withdrawal_test t.withdrawn_prefixes t.prefixes t.has_mp_unreach);
}

-- Where the structure, the withdrawn routes and the NLRI parse, `parse_bgp_update` returns an
-- update. Its prefixes are those of the MP_REACH_NLRI attributes and then the NLRI, its
-- withdrawn prefixes the withdrawn routes and then those of the MP_UNREACH_NLRI attributes, in
-- order; an attribute that fails to parse adds nothing. It is a withdrawal exactly if it
-- withdraws a prefix, or has an MP_UNREACH_NLRI that parses and announces nothing.
pub parse_bgp_update_routes :
    (xs : List ℕ) (m : BgpUpdateMessage) (w n : List Cidr)
    → parse_bgp_update_structure xs ≡ ok m
    → parse_prefixes parse_ipv4_prefix m.withdrawn_routes 0 ≡ ok w
    → parse_prefixes parse_ipv4_prefix m.nlri 0 ≡ ok n
    → Returns (RoutesOf m (map cidr w) (map cidr n)) (parse_bgp_update xs)
unfolding parse_bgp_update
parse_bgp_update_routes xs m w n structure withdrawn_ok nlri_ok =
    let started : Fields = record initial_fields { withdrawn_prefixes = map cidr w } in
    let s = keep_attributes m.path_attributes started in
    let (s_prefixes, s_withdrawn, s_flag) = attributes_add m.path_attributes started in
    let (t, t_ok) = take_nlri_returns m.nlri n s nlri_ok in
    let (t_prefixes, t_withdrawn, t_flag) = nlri_adds m.nlri n s t nlri_ok t_ok in
    rw (structure, withdrawn_ok, take_attributes_end m.path_attributes started, t_ok)
      (to_update_routes m (map cidr w) (map cidr n) t
        (t_prefixes ∙ ap (λ p. p ++ map cidr n) s_prefixes) (t_withdrawn ∙ s_withdrawn)
        (t_flag ∙ s_flag))

-- An attribute whose parser fails, whatever was collected, can be left out of the attributes,
-- wherever it stands, without changing what is collected from them.
pub take_attributes_skip :
    (before after : List BgpPathAttribute) (bad : BgpPathAttribute) (s : Fields)
    → ((t : Fields) → (x : Error) × (take_attribute bad t ≡ err x))
    → take_attributes (before ++ (bad ∷ after)) s ≡ take_attributes (before ++ after) s
unfolding take_attributes
take_attributes_skip [] after bad s fails =
    let (x, e) = fails s in
    take_attributes_end (bad ∷ after) s
    ∙ ap (λ r. ok (keep_attributes after (or_keep r s))) e
    ∙ sym (take_attributes_end after s)
take_attributes_skip (a ∷ before) after bad s fails =
    ap (λ r. or_skip (take_attribute a s) s >>= r)
      (fun_ext (λ t. take_attributes_skip before after bad t fails))
