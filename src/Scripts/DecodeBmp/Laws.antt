-- ===== src/Scripts/DecodeBmp/Laws.antt =====
-- What is printed of a message: the exception that a parser raises, and the prefixes of an UPDATE.
use pybmpmon.Base.{
  ℕ, ◌≡◌, refl, sym, ap, ◌∙◌, List, [], ◌∷◌, ◌++◌, map, length, Option, none, some, Result, ok, err,
  All, Bool, true, false, if◌then◌else◌, ◌||◌, ◌==◌, Bool-cases, inl, inr,
}
use mathlib.Core.List.{append_assoc, append-nil}
use pybmpmon.Utils.Binary.{IsByte}
use pybmpmon.Protocol.Bmp.{
  BmpMessage, initiation_message, termination_message, route_monitoring_message,
  statistics_report_message, peer_down_message, peer_up_message,
}
use pybmpmon.Protocol.Bgp.{ParsedBgpUpdate, Prefix, cidr, route_info, mac_ip_route, other_route}
use pybmpmon.Protocol.BmpParser.Messages.{parse_bmp_message}
use pybmpmon.Protocol.BgpParser.Update.{parse_bgp_update}
use pybmpmon.Scripts.DecodeBmp.{
  Line, withdrawn_prefix, announced_prefix, error_parsing, if_some, if_any, afi_lines, with_heading,
  concat_lines, evpn_lines, update_lines, of_update, message_lines, of_message, decode_bmp_message,
  total_length, is_withdrawal, routes_heading, withdrawn_heading, announced_heading, afi_safi,
  evpn_route_type, evpn_rd, evpn_esi, mac_address, next_hop, as_path, origin, origin_name,
  local_preference, med, communities, extended_communities,
}
use pybmpmon.Scripts.DecodeBmp.HexText.{hex_text, read_hex_text}

module _ {A : Type 0} (pick : Line → List A) where
  -- What is picked from each line, in order.
  abbrev pub collect : List Line → List A
  collect [] = []
  collect (l ∷ ls) = pick l ++ collect ls

  collect-append : (ls ms : List Line) → collect (ls ++ ms) ≡ collect ls ++ collect ms
  collect-append [] ms = refl
  collect-append (l ∷ ls) ms =
      ap (λ t. pick l ++ t) (collect-append ls ms)
      ∙ sym (append_assoc (pick l) (collect ls) (collect ms))

  -- A part that nothing is picked from can be left out.
  skip : (ls ms : List Line) → collect ls ≡ [] → collect (ls ++ ms) ≡ collect ms
  skip ls ms h = collect-append ls ms ∙ ap (λ t. t ++ collect ms) h

  collect-if_some :
      {B : Type 0} (line : B → Line) (v : Option B)
      → ((b : B) → pick (line b) ≡ [])
      → collect (if_some line v) ≡ []
  collect-if_some line none h = refl
  collect-if_some line (some b) h = ap (λ t. t ++ []) (h b)

  collect-if_any :
      {B : Type 0} (line : List B → Line) (v : Option (List B))
      → ((bs : List B) → pick (line bs) ≡ [])
      → collect (if_any line v) ≡ []
  collect-if_any line none h = refl
  collect-if_any line (some []) h = refl
  collect-if_any line (some (b ∷ bs)) h = ap (λ t. t ++ []) (h (b ∷ bs))

  collect-with_heading :
      (heading : Line) (ls : List Line)
      → pick heading ≡ []
      → collect (with_heading heading ls) ≡ collect ls
  collect-with_heading heading [] h = refl
  collect-with_heading heading (l ∷ ls) h = ap (λ t. t ++ collect (l ∷ ls)) h

-- The lines of prefixes and of an exception.
abbrev pub is_part : Line → Bool
is_part (withdrawn_prefix p) = true
is_part (announced_prefix p) = true
is_part (error_parsing e) = true
is_part _ = false

module _ {A : Type 0} (pick : Line → List A)
    (others : (l : Line) → is_part l ≡ false → pick l ≡ []) where
  quiet : (l : Line) → is_part l ≡ false → collect pick (l ∷ []) ≡ []
  quiet l h = ap (λ t. t ++ []) (others l h)

  afi_quiet : (afi safi : Option ℕ) → collect pick (afi_lines afi safi) ≡ []
  afi_quiet none safi = refl
  afi_quiet (some afi) none = refl
  afi_quiet (some afi) (some safi) = elim (Bool-cases ((afi == 0) || (safi == 0))) [
    | inl zeros ↦ rw zeros refl
    | inr both ↦ rw both (quiet (afi_safi afi safi) refl)
  ]

  evpn_quiet : (u : ParsedBgpUpdate) (n : Option ℕ) → collect pick (evpn_lines u n) ≡ []
  evpn_quiet u none = refl
  evpn_quiet u (some n) =
      skip pick (evpn_route_type n ∷ []) _ (quiet (evpn_route_type n) refl)
      ∙ skip pick (if_some evpn_rd u.evpn_rd) _
          (collect-if_some pick evpn_rd u.evpn_rd λ d. others (evpn_rd d) refl)
      ∙ skip pick (if_any evpn_esi u.evpn_esi) _
          (collect-if_any pick evpn_esi u.evpn_esi λ e. others (evpn_esi e) refl)
      ∙ collect-if_any pick mac_address u.mac_address λ m. others (mac_address m) refl

  routes_lem :
      (u : ParsedBgpUpdate)
      → let withdrawn = map withdrawn_prefix u.withdrawn_prefixes in
        collect pick (
          with_heading withdrawn_heading withdrawn
          ++ (with_heading announced_heading (concat_lines u.prefixes)
              ++ evpn_lines u u.evpn_route_type))
        ≡ collect pick withdrawn ++ collect pick (concat_lines u.prefixes)
  routes_lem u =
      let withdrawn = map withdrawn_prefix u.withdrawn_prefixes in
      let announced = concat_lines u.prefixes in
      rw
        (
          collect-append pick (with_heading withdrawn_heading withdrawn)
              (with_heading announced_heading announced ++ evpn_lines u u.evpn_route_type),
          collect-append pick (with_heading announced_heading announced)
              (evpn_lines u u.evpn_route_type),
          collect-with_heading pick withdrawn_heading withdrawn (others withdrawn_heading refl),
          collect-with_heading pick announced_heading announced (others announced_heading refl),
          evpn_quiet u u.evpn_route_type,
          append-nil (collect pick announced),
        )
        refl

  collect-update_lines :
      (u : ParsedBgpUpdate)
      → collect pick (update_lines u)
        ≡ collect pick (map withdrawn_prefix u.withdrawn_prefixes)
          ++ collect pick (concat_lines u.prefixes)
  unfolding update_lines
  collect-update_lines u =
      skip pick (afi_lines u.afi u.safi) _ (afi_quiet u.afi u.safi)
      ∙ skip pick (is_withdrawal u.is_withdrawal ∷ []) _
          (quiet (is_withdrawal u.is_withdrawal) refl)
      ∙ skip pick (if_some next_hop u.next_hop) _
          (collect-if_some pick next_hop u.next_hop λ a. others (next_hop a) refl)
      ∙ skip pick (if_any as_path u.as_path) _
          (collect-if_any pick as_path u.as_path λ a. others (as_path a) refl)
      ∙ skip pick (if_some (λ n. origin (origin_name n)) u.origin) _ (
          collect-if_some pick (λ n. origin (origin_name n)) u.origin
            λ n. others (origin (origin_name n)) refl)
      ∙ skip pick (if_some local_preference u.local_pref) _
          (collect-if_some pick local_preference u.local_pref λ n. others (local_preference n) refl)
      ∙ skip pick (if_some med u.med) _ (collect-if_some pick med u.med λ n. others (med n) refl)
      ∙ skip pick (if_any communities u.communities) _
          (collect-if_any pick communities u.communities λ c. others (communities c) refl)
      ∙ skip pick (if_any extended_communities u.extended_communities) _ (
          collect-if_any pick extended_communities u.extended_communities
            λ c. others (extended_communities c) refl)
      ∙ skip pick (routes_heading ∷ []) _ (quiet routes_heading refl)
      ∙ routes_lem u

-- The line, if it is one of a prefix or of an exception.
abbrev pub part : Line → List Line
part l = if is_part l then l ∷ [] else []

part_others : (l : Line) → is_part l ≡ false → part l ≡ []
part_others l h = rw h refl

-- The announced prefixes that are printed in one line, so all but those of EVPN.
abbrev pub one_line : List Prefix → List Line
one_line [] = []
one_line (cidr c ∷ ps) = announced_prefix (cidr c) ∷ one_line ps
one_line (route_info i ∷ ps) = one_line ps

abbrev pub update_parts : Result ParsedBgpUpdate → List Line
update_parts (err e) = error_parsing e ∷ []
update_parts (ok u) = map withdrawn_prefix u.withdrawn_prefixes ++ one_line u.prefixes

abbrev pub message_parts : Result BmpMessage → List Line
message_parts (err e) = error_parsing e ∷ []
message_parts (ok (route_monitoring_message m)) = update_parts (parse_bgp_update m.bgp_update)
message_parts (ok (initiation_message m)) = []
message_parts (ok (termination_message m)) = []
message_parts (ok (statistics_report_message m)) = []
message_parts (ok (peer_down_message m)) = []
message_parts (ok (peer_up_message m)) = []

collect-withdrawn :
    (ps : List Prefix) → collect part (map withdrawn_prefix ps) ≡ map withdrawn_prefix ps
collect-withdrawn [] = refl
collect-withdrawn (p ∷ ps) = ap (λ t. withdrawn_prefix p ∷ t) (collect-withdrawn ps)

collect-announced : (ps : List Prefix) → collect part (concat_lines ps) ≡ one_line ps
collect-announced [] = refl
collect-announced (cidr c ∷ ps) = ap (λ t. announced_prefix (cidr c) ∷ t) (collect-announced ps)
collect-announced (route_info (mac_ip_route n d e m a) ∷ ps) = collect-announced ps
collect-announced (route_info (other_route n) ∷ ps) = collect-announced ps

collect-of_update : (r : Result ParsedBgpUpdate) → collect part (of_update r) ≡ update_parts r
unfolding of_update
collect-of_update (err e) = refl
collect-of_update (ok u) =
    collect-update_lines part part_others u
    ∙ rw (collect-withdrawn u.withdrawn_prefixes, collect-announced u.prefixes) refl

collect-of_message : (r : Result BmpMessage) → collect part (of_message r) ≡ message_parts r
unfolding message_lines
collect-of_message (err e) = refl
collect-of_message (ok (route_monitoring_message m)) =
    collect-of_update (parse_bgp_update m.bgp_update)
collect-of_message (ok (initiation_message m)) = refl
collect-of_message (ok (termination_message m)) = refl
collect-of_message (ok (statistics_report_message m)) = refl
collect-of_message (ok (peer_down_message m)) = refl
collect-of_message (ok (peer_up_message m)) = refl

-- From the hexadecimal text of any bytes the script prints their number and then lines, and
-- raises nothing. The lines of prefixes and of an exception are these, in order: if
-- `parse_bmp_message` raises, its exception. If it returns a Route Monitoring message, the
-- exception that `parse_bgp_update` raises on its UPDATE, or the withdrawn prefixes and then the
-- announced ones that are not of EVPN. For another message none.
pub decode_bmp_message-hex_text :
    (bs : List ℕ)
    → All IsByte bs
    → (lines : List Line) × (decode_bmp_message (hex_text bs)
        ≡ ok (total_length (length bs) ∷ lines))
      × (collect part lines ≡ message_parts (parse_bmp_message bs))
unfolding decode_bmp_message
decode_bmp_message-hex_text bs h = (
  of_message (parse_bmp_message bs),
  rw (read_hex_text bs h) refl,
  collect-of_message (parse_bmp_message bs),
)
