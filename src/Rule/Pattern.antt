-- ===== src/Rule/Pattern.antt =====
-- Token lists, and the patterns of ports and addresses (src/rule.rs, from `is_match_all` on).
-- A port is below 2^16, an IPv4 address below 2^32 and an IPv6 address below 2^128.
pub mod Prefix
use ace_tun.Base.{
  ℕ, zero, suc, ◌-◌, ◌*◌, ◌%◌, ◌^◌, bit_and, Bool, true, false, not, ◌&&◌, ◌||◌, Option, none, some,
  List, [], ◌∷◌, map, ltb, leb, ◌==◌, if◌then◌else◌, length, any, is_nil,
}
use ace_tun.Text.{
  Text, codes, text_eq, eq_ignore_ascii_case, trim, split_on, split_once, contains, filter_text,
  parse_uint,
}
use ace_tun.Addr.{IpAddr, v4, v6, ipv4_octets, octets}
use ace_tun.Addr.Ipv4.{parse_ipv4}
use ace_tun.Addr.Ipv6.{parse_ipv6}

abbrev pub star : Text
star = codes "*"

unfoldable pub is_match_all : Text → Bool
unfolding trim text_eq eq_ignore_ascii_case
is_match_all list =
    let t = trim list in is_nil t || text_eq t star || eq_ignore_ascii_case t (codes "ANY")

is_separator : ℕ → Bool
is_separator c = c == b';' || c == b','

non_empty : Text → Bool
non_empty t = not (is_nil t)

unfoldable pub split_list : Text → List Text
unfolding split_on trim filter_text is_separator non_empty
split_list list = filter_text non_empty (map trim (split_on is_separator list))

-- Both ends of a range, as two parses that must succeed.
unfoldable pub in_range : Option ℕ → Option ℕ → ℕ → Bool
in_range (some s) (some e) v = leb s v && leb v e
in_range none _ v = false
in_range (some s) none v = false

is_value : Option ℕ → ℕ → Bool
is_value none v = false
is_value (some p) v = p == v

unfoldable pub match_port_pattern : Text → ℕ → Bool
unfolding text_eq split_once trim parse_uint in_range is_value
match_port_pattern pattern port =
    if text_eq pattern star then true else elim (split_once b'-' pattern) [
      | some (start, end) ↦
          in_range (parse_uint 65535 (trim start)) (parse_uint 65535 (trim end)) port
      | none ↦ is_value (parse_uint 65535 (trim pattern)) port
    ]

unfoldable pub match_port_list : Text → ℕ → Bool
unfolding is_match_all split_list match_port_pattern
match_port_list list port =
    if is_match_all list then true else any (λ tok. match_port_pattern tok port) (split_list list)

-- The loop over the parts and the octets, which `zip` ends with the shorter.
match_octets : List Text → List ℕ → Bool
match_octets (part ∷ parts) (octet ∷ octets) =
    (text_eq part star || is_value (parse_uint 255 part) octet) && match_octets parts octets
match_octets [] octets = true
match_octets (part ∷ parts) [] = true

unfoldable pub match_ipv4_pattern : Text → ℕ → Bool
unfolding contains split_once trim parse_ipv4 in_range split_on match_octets octets text_eq is_value
    parse_uint
match_ipv4_pattern pattern ip =
    if contains b':' pattern then false else elim (split_once b'-' pattern) [
      | some (start, end) ↦ in_range (parse_ipv4 (trim start)) (parse_ipv4 (trim end)) ip
      | none ↦
          let parts = split_on (λ c. c == b'.') pattern in
          if length parts == 4 then match_octets parts (ipv4_octets ip) else false
    ]

-- `u128::MAX << (128 - prefix_len)`, for a shift below 128.
unfoldable pub prefix_mask : ℕ → ℕ
prefix_mask prefix_len = (2 ^ 128 - 1) * 2 ^ (128 - prefix_len) % 2 ^ 128

-- The comparison under the mask, once network and prefix length are parsed.
unfoldable pub match_prefix : Option ℕ → Option ℕ → ℕ → Bool
unfolding prefix_mask
match_prefix none _ ip = false
match_prefix (some network) none ip = false
match_prefix (some network) (some prefix_len) ip =
    if ltb 128 prefix_len
    then false
    else if prefix_len == 0
    then true
    else bit_and network (prefix_mask prefix_len) == bit_and ip (prefix_mask prefix_len)

match_ipv6_range : Text → ℕ → Bool
match_ipv6_range pattern ip = elim (split_once b'-' pattern) [
  | some (start, end) ↦ in_range (parse_ipv6 (trim start)) (parse_ipv6 (trim end)) ip
  | none ↦ is_value (parse_ipv6 (trim pattern)) ip
]

unfoldable pub match_ipv6_pattern : Text → ℕ → Bool
unfolding text_eq contains split_once trim parse_ipv6 parse_uint match_prefix match_ipv6_range
    in_range is_value
match_ipv6_pattern pattern ip =
    if text_eq pattern star
    then true
    else if not (contains b':' pattern)
    then false
    else elim (split_once b'/' pattern) [
      | some (net, prefix) ↦
          match_prefix (parse_ipv6 (trim net)) (parse_uint (2 ^ 32 - 1) (trim prefix)) ip
      | none ↦ match_ipv6_range pattern ip
    ]

unfoldable pub match_ip_pattern : Text → IpAddr → Bool
unfolding text_eq match_ipv4_pattern match_ipv6_pattern
match_ip_pattern pattern (v4 ip) =
    if text_eq pattern star then true else match_ipv4_pattern pattern ip
match_ip_pattern pattern (v6 ip) =
    if text_eq pattern star then true else match_ipv6_pattern pattern ip

unfoldable pub match_ip_list : Text → IpAddr → Bool
unfolding is_match_all split_list match_ip_pattern
match_ip_list list ip =
    if is_match_all list then true else any (λ tok. match_ip_pattern tok ip) (split_list list)
