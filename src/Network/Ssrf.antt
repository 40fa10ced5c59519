-- ===== src/Network/Ssrf.antt =====
-- internal/ssrf/ssrf.go: requests to private addresses are refused. An address is its bytes, 4 or
-- 16. Parsing an address and asking a name server are arguments.
pub mod Ranges
pub mod Rejection
use nexixai_agentos.Prelude.{
  ℕ, zero, suc, ◌-◌, ◌/◌, ◌^◌, String, Bool, true, false, not, Option, none, some, List, [], ◌∷◌,
  ◌&&◌, ◌||◌, if◌then◌else◌, eqb, leb, min, is_some, length,
}

abbrev pub Ip : Type 0
Ip = List ℕ

-- An IPNet: its address, and how many bits of it are the prefix.
abbrev pub IpNet : Type 0
IpNet = Ip × ℕ

-- Whether two bytes agree under the mask of the first k bits.
abbrev pub masked : ℕ → ℕ → ℕ → Bool
masked k a b = eqb (a / 2 ^ (8 - k)) (b / 2 ^ (8 - k))

abbrev pub same_prefix : ℕ → Ip → Ip → Bool
same_prefix bits [] [] = true
same_prefix bits [] (b ∷ bs) = false
same_prefix bits (a ∷ xs) [] = false
same_prefix bits (a ∷ xs) (b ∷ bs) = masked (min 8 bits) a b && same_prefix (bits - 8) xs bs

-- The last four bytes behind ten bytes of 0 and two of 255.
abbrev pub mapped : ℕ → Ip → Option Ip
mapped zero [] = none
mapped zero (a ∷ []) = none
mapped zero (a ∷ b ∷ ip) = if eqb a 255 && eqb b 255 then some ip else none
mapped (suc ahead) [] = none
mapped (suc ahead) (a ∷ ip) = if eqb a 0 then mapped ahead ip else none

-- IP.To4
abbrev pub to_4 : Ip → Option Ip
to_4 ip = if eqb (length ip) 4 then some ip else if eqb (length ip) 16 then mapped 10 ip else none

abbrev pub or_ip : Option Ip → Ip → Ip
or_ip none ip = ip
or_ip (some ip4) ip = ip4

-- IPNet.Contains
abbrev pub contains : IpNet → Ip → Bool
contains (network, bits) ip = same_prefix bits network (or_ip (to_4 ip) ip)

abbrev pub ipv6_loopback : Ip
ipv6_loopback = 0 ∷ 0 ∷ 0 ∷ 0 ∷ 0 ∷ 0 ∷ 0 ∷ 0 ∷ 0 ∷ 0 ∷ 0 ∷ 0 ∷ 0 ∷ 0 ∷ 0 ∷ 1 ∷ []

-- 16 bytes that start with two given ones and are 0 else.
abbrev pub starting : ℕ → ℕ → Ip
starting a b = a ∷ b ∷ 0 ∷ 0 ∷ 0 ∷ 0 ∷ 0 ∷ 0 ∷ 0 ∷ 0 ∷ 0 ∷ 0 ∷ 0 ∷ 0 ∷ 0 ∷ 0 ∷ []

abbrev pub private_ranges : List IpNet
private_ranges =
    (0 ∷ 0 ∷ 0 ∷ 0 ∷ [], 8)
    ∷ (10 ∷ 0 ∷ 0 ∷ 0 ∷ [], 8)
    ∷ (100 ∷ 64 ∷ 0 ∷ 0 ∷ [], 10)
    ∷ (127 ∷ 0 ∷ 0 ∷ 0 ∷ [], 8)
    ∷ (169 ∷ 254 ∷ 0 ∷ 0 ∷ [], 16)
    ∷ (172 ∷ 16 ∷ 0 ∷ 0 ∷ [], 12)
    ∷ (192 ∷ 168 ∷ 0 ∷ 0 ∷ [], 16)
    ∷ (ipv6_loopback, 128)
    ∷ (starting 252 0, 7)
    ∷ (starting 254 128, 10)
    ∷ []

abbrev pub in_ranges : List IpNet → Ip → Bool
in_ranges [] ip = false
in_ranges (r ∷ ranges) ip = contains r ip || in_ranges ranges ip

unfoldable pub is_private_ip : Ip → Bool
is_private_ip ip = in_ranges private_ranges (or_ip (to_4 ip) ip)

abbrev pub same_ip : Ip → Ip → Bool
same_ip [] [] = true
same_ip [] (b ∷ bs) = false
same_ip (a ∷ xs) [] = false
same_ip (a ∷ xs) (b ∷ bs) = eqb a b && same_ip xs bs

abbrev pub starts_127 : Ip → Bool
starts_127 [] = false
starts_127 (a ∷ ip) = eqb a 127

-- IP.IsLoopback
abbrev pub is_loopback : Ip → Bool
is_loopback ip = elim (to_4 ip) [ some ip4 ↦ starts_127 ip4 | none ↦ same_ip ip ipv6_loopback ]

pub data SsrfError : Type 0 where
  resolution_failed : SsrfError
  no_records : SsrfError
  private_address : Ip → SsrfError

pub data Resolved : Type 0 where
  addresses : List Ip → Resolved
  unresolved : SsrfError → Resolved

abbrev pub looked_up : Option (List Ip) → Resolved
looked_up none = unresolved resolution_failed
looked_up (some []) = unresolved no_records
looked_up (some (ip ∷ ips)) = addresses (ip ∷ ips)

abbrev pub literal_or : Option Ip → Resolved → Resolved
literal_or none r = r
literal_or (some ip) r = addresses (ip ∷ [])

module _ (parse_ip : String → Option Ip) (lookup_ip_addr : String → Option (List Ip)) where
  unfoldable pub resolve_host : String → Resolved
  resolve_host host = literal_or (parse_ip host) (looked_up (lookup_ip_addr host))

  -- The loop over the addresses.
  abbrev pub reject_among : Bool → List Ip → Option SsrfError
  reject_among allow_loopback [] = none
  reject_among allow_loopback (ip ∷ ips) =
      if allow_loopback && is_loopback ip
      then reject_among allow_loopback ips
      else if is_private_ip ip
      then some (private_address ip)
      else reject_among allow_loopback ips

  abbrev pub reject_resolved : Bool → Resolved → Option SsrfError
  reject_resolved allow_loopback (unresolved e) = some e
  reject_resolved allow_loopback (addresses ips) = reject_among allow_loopback ips

  unfoldable pub reject_private_ips : String → Bool → Option SsrfError
  reject_private_ips host allow_loopback = reject_resolved allow_loopback (resolve_host host)
