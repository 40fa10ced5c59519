-- ===== src/Network/Ssrf/Rejection.antt =====
-- Which hosts are refused (internal/ssrf/ssrf.go).
use nexixai_agentos.Prelude.{
  ◌≡◌, ◌↔◌, refl, String, Bool, true, not, Option, none, some, List, [], ◌∷◌, ◌&&◌, if◌then◌else◌,
  All, Bool-cases, Option-cases, inl, inr,
}
use nexixai_agentos.Network.Ssrf.{
  Ip, is_loopback, Resolved, addresses, unresolved, looked_up, resolve_host, reject_among,
  reject_resolved, reject_private_ips,
}
use nexixai_agentos.Network.Ssrf.Ranges.{IsIp, reserved, is_private_ip-reserved}

abbrev pub permitted : Bool → Ip → Bool
permitted allow_loopback ip = if allow_loopback && is_loopback ip then true else not (reserved ip)

abbrev pub AllPermitted : Bool → Resolved → Type 0
AllPermitted allow_loopback (unresolved e) = ⊥
AllPermitted allow_loopback (addresses ips) = All (λ ip. permitted allow_loopback ip ≡ true) ips

abbrev AllIps : Resolved → Type 0
AllIps (unresolved e) = Unit
AllIps (addresses ips) = All IsIp ips

-- What is answered for addresses in form: of 4 or 16 bytes.
abbrev pub InForm : (String → Option Ip) → (String → Option (List Ip)) → Type 0
InForm parse_ip lookup_ip_addr =
    ((s : String) → (ip : Ip) → parse_ip s ≡ some ip → IsIp ip)
    × ((s : String) → (ips : List Ip) → lookup_ip_addr s ≡ some ips → All IsIp ips)

module _ (parse_ip : String → Option Ip) (lookup_ip_addr : String → Option (List Ip)) where
  reject_among-none :
      (allow : Bool) (ips : List Ip)
      → All IsIp ips
      → (reject_among parse_ip lookup_ip_addr allow ips ≡ none)
        ↔ All (λ ip. permitted allow ip ≡ true) ips
  reject_among-none allow [] h = (λ e. tt, λ a. refl)
  reject_among-none allow (ip ∷ ips) h =
      let rest = reject_among-none allow ips h.1 in
      let private = is_private_ip-reserved ip h.0 in
      elim (Bool-cases (allow && is_loopback ip)) [
        | inl l ↦ rw l (λ e. (refl, rest.0 e), λ a. rest.1 a.1)
        | inr l ↦ elim (Bool-cases (reserved ip)) [
          | inl r ↦ rw (l, private, r) (λ e. cc, λ a. cc)
          | inr r ↦ rw (l, private, r) (λ e. (refl, rest.0 e), λ a. rest.1 a.1)
        ]
      ]

  reject_resolved-none :
      (allow : Bool) (r : Resolved)
      → AllIps r
      → (reject_resolved parse_ip lookup_ip_addr allow r ≡ none) ↔ AllPermitted allow r
  reject_resolved-none allow (unresolved e) h = (λ n. cc, λ a. absurd a)
  reject_resolved-none allow (addresses ips) h = reject_among-none allow ips h

  resolve_host-AllIps :
      (host : String)
      → InForm parse_ip lookup_ip_addr
      → AllIps (resolve_host parse_ip lookup_ip_addr host)
  unfolding resolve_host
  resolve_host-AllIps host h = elim (Option-cases (parse_ip host)) [
    | inr (ip, e) ↦ rw e (h.0 host ip e, tt)
    | inl e ↦ rw e (looked_up-AllIps (lookup_ip_addr host) refl)
  ]
    where
      looked_up-AllIps : (o : Option (List Ip)) → lookup_ip_addr host ≡ o → AllIps (looked_up o)
      looked_up-AllIps none f = tt
      looked_up-AllIps (some []) f = tt
      looked_up-AllIps (some (ip ∷ ips)) f = h.1 host (ip ∷ ips) f

  -- When what parses and looks up addresses answers addresses of 4 or 16 bytes: RejectPrivateIPs
  -- accepts a host exactly if it resolves to some addresses and none of them is private, but for
  -- loopback addresses where they are allowed. Private are, in four numbers a.b.c.d (also when
  -- mapped into 16 bytes), those with a of 0, 10 or 127, 100.64 to 100.127, 169.254, 172.16 to
  -- 172.31 and 192.168, and of 16 bytes ::1, those with a first byte of 252 or 253, and those with
  -- a first byte of 254 and a second from 128 to 191.
  pub reject_private_ips-none_iff :
      (host : String) (allow : Bool)
      → InForm parse_ip lookup_ip_addr
      → (reject_private_ips parse_ip lookup_ip_addr host allow ≡ none)
        ↔ AllPermitted allow (resolve_host parse_ip lookup_ip_addr host)
  unfolding reject_private_ips
  reject_private_ips-none_iff host allow h =
      reject_resolved-none allow (resolve_host parse_ip lookup_ip_addr host)
        (resolve_host-AllIps host h)
