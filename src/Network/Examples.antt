-- ===== src/Network/Examples.antt =====
-- Hosts with a public and with a private address (internal/ssrf/ssrf.go).
use nexixai_agentos.Prelude.{string_key}
use nexixai_agentos.Prelude.{
  ◌≡◌, ◌↔◌, refl, String, false, Option, none, some, List, [], ◌∷◌, inl, inr, All, subst, arith,
}
use nexixai_agentos.Network.Ssrf.Ranges.{IsIp}
use nexixai_agentos.Network.Ssrf.{
  Ip, resolve_host, reject_private_ips, is_private_ip, private_address, starting,
}
use nexixai_agentos.Network.Ssrf.Rejection.{AllPermitted, InForm, reject_private_ips-none_iff}

abbrev no_literal : String → Option Ip
no_literal s = none

-- A public and a private address, the second one mapped.
abbrev answers : List Ip
answers =
    (8 ∷ 8 ∷ 4 ∷ 4 ∷ [])
    ∷ (0 ∷ 0 ∷ 0 ∷ 0 ∷ 0 ∷ 0 ∷ 0 ∷ 0 ∷ 0 ∷ 0 ∷ 255 ∷ 255 ∷ 192 ∷ 168 ∷ 1 ∷ 7 ∷ [])
    ∷ []

abbrev lookup : String → Option (List Ip)
lookup s = some answers

answers-IsIp : All IsIp answers
answers-IsIp = (
  ((omega arith, (omega arith, (omega arith, (omega arith, tt)))), inl refl),
  (
    (
      (
        omega arith,
        (
          omega arith,
          (
            omega arith,
            (
              omega arith,
              (
                omega arith,
                (
                  omega arith,
                  (
                    omega arith,
                    (
                      omega arith,
                      (
                        omega arith,
                        (
                          omega arith,
                          (
                            omega arith,
                            (
                              omega arith,
                              (omega arith, (omega arith, (omega arith, (omega arith, tt)))),
                            ),
                          ),
                        ),
                      ),
                    ),
                  ),
                ),
              ),
            ),
          ),
        ),
      ),
      inr refl,
    ),
    tt,
  ),
)

in_form : InForm no_literal lookup
in_form = (λ s ip e. cc, λ s ips e. from_answers ips e)
  where
    from_answers : (ips : List Ip) → some answers ≡ some ips → All IsIp ips
    from_answers ips e = let is : answers ≡ ips = cc in subst (All IsIp) is answers-IsIp

reject_private_ips-none_iff_example :
    (reject_private_ips no_literal lookup "example.org" false ≡ none)
    ↔ AllPermitted false (resolve_host no_literal lookup "example.org")
reject_private_ips-none_iff_example =
    reject_private_ips-none_iff no_literal lookup "example.org" false in_form

mapped_is_found :
    reject_private_ips no_literal lookup "example.org" false
    ≡ some (
        private_address
          (0 ∷ 0 ∷ 0 ∷ 0 ∷ 0 ∷ 0 ∷ 0 ∷ 0 ∷ 0 ∷ 0 ∷ 255 ∷ 255 ∷ 192 ∷ 168 ∷ 1 ∷ 7 ∷ []))
unfolding reject_private_ips resolve_host is_private_ip
mapped_is_found = refl

-- The unspecified address of 16 bytes, which reaches the host itself, is let through.
unspecified_passes : is_private_ip (starting 0 0) ≡ false
unfolding is_private_ip
unspecified_passes = refl
