-- ===== src/Network/Ssrf/Ranges.antt =====
-- The private ranges by the numbers of an address (internal/ssrf/ssrf.go).
use nexixai_agentos.Prelude.{
  ℕ, zero, suc, ◌+◌, ◌-◌, ◌*◌, ◌≤◌, ◌<◌, ◌≡◌, refl, sym, ◌∙◌, ap, Bool, true, false, Option, none,
  some, [], ◌∷◌, ◌&&◌, ◌||◌, eqb, leb, min, length, All, Bool-cases, Option-cases, ◌⊎◌, inl, inr,
  if_true, if_false, subst, arith,
}
use nexixai_agentos.Network.Ssrf.{
  Ip, same_prefix, mapped, to_4, or_ip, contains, ipv6_loopback, starting, private_ranges,
  in_ranges, is_private_ip, same_ip,
}

-- The private addresses a.b.c.d.
abbrev pub reserved_4 : ℕ → ℕ → Bool
reserved_4 a b =
    eqb a 0
    || (eqb a 10
        || (eqb a 100 && leb 64 b && leb b 127
            || (eqb a 127
                || (eqb a 169 && eqb b 254
                    || (eqb a 172 && leb 16 b && leb b 31 || eqb a 192 && eqb b 168)))))

-- The private addresses of 16 bytes, a and b the first two.
abbrev pub reserved_6 : ℕ → ℕ → Ip → Bool
reserved_6 a b ip =
    same_ip (a ∷ b ∷ ip) ipv6_loopback
    || (leb 252 a && leb a 253 || eqb a 254 && leb 128 b && leb b 191)

-- The private addresses: those of 4 bytes, also when they stand in 16, and those of 16.
abbrev pub reserved_of : Option Ip → Ip → Bool
reserved_of (some (a ∷ b ∷ ip4)) ip = reserved_4 a b
reserved_of (some ip4) ip = false
reserved_of none (a ∷ b ∷ ip) = reserved_6 a b ip
reserved_of none ip = false

abbrev pub reserved : Ip → Bool
reserved ip = reserved_of (to_4 ip) ip

abbrev pub IsByte : ℕ → Type 0
IsByte b = b < 256

abbrev pub IsIp : Ip → Type 0
IsIp ip = All IsByte ip × ((length ip ≡ 4) ⊎ (length ip ≡ 16))

same_prefix_lengths :
    (n : ℕ) (xs ys : Ip) → eqb (length xs) (length ys) ≡ false → same_prefix n xs ys ≡ false
same_prefix_lengths n [] [] h = cc
same_prefix_lengths n [] (y ∷ ys) h = refl
same_prefix_lengths n (x ∷ xs) [] h = refl
same_prefix_lengths n (x ∷ xs) (y ∷ ys) h = ground (arith, same_prefix_lengths (n - 8) xs ys, h)

-- A prefix that is over agrees.
same_prefix_over :
    (xs ys : Ip)
    → length xs ≡ length ys
    → All IsByte xs
    → All IsByte ys
    → same_prefix 0 xs ys ≡ true
same_prefix_over [] [] h p q = refl
same_prefix_over [] (y ∷ ys) h p q = absurd (omega arith)
same_prefix_over (x ∷ xs) [] h p q = absurd (omega arith)
same_prefix_over (x ∷ xs) (y ∷ ys) h p q =
    let rest = same_prefix_over xs ys (omega arith) p.1 q.1 in ground (arith, rest, p.0, q.0)

same_prefix_whole :
    (n : ℕ) (xs ys : Ip)
    → 8 * length xs ≤ n
    → length xs ≡ length ys
    → same_prefix n xs ys ≡ same_ip ys xs
same_prefix_whole n [] [] h e = refl
same_prefix_whole n [] (y ∷ ys) h e = absurd (omega arith)
same_prefix_whole n (x ∷ xs) [] h e = absurd (omega arith)
same_prefix_whole n (x ∷ xs) (y ∷ ys) h e =
    let rest = same_prefix_whole (n - 8) xs ys (omega arith) (omega arith) in
    let byte : min 8 n ≡ 8 = omega arith in rw (byte, rest) ground arith

or_false : (b : Bool) → (b || false) ≡ b
or_false true = refl
or_false false = refl

module _ (a b c d : ℕ) (ha : IsByte a) (hb : IsByte b) (hc : IsByte c) (hd : IsByte d) where
  abbrev four : Ip
  four = a ∷ b ∷ c ∷ d ∷ []

  contains-10 : (n : ℕ) → contains (n ∷ 0 ∷ 0 ∷ 0 ∷ [], 8) four ≡ eqb a n
  contains-10 n = ground arith

  contains-16 : (n m : ℕ) → contains (n ∷ m ∷ 0 ∷ 0 ∷ [], 16) four ≡ (eqb a n && eqb b m)
  contains-16 n m = ground arith

  contains-100_64 : contains (100 ∷ 64 ∷ 0 ∷ 0 ∷ [], 10) four ≡ (eqb a 100 && leb 64 b && leb b 127)
  contains-100_64 = ground arith

  contains-172_16 : contains (172 ∷ 16 ∷ 0 ∷ 0 ∷ [], 12) four ≡ (eqb a 172 && leb 16 b && leb b 31)
  contains-172_16 = ground arith

  is_private_ip-four : is_private_ip four ≡ reserved_4 a b
  unfolding is_private_ip
  is_private_ip-four =
      rw
        (
          contains-10 0,
          contains-10 10,
          contains-100_64,
          contains-10 127,
          contains-16 169 254,
          contains-172_16,
          contains-16 192 168,
          same_prefix_lengths 128 ipv6_loopback four refl,
          same_prefix_lengths 7 (starting 252 0) four refl,
          same_prefix_lengths 10 (starting 254 128) four refl,
          or_false (eqb a 192 && eqb b 168),
        )
        refl

module _ (a b : ℕ) (ip : Ip) (ha : IsByte a) (hb : IsByte b) (h : All IsByte ip)
    (l : length ip ≡ 14) where
  abbrev sixteen : Ip
  sixteen = a ∷ b ∷ ip

  over : same_prefix 0 (0 ∷ 0 ∷ 0 ∷ 0 ∷ 0 ∷ 0 ∷ 0 ∷ 0 ∷ 0 ∷ 0 ∷ 0 ∷ 0 ∷ 0 ∷ 0 ∷ []) ip ≡ true
  over =
      let z : 0 < 256 = omega arith in
      same_prefix_over (0 ∷ 0 ∷ 0 ∷ 0 ∷ 0 ∷ 0 ∷ 0 ∷ 0 ∷ 0 ∷ 0 ∷ 0 ∷ 0 ∷ 0 ∷ 0 ∷ []) ip (sym l)
        (z, (z, (z, (z, (z, (z, (z, (z, (z, (z, (z, (z, (z, (z, tt)))))))))))))) h

  unique_local : same_prefix 7 (starting 252 0) sixteen ≡ (leb 252 a && leb a 253)
  unique_local = rw over ground arith

  link_local : same_prefix 10 (starting 254 128) sixteen ≡ (eqb a 254 && leb 128 b && leb b 191)
  link_local = rw over ground arith

  short : (n w x y z : ℕ) → same_prefix n (w ∷ x ∷ y ∷ z ∷ []) sixteen ≡ false
  short n w x y z = same_prefix_lengths n (w ∷ x ∷ y ∷ z ∷ []) sixteen (ground (arith, l))

  is_private_ip-sixteen : to_4 sixteen ≡ none → is_private_ip sixteen ≡ reserved_6 a b ip
  unfolding is_private_ip
  is_private_ip-sixteen none_4 =
      rw
        (
          none_4,
          none_4,
          short 8 0 0 0 0,
          short 8 10 0 0 0,
          short 10 100 64 0 0,
          short 8 127 0 0 0,
          short 16 169 254 0 0,
          short 12 172 16 0 0,
          short 16 192 168 0 0,
          same_prefix_whole 128 ipv6_loopback sixteen (omega arith) (omega (arith, l)),
          unique_local,
          link_local,
          or_false (eqb a 254 && leb 128 b && leb b 191),
        )
        refl

mapped-rest :
    (k : ℕ) (ip ip4 : Ip)
    → mapped k ip ≡ some ip4
    → All IsByte ip
    → All IsByte ip4 × (length ip ≡ k + 2 + length ip4)
mapped-rest zero [] ip4 e h = cc
mapped-rest zero (a ∷ []) ip4 e h = cc
mapped-rest zero (a ∷ b ∷ ip) ip4 e h = elim (Bool-cases (eqb a 255 && eqb b 255)) [
  | inl t ↦
      let same : some ip ≡ some ip4 = sym (if_true _ (some ip) none t) ∙ e in
      let is : ip ≡ ip4 = cc in
      (subst (All IsByte) is h.1.1, ap (λ x. suc (suc (length x))) is ∙ omega arith)
  | inr t ↦ absurd (nothing (sym (if_false _ (some ip) none t) ∙ e))
]
  where
    nothing : {x : Ip} → none ≡ some x → ⊥
    nothing h = cc
mapped-rest (suc k) [] ip4 e h = cc
mapped-rest (suc k) (a ∷ ip) ip4 e h = elim (Bool-cases (eqb a 0)) [
  | inl t ↦
      let (bytes, l) = mapped-rest k ip ip4 (sym (if_true _ (mapped k ip) none t) ∙ e) h.1 in
      (bytes, omega (arith, l))
  | inr t ↦ absurd (nothing (sym (if_false _ (mapped k ip) none t) ∙ e))
]
  where
    nothing : {x : Ip} → none ≡ some x → ⊥
    nothing h = cc

is_private_ip-short :
    (ip other : Ip) → length ip ≡ 4 → All IsByte ip → is_private_ip ip ≡ reserved_of (some ip) other
is_private_ip-short [] other l h = absurd (omega arith)
is_private_ip-short (a ∷ []) other l h = absurd (omega arith)
is_private_ip-short (a ∷ b ∷ []) other l h = absurd (omega arith)
is_private_ip-short (a ∷ b ∷ c ∷ []) other l h = absurd (omega arith)
is_private_ip-short (a ∷ b ∷ c ∷ d ∷ []) other l h =
    is_private_ip-four a b c d h.0 h.1.0 h.1.1.0 h.1.1.1.0
is_private_ip-short (a ∷ b ∷ c ∷ d ∷ e ∷ ip) other l h = absurd (omega arith)

is_private_ip-long :
    (ip : Ip)
    → length ip ≡ 16
    → All IsByte ip
    → to_4 ip ≡ none
    → is_private_ip ip ≡ reserved_of none ip
is_private_ip-long [] l h e = absurd (omega arith)
is_private_ip-long (a ∷ []) l h e = absurd (omega arith)
is_private_ip-long (a ∷ b ∷ ip) l h e =
    is_private_ip-sixteen a b ip h.0 h.1.0 h.1.1 (omega (arith, l)) e

to_4-four : (ip : Ip) → length ip ≡ 4 → to_4 ip ≡ some ip
to_4-four ip l = rw l refl

is_private_ip-mapped :
    (ip ip4 : Ip)
    → length ip ≡ 16
    → All IsByte ip
    → to_4 ip ≡ some ip4
    → is_private_ip ip ≡ reserved_of (some ip4) ip
unfolding is_private_ip
is_private_ip-mapped ip ip4 l h e =
    let found : mapped 10 ip ≡ some ip4 = ground (arith, l, e) in
    let (bytes, n) = mapped-rest 10 ip ip4 found h in
    let four_long : length ip4 ≡ 4 = omega (arith, l, n) in
    let own = to_4-four ip4 four_long in
    ap (λ o. in_ranges private_ranges (or_ip o ip)) e
    ∙ sym (ap (λ o. in_ranges private_ranges (or_ip o ip4)) own)
    ∙ is_private_ip-short ip4 ip four_long bytes

pub is_private_ip-reserved : (ip : Ip) → IsIp ip → is_private_ip ip ≡ reserved ip
is_private_ip-reserved ip (h, inl l) =
    let own = to_4-four ip l in is_private_ip-short ip ip l h ∙ ap (λ o. reserved_of o ip) (sym own)
is_private_ip-reserved ip (h, inr l) = elim (Option-cases (to_4 ip)) [
  | inl e ↦ is_private_ip-long ip l h e ∙ ap (λ o. reserved_of o ip) (sym e)
  | inr (ip4, e) ↦ is_private_ip-mapped ip ip4 l h e ∙ ap (λ o. reserved_of o ip) (sym e)
]
