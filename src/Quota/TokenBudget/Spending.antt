-- ===== src/Quota/TokenBudget/Spending.antt =====
-- The hourly budget as what each tenant has used (internal/quota/token_budget.go).
use nexixai_agentos.Prelude.{string_key}
use nexixai_agentos.Prelude.{
  ℕ, ◌+◌, ◌<◌, String, ◌≡◌, refl, ◌∙◌, sym, ap, ap₂, subst, false, Option, none, some, ◌==◌,
  if◌then◌else◌, ltb, leb, get_or, inl, inr, Bool-cases, Option-cases, ==_refl, arith,
}
use nexixai_agentos.Prelude.Dict.{get, remove, keep, get-put, get-remove, get-keep, kept}
use nexixai_agentos.Quota.TokenBudget.{
  hour, TokenWindow, Usage, TokenBudget, is_current, create_window, get_or_create_window, check,
  record_tokens,
}

-- What a tenant has used in the window of `now`. A tenant without a current window has used what
-- the store says.
abbrev pub used_of : Usage → String → ℕ → Option TokenWindow → ℕ
used_of usage tenant now none = get_or (usage tenant now) 0
used_of usage tenant now (some w) =
    if ltb w.window_end now then get_or (usage tenant now) 0 else w.tokens

abbrev pub used : Usage → TokenBudget → String → ℕ → ℕ
used usage tb tenant now = used_of usage tenant now (get tb.windows tenant)

used_of-kept :
    (usage : Usage) (tenant : String) (now : ℕ) (o : Option TokenWindow)
    → used_of usage tenant now (kept (is_current now) tenant o) ≡ used_of usage tenant now o
used_of-kept usage tenant now none = refl
used_of-kept usage tenant now (some w) = ground arith

-- A window at `now` shows the use of its tenant, and has not ended.
abbrev Shows : Usage → TokenBudget → String → ℕ → TokenBudget × TokenWindow → Type 0
Shows usage tb tenant now (tb', w) =
    (w.tokens ≡ used usage tb tenant now)
    × (ltb w.window_end now ≡ false)
    × (tb'.limit ≡ tb.limit)
    × ((other : String)
        → (tenant == other) ≡ false
        → used usage tb' other now ≡ used usage tb other now)

create_window-Shows :
    (usage : Usage) (tb : TokenBudget) (tenant : String) (now : ℕ)
    → get_or (usage tenant now) 0 ≡ used usage tb tenant now
    → Shows usage tb tenant now (create_window usage tb tenant now)
create_window-Shows usage tb tenant now h = (
  h,
  ground arith,
  refl,
  λ other ne.
      let w : TokenWindow = record {
        tokens = get_or (usage tenant now) 0;
        window_end = now + hour;
      } in
      rw
        (
          get-put (keep (is_current now) (remove tb.windows tenant)) tenant other w,
          ne,
          get-keep (is_current now) (remove tb.windows tenant) other,
          get-remove tb.windows tenant other,
          ne,
        )
        (used_of-kept usage other now (get tb.windows other)),
)

window-Shows :
    (usage : Usage) (tb : TokenBudget) (tenant : String) (now : ℕ)
    → Shows usage tb tenant now (get_or_create_window usage tb tenant now)
unfolding get_or_create_window
window-Shows usage tb tenant now = elim (Option-cases (get tb.windows tenant)) [
  | inl e ↦
      let found : get_or_create_window usage tb tenant now ≡ create_window usage tb tenant now =
        rw e refl in
      subst (Shows usage tb tenant now) (sym found)
        (create_window-Shows usage tb tenant now (rw e refl))
  | inr (w, e) ↦ elim (Bool-cases (ltb w.window_end now)) [
    | inl b ↦
        let found : get_or_create_window usage tb tenant now ≡ create_window usage tb tenant now =
          rw (e, b) refl in
        subst (Shows usage tb tenant now) (sym found)
          (create_window-Shows usage tb tenant now (rw (e, b) refl))
    | inr b ↦
        let found : get_or_create_window usage tb tenant now ≡ (tb, w) = rw (e, b) refl in
        subst (Shows usage tb tenant now) (sym found) (rw (e, b) refl, b, refl, λ other ne. refl)
  ]
]

-- Check says whether the tenant's use in its current window is below the limit, if there is one.
check-used :
    (usage : Usage) (tb : TokenBudget) (tenant : String) (now : ℕ)
    → 0 < tb.limit
    → (check usage tb tenant now).1 ≡ ltb (used usage tb tenant now) tb.limit
unfolding check
check-used usage tb tenant now h =
    let shown = window-Shows usage tb tenant now in ground (arith, shown.0)

record_tokens-limit :
    (usage : Usage) (tb : TokenBudget) (tenant : String) (tokens now : ℕ)
    → (record_tokens usage tb tenant tokens now).0.limit ≡ tb.limit
unfolding record_tokens
record_tokens-limit usage tb tenant tokens now =
    let shown = window-Shows usage tb tenant now in
    elim (Bool-cases (leb tb.limit 0)) [ inl b ↦ rw b refl | inr b ↦ rw b (shown.2) ]

used-record_tokens :
    (usage : Usage) (tb : TokenBudget) (tenant other : String) (tokens now : ℕ)
    → 0 < tb.limit
    → used usage (record_tokens usage tb tenant tokens now).0 other now
      ≡ (if tenant == other then used usage tb tenant now + tokens else used usage tb other now)
unfolding record_tokens
used-record_tokens usage tb tenant other tokens now h =
    let shown = window-Shows usage tb tenant now in
    let (tb', w) = get_or_create_window usage tb tenant now in
    let w' : TokenWindow = record w { tokens = w.tokens + tokens } in
    let limited : leb tb.limit 0 ≡ false = ground arith in
    elim (Bool-cases (tenant == other)) [
      | inl b ↦
          rw (limited, get-put tb'.windows tenant other w', b, shown.1)
            (ap (λ x. x + tokens) shown.0)
      | inr b ↦ rw (limited, get-put tb'.windows tenant other w', b) (shown.3 other b)
    ]

-- With a limit, Record answers whether the tenant's use in its current window stays within the limit
-- with the new tokens, and adds them to that use even if it does not. The use of every other
-- tenant is as before, whatever windows are swept. A Check that follows passes exactly while the
-- sum is below the limit. The use of a tenant without a current window is what the store
-- gives, or 0.
pub record_tokens-used :
    (usage : Usage) (tb : TokenBudget) (tenant : String) (tokens now : ℕ)
    → 0 < tb.limit
    → let after = (record_tokens usage tb tenant tokens now).0 in
      let sum = used usage tb tenant now + tokens in
      ((record_tokens usage tb tenant tokens now).1 ≡ leb sum tb.limit)
      × ((other : String)
          → used usage after other now ≡ (if tenant == other then sum else used usage tb other now))
      × ((check usage after tenant now).1 ≡ ltb sum tb.limit)
unfolding record_tokens
record_tokens-used usage tb tenant tokens now h =
    let after = (record_tokens usage tb tenant tokens now).0 in
    let shown = window-Shows usage tb tenant now in
    let same = record_tokens-limit usage tb tenant tokens now in
    let own = used-record_tokens usage tb tenant tenant tokens now h in
    let sum : used usage after tenant now ≡ used usage tb tenant now + tokens =
      own ∙ rw (==_refl tenant) refl in
    (
      ground (arith, shown.0),
      λ other. used-record_tokens usage tb tenant other tokens now h,
      check-used usage after tenant now (subst (λ l. 0 < l) (sym same) h) ∙ ap₂ ltb sum same,
    )
