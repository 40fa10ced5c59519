-- ===== src/Quota/TokenBudget.antt =====
-- internal/quota/token_budget.go. The store is optional: it answers what a tenant used in the hour
-- of a time, or fails; what it does with a recorded use is outside. A limit of at most 0 is the
-- limit 0. Times are nanoseconds of a clock that does not run backwards.
pub mod Spending
use nexixai_agentos.Prelude.{string_key}
use nexixai_agentos.Prelude.{
  ℕ, ◌+◌, ◌-◌, ◌*◌, String, Bool, true, false, not, Option, none, some, ◌∷◌, [], ◌||◌,
  if◌then◌else◌, ltb, leb, eqb, get_or,
}
use nexixai_agentos.Prelude.Dict.{Dict, get, put, remove, keep}

abbrev pub hour : ℕ
hour = 3600 * 1_000_000_000

pub record TokenWindow : Type 0 where
  pub tokens : ℕ
  pub window_end : ℕ

-- HourlyUsage of the attached store; none if there is no store or it fails.
abbrev pub Usage : Type 0
Usage = String → ℕ → Option ℕ

pub record TokenBudget : Type 0 where
  pub windows : Dict String TokenWindow
  pub limit : ℕ

unfoldable pub new_token_budget : ℕ → TokenBudget
new_token_budget limit = record { windows = []; limit = limit }

abbrev is_current : ℕ → String → TokenWindow → Bool
is_current now tenant w = not (ltb w.window_end now)

abbrev create_window : Usage → TokenBudget → String → ℕ → TokenBudget × TokenWindow
create_window usage tb tenant now =
    let w : TokenWindow = record {
      tokens = get_or (usage tenant now) 0;
      window_end = now + hour;
    } in
    (record tb { windows = put (keep (is_current now) (remove tb.windows tenant)) tenant w }, w)

abbrev window_or_new :
    Usage → TokenBudget → String → ℕ → Option TokenWindow → TokenBudget × TokenWindow
window_or_new usage tb tenant now none = create_window usage tb tenant now
window_or_new usage tb tenant now (some w) =
    if ltb w.window_end now then create_window usage tb tenant now else (tb, w)

-- The window of a tenant at `now`, created anew if there is none or it has ended.
unfoldable pub get_or_create_window : Usage → TokenBudget → String → ℕ → TokenBudget × TokenWindow
get_or_create_window usage tb tenant now = window_or_new usage tb tenant now (get tb.windows tenant)

unfoldable pub check : Usage → TokenBudget → String → ℕ → TokenBudget × Bool
check usage tb tenant now =
    let (tb', w) = get_or_create_window usage tb tenant now in
    if leb tb.limit 0 then (tb, true) else (tb', ltb w.tokens tb.limit)

-- None for the answer -1, without a limit.
unfoldable pub remaining : Usage → TokenBudget → String → ℕ → TokenBudget × Option ℕ
remaining usage tb tenant now =
    let (tb', w) = get_or_create_window usage tb tenant now in
    if leb tb.limit 0 then (tb, none) else (tb', some (tb.limit - w.tokens))

unfoldable pub record_tokens : Usage → TokenBudget → String → ℕ → ℕ → TokenBudget × Bool
record_tokens usage tb tenant tokens now =
    let (tb', w) = get_or_create_window usage tb tenant now in
    let used = w.tokens + tokens in
    if leb tb.limit 0 then (tb, true) else (
      record tb' { windows = put tb'.windows tenant (record w { tokens = used }) },
      leb used tb.limit,
    )
