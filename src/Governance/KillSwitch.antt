-- ===== src/Governance/KillSwitch.antt =====
-- internal/governance/killswitch.go. The clock is an argument; log lines are not modelled.
use nexixai_agentos.Prelude.{string_key}
use nexixai_agentos.Prelude.{
  ℕ, String, Bool, true, false, Option, none, some, List, [], map, if◌then◌else◌, is_some,
}
use nexixai_agentos.Prelude.Dict.{Dict, get, put, remove}

pub record FreezeRecord : Type 0 where
  pub agent_id : String
  pub reason : String
  pub frozen_by : String
  pub frozen_at : ℕ

pub record KillSwitch : Type 0 where
  pub frozen : Dict String FreezeRecord

unfoldable pub new_kill_switch : KillSwitch
new_kill_switch = record { frozen = [] }

unfoldable pub freeze : KillSwitch → String → String → String → ℕ → KillSwitch
freeze ks agent reason frozen_by now = record {
  frozen =
      put ks.frozen agent
        (record { agent_id = agent; reason = reason; frozen_by = frozen_by; frozen_at = now });
}

unfoldable pub unfreeze : KillSwitch → String → KillSwitch
unfreeze ks agent =
    if is_some (get ks.frozen agent) then record { frozen = remove ks.frozen agent } else ks

abbrev frozen_reason : Option FreezeRecord → Bool × String
frozen_reason none = (false, "")
frozen_reason (some rec) = (true, rec.reason)

unfoldable pub is_frozen : KillSwitch → String → Bool × String
is_frozen ks agent = frozen_reason (get ks.frozen agent)

unfoldable pub list_frozen : KillSwitch → List FreezeRecord
list_frozen ks = map (λ e. e.1) ks.frozen
