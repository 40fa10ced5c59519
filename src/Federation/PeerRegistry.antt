-- ===== src/Federation/PeerRegistry.antt =====
-- federation/peer_registry.go, the registry's maps. Of a peer's answer to a health check, the model
-- has what the HTTP client gives: an error or a status code, and the latency.
pub mod Health
use nexixai_agentos.Prelude.{string_key}
use nexixai_agentos.Prelude.{
  ℕ, String, Bool, true, false, Option, none, some, List, [], ◌∷◌, ◌==◌, if◌then◌else◌, eqb,
  is_some,
}
use nexixai_agentos.Prelude.Dict.{Dict, get, put, remove}

pub record Endpoints : Type 0 where
  pub agent_orchestrator_base_url : String
  pub model_policy_base_url : String

pub record Build : Type 0 where
  pub version : String
  pub git_sha : String
  pub timestamp : String

pub record PeerInfo : Type 0 where
  pub stack_id : String
  pub environment : String
  pub region : String
  pub api_versions : List String
  pub endpoints : Endpoints
  pub build : Build

pub record PeersFile : Type 0 where
  pub local : PeerInfo
  pub peers : List PeerInfo

-- LastError is empty, the client's error, or a bad status.
pub data CheckError : Type 0 where
  no_error : CheckError
  client_error : String → CheckError
  bad_status : ℕ → CheckError

pub record PeerHealth : Type 0 where
  pub healthy : Bool
  pub last_check : ℕ
  pub last_error : CheckError
  pub latency : ℕ

pub record Registry : Type 0 where
  pub local : PeerInfo
  pub peers : Dict String PeerInfo
  pub health : Dict String PeerHealth

abbrev overridden : String → String → String
overridden value old = if value == "" then old else value

-- The loop over the file's peers.
abbrev pub add_all : Dict String PeerInfo → List PeerInfo → Dict String PeerInfo
add_all peers [] = peers
add_all peers (p ∷ ps) =
    if p.stack_id == "" then add_all peers ps else add_all (put peers p.stack_id p) ps

-- LoadRegistryFromEnv for a file that was read and decoded, with the environment's stack id,
-- environment and region, trimmed.
unfoldable pub load_registry : PeersFile → String → String → String → Registry
load_registry file stack_id environment region = record {
  local = record file.local {
    stack_id = overridden stack_id file.local.stack_id;
    environment = overridden environment file.local.environment;
    region = overridden region file.local.region;
  };
  peers = add_all [] file.peers;
  health = [];
}

unfoldable pub peer : Registry → String → Option PeerInfo
peer r stack_id = get r.peers stack_id

-- &PeerHealth{}
abbrev pub unchecked : PeerHealth
unchecked = record { healthy = false; last_check = 0; last_error = no_error; latency = 0 }

abbrev pub tracked : Dict String PeerHealth → String → Dict String PeerHealth
tracked health stack_id =
    if is_some (get health stack_id) then health else put health stack_id unchecked

unfoldable pub add_peer : Registry → PeerInfo → Registry
add_peer r p =
    if p.stack_id == ""
    then r
    else record r { peers = put r.peers p.stack_id p; health = tracked r.health p.stack_id }

unfoldable pub remove_peer : Registry → String → Registry
remove_peer r stack_id = record r {
  peers = remove r.peers stack_id;
  health = remove r.health stack_id;
}

abbrev pub values : Dict String PeerInfo → List PeerInfo
values [] = []
values ((sid, p) ∷ peers) = p ∷ values peers

unfoldable pub list : Registry → List PeerInfo
list r = values r.peers

abbrev pub is_healthy : Option PeerHealth → Bool
is_healthy none = false
is_healthy (some h) = h.healthy

abbrev pub healthy_of : Dict String PeerHealth → Dict String PeerInfo → List PeerInfo
healthy_of health [] = []
healthy_of health ((sid, p) ∷ peers) =
    if is_healthy (get health sid) then p ∷ healthy_of health peers else healthy_of health peers

unfoldable pub healthy_peers : Registry → List PeerInfo
healthy_peers r = healthy_of r.health r.peers

unfoldable pub get_health : Registry → String → Option PeerHealth
get_health r stack_id = get r.health stack_id

unfoldable pub update_health : Registry → String → Bool → CheckError → ℕ → ℕ → Registry
update_health r stack_id healthy error latency now = record r {
  health =
      put r.health stack_id
        (record { healthy = healthy; last_check = now; last_error = error; latency = latency });
}

-- What a health check meets: a request that cannot be built, a failed request, or a response.
pub data Answer : Type 0 where
  bad_request : String → Answer
  failed : String → ℕ → Answer
  responded : ℕ → ℕ → Answer

unfoldable pub check_peer : Registry → PeerInfo → Answer → ℕ → Registry
check_peer r p (bad_request error) now = update_health r p.stack_id false (client_error error) 0 now
check_peer r p (failed error latency) now =
    update_health r p.stack_id false (client_error error) latency now
check_peer r p (responded status latency) now =
    let healthy = eqb status 200 in
    update_health r p.stack_id healthy (if healthy then no_error else bad_status status) latency now

-- One round of checkAllPeers, on the peers as they were at its start.
abbrev pub check_each : Registry → List PeerInfo → (PeerInfo → Answer) → ℕ → Registry
check_each r [] answer now = r
check_each r (p ∷ ps) answer now = check_each (check_peer r p (answer p) now) ps answer now

unfoldable pub check_all_peers : Registry → (PeerInfo → Answer) → ℕ → Registry
check_all_peers r answer now = check_each r (list r) answer now
