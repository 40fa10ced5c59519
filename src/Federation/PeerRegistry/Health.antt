-- ===== src/Federation/PeerRegistry/Health.antt =====
-- What a round of health checks leaves (federation/peer_registry.go, checkAllPeers, GetHealth).
use nexixai_agentos.Prelude.{string_key}
use nexixai_agentos.Prelude.{
  ℕ, String, ◌≡◌, refl, sym, ◌∙◌, subst, true, false, Option, none, some, List, [], ◌∷◌, ◌==◌,
  if◌then◌else◌, eqb, All, inl, inr, Bool-cases,
}
use nexixai_agentos.Prelude.Dict.{Dict, get, put, remove, get-put}
use nexixai_agentos.Prelude.Apart.{IsApart, IsApart-put, IsApart-remove}
use nexixai_agentos.Federation.PeerRegistry.{
  PeerInfo, PeersFile, no_error, client_error, bad_status, PeerHealth, Registry, add_all,
  load_registry, peer, add_peer, remove_peer, values, list, get_health, update_health, Answer,
  bad_request, failed, responded, check_peer, check_each, check_all_peers,
}

-- What a check records: a peer is healthy if it responded with status 200.
abbrev pub outcome : Answer → ℕ → PeerHealth
outcome (bad_request error) now = record {
  healthy = false;
  last_check = now;
  last_error = client_error error;
  latency = 0;
}
outcome (failed error latency) now = record {
  healthy = false;
  last_check = now;
  last_error = client_error error;
  latency = latency;
}
outcome (responded status latency) now = record {
  healthy = eqb status 200;
  last_check = now;
  last_error = if eqb status 200 then no_error else bad_status status;
  latency = latency;
}

-- Each peer stands under its own stack id.
abbrev pub IsKeyed : Dict String PeerInfo → Type 0
IsKeyed m = IsApart m × All (λ e. e.1.stack_id ≡ e.0) m

All-put :
    (m : Dict String PeerInfo) (p : PeerInfo)
    → All (λ e. e.1.stack_id ≡ e.0) m
    → All (λ e. e.1.stack_id ≡ e.0) (put m p.stack_id p)
unfolding put
All-put [] p h = (refl, tt)
All-put ((k, q) ∷ m) p h = elim (Bool-cases (k == p.stack_id)) [
  | inl b ↦ rw b (refl, h.1)
  | inr b ↦ rw b (h.0, All-put m p h.1)
]

All-remove :
    (m : Dict String PeerInfo) (k : String)
    → All (λ e. e.1.stack_id ≡ e.0) m
    → All (λ e. e.1.stack_id ≡ e.0) (remove m k)
unfolding remove
All-remove [] k h = tt
All-remove ((j, q) ∷ m) k h = elim (Bool-cases (j == k)) [
  | inl b ↦ rw b (All-remove m k h.1)
  | inr b ↦ rw b (h.0, All-remove m k h.1)
]

pub data Step : Type 0 where
  adding : PeerInfo → Step
  removing : String → Step
  checking : (PeerInfo → Answer) → ℕ → Step

abbrev pub step : Registry → Step → Registry
step r (adding p) = add_peer r p
step r (removing k) = remove_peer r k
step r (checking answer now) = check_all_peers r answer now

abbrev pub run : Registry → List Step → Registry
run r [] = r
run r (s ∷ steps) = run (step r s) steps

check_peer-health :
    (r : Registry) (p : PeerInfo) (a : Answer) (now : ℕ)
    → (check_peer r p a now).health ≡ put r.health p.stack_id (outcome a now)
unfolding check_peer update_health
check_peer-health r p (bad_request error) now = refl
check_peer-health r p (failed error latency) now = refl
check_peer-health r p (responded status latency) now = refl

check_peer-peers :
    (r : Registry) (p : PeerInfo) (a : Answer) (now : ℕ) → (check_peer r p a now).peers ≡ r.peers
unfolding check_peer update_health
check_peer-peers r p (bad_request error) now = refl
check_peer-peers r p (failed error latency) now = refl
check_peer-peers r p (responded status latency) now = refl

check_each-peers :
    (ps : List PeerInfo) (r : Registry) (answer : PeerInfo → Answer) (now : ℕ)
    → (check_each r ps answer now).peers ≡ r.peers
check_each-peers [] r answer now = refl
check_each-peers (p ∷ ps) r answer now =
    check_each-peers ps (check_peer r p (answer p) now) answer now
    ∙ check_peer-peers r p (answer p) now

-- The health of a stack after a round: that of its peer's check, or as before.
abbrev pub after_check :
    (PeerInfo → Answer) → ℕ → Option PeerInfo → Option PeerHealth → Option PeerHealth
after_check answer now none before = before
after_check answer now (some p) before = some (outcome (answer p) now)

get-check_each :
    (m : Dict String PeerInfo) (r : Registry) (answer : PeerInfo → Answer) (now : ℕ) (k : String)
    → IsKeyed m
    → get (check_each r (values m) answer now).health k
      ≡ after_check answer now (get m k) (get r.health k)
unfolding get
get-check_each [] r answer now k h = refl
get-check_each ((j, p) ∷ m) r answer now k h =
    let ih = get-check_each m (check_peer r p (answer p) now) answer now k (h.0.1, h.1.1) in
    let same : p.stack_id ≡ j = h.1.0 in
    let put_p = get-put r.health p.stack_id k (outcome (answer p) now) in
    elim (Bool-cases (j == k)) [
      | inl b ↦
          let absent : get m k ≡ none = rw (← (string_key.same_iff j k).0 b) (h.0.0) in
          let b' : (p.stack_id == k) ≡ true = rw same b in
          rw (ih, b, absent, check_peer-health r p (answer p) now, put_p, b') refl
      | inr b ↦
          let b' : (p.stack_id == k) ≡ false = rw same b in
          rw (ih, b, check_peer-health r p (answer p) now, put_p, b') refl
    ]

add_all-IsKeyed :
    (ps : List PeerInfo) (m : Dict String PeerInfo) → IsKeyed m → IsKeyed (add_all m ps)
add_all-IsKeyed [] m h = h
add_all-IsKeyed (p ∷ ps) m h = elim (Bool-cases (p.stack_id == "")) [
  | inl b ↦ rw b (add_all-IsKeyed ps m h)
  | inr b ↦
      rw b
        (add_all-IsKeyed ps (put m p.stack_id p) (IsApart-put m p.stack_id p h.0, All-put m p h.1))
]

step-IsKeyed : (r : Registry) (s : Step) → IsKeyed r.peers → IsKeyed (step r s).peers
unfolding add_peer remove_peer check_all_peers
step-IsKeyed r (adding p) h = elim (Bool-cases (p.stack_id == "")) [
  | inl b ↦ rw b h
  | inr b ↦ rw b (IsApart-put r.peers p.stack_id p h.0, All-put r.peers p h.1)
]
step-IsKeyed r (removing k) h = (IsApart-remove r.peers k h.0, All-remove r.peers k h.1)
step-IsKeyed r (checking answer now) h =
    subst IsKeyed (sym (check_each-peers (list r) r answer now)) h

run-IsKeyed : (steps : List Step) (r : Registry) → IsKeyed r.peers → IsKeyed (run r steps).peers
run-IsKeyed [] r h = h
run-IsKeyed (s ∷ steps) r h = run-IsKeyed steps (step r s) (step-IsKeyed r s h)

loaded-IsKeyed :
    (file : PeersFile) (id environment region : String)
    → IsKeyed (load_registry file id environment region).peers
unfolding load_registry
loaded-IsKeyed file id environment region = add_all-IsKeyed file.peers [] (tt, tt)

-- A registry was loaded from a peers file, then went through any additions and removals of peers
-- and rounds of health checks. After one more round the health of each registered peer is what
-- its own check recorded: healthy exactly if it responded with status 200. The health kept for a
-- stack that is no peer is as before the round.
pub get_health-check_all_peers :
    (file : PeersFile) (id environment region : String) (steps : List Step)
    (answer : PeerInfo → Answer) (now : ℕ) (k : String)
    → let r = run (load_registry file id environment region) steps in
      get_health (check_all_peers r answer now) k
      ≡ after_check answer now (peer r k) (get_health r k)
unfolding get_health check_all_peers list peer
get_health-check_all_peers file id environment region steps answer now k =
    let r = run (load_registry file id environment region) steps in
    get-check_each r.peers r answer now k
      (run-IsKeyed steps _ (loaded-IsKeyed file id environment region))
