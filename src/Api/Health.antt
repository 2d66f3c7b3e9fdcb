-- ===== src/Api/Health.antt =====
-- app/api/health.py and `ping` of app/db/pool.py. What the server does with the probe is a parameter.
use corebank_api.Prelude.{refl, arith, ◌≢◌, ◌↔◌, ◌≡◌, String, Bool, true}
use corebank_api.Errors.{ok, err, Exception}
use corebank_api.Database.Uow.{Action, World, get_connection, close}
use corebank_api.Security.{Reply, success}

-- What becomes of a probe: no connection can be had, the statement fails, or it is answered.
pub data Probe : Type 0 where
  no_connection : Exception → Probe
  no_answer : Exception → Probe
  answered : Probe

-- `ping`
unfoldable pub ping : Probe → Action Bool
unfolding get_connection close
ping (no_connection x) w = (err x, w)
ping (no_answer x) w = (err x, close (get_connection w))
ping answered w = (ok true, close (get_connection w))

-- `health`
abbrev pub health : Reply String
health = success 200 "ok"

-- `ready`
unfoldable pub ready : Probe → World → Reply String × World
unfolding ping
ready probe w =
    let (r, after_probe) = ping probe w in
    elim r [
      | ok _ ↦ (success 200 "ready", after_probe)
      | err _ ↦ (success 503 "unavailable", after_probe)
    ]

-- The readiness probe never raises and returns the connection that it borrowed, and it answers 200
-- exactly when a connection could be had and the statement was answered, and 503 otherwise.
pub ready_ends :
    (probe : Probe) (w : World)
    → ((ready probe w).1 ≡ w)
      × (((ready probe w).0 ≡ success 200 "ready") ↔ (probe ≡ answered))
      × (((ready probe w).0 ≡ success 503 "unavailable") ↔ (probe ≢ answered))
unfolding ready get_connection close
ready_ends (no_connection x) w =
    (refl, ((λ h. absurd (ground arith)), (λ h. cc)), ((λ h. λ k. cc), (λ h. refl)))
ready_ends (no_answer x) w =
    (ground arith, ((λ h. absurd (ground arith)), (λ h. cc)), ((λ h. λ k. cc), (λ h. refl)))
ready_ends answered w = (
  ground arith,
  ((λ h. refl), (λ h. refl)),
  ((λ h. absurd (ground arith)), (λ h. absurd (h refl))),
)
