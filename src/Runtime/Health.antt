-- ===== src/Runtime/Health.antt =====
-- backend/app/api/health.py: the readiness probe.
use organization_ai.Base.{ℕ, Bool, true, false, String, List, [], ◌∷◌}
use organization_ai.Base.Result.{Result, ok, err}
use organization_ai.Runtime.Settings.{Source}
use organization_ai.Runtime.Process.{RuntimeError, Process, build_engine}

-- `JSONResponse(status_code=…, content=…)`, of an object of texts
pub record HealthResponse : Type 0 where
  pub status_code : ℕ
  pub content : List (String × String)

abbrev pub unreachable : HealthResponse
unreachable = record {
  status_code = 503;
  content = ("status", "degraded") ∷ ("database", "unreachable") ∷ [];
}

abbrev pub reachable : HealthResponse
reachable = record {
  status_code = 200;
  content = ("status", "ok") ∷ ("database", "reachable") ∷ [];
}

-- The engine connects, and executes `SELECT 1`, each without raising.
module _ {E : Type 0} (create_engine : String → Bool → Result String E)
    (select_one : E → Bool) where
  unfoldable pub probe : Result RuntimeError E → HealthResponse
  probe (err raised) = unreachable
  probe (ok e) = elim (select_one e) [ true ↦ reachable | false ↦ unreachable ]

  -- `health`: every exception is caught
  unfoldable pub health : Source → Process E → HealthResponse × Process E
  unfolding build_engine probe
  health source p = let built = build_engine create_engine source p in (probe built.0, built.1)
