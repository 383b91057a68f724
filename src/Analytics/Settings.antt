-- ===== src/Analytics/Settings.antt =====
-- analytics/common/config.py: the checks of `settings`, from the values that it reads from the file and
-- the environment.
use tikblog_unsubscribe_plat.Base.{ℕ, ◌<◌, ◌≤◌, ◌≡◌, subst, inl, inr, arith}
use tikblog_unsubscribe_plat.Base.Tests.{ltb, Bool-cases, if◌then◌else◌}
use tikblog_unsubscribe_plat.Base.Errors.{Result, ok, raised, exn, Exn, value_error}

pub record Settings : Type 0 where
  pub vacuum_retention_hours : ℕ
  pub merge_attempts : ℕ

unfoldable pub checked_settings : Settings → Result Settings
checked_settings cfg =
    if ltb cfg.vacuum_retention_hours 168
    then raised (exn value_error "VACUUM retention must be at least 168 hours")
    else if ltb cfg.merge_attempts 1
    then raised (exn value_error "merge_attempts must be positive")
    else ok cfg

-- Settings that are accepted allow an attempt for every write.
pub checked_settings-accepted :
    (cfg accepted : Settings)
    → checked_settings cfg ≡ ok accepted
    → (0 < accepted.merge_attempts) × (168 ≤ accepted.vacuum_retention_hours)
unfolding checked_settings
checked_settings-accepted cfg accepted h = elim (Bool-cases (ltb cfg.vacuum_retention_hours 168)) [
  | inl short ↦ absurd (refused (rw (short) at h))
  | inr long ↦ elim (Bool-cases (ltb cfg.merge_attempts 1)) [
    | inl none ↦ absurd (refused (rw (long, none) at h))
    | inr some ↦
        let same : ok cfg ≡ ok accepted = rw (long, some) at h in
        let equal : cfg ≡ accepted = cc in
        subst (λ c. (0 < c.merge_attempts) × (168 ≤ c.vacuum_retention_hours)) equal
          (ground arith, ground arith)
  ]
]
  where
    refused : {e : Exn} {c : Settings} → raised e ≡ ok c → ⊥
    refused e = cc
