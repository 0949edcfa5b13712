-- ===== src/Config/Merge.antt =====
-- Merging a patch.
use digitalocean.Base.{
  ℕ, ◌≤◌, ◌≡◌, Bool, true, ◌&&◌, Option, none, some, leb, or_else, arith, ap, Bool-cases, inl, inr,
  some_inj, subst, ◌∙◌,
}
use digitalocean.Models.{RuntimeConfig, RuntimeConfigPatch}
use digitalocean.Config.{
  seconds, is_duration, in_bounds, validate, overlay, clamp, lower_timeout, lower_backoff,
  merge_runtime_config, store_patch,
}

-- A field of a patch is left open, or is within the bounds of the field.
abbrev pub is_field : (ℕ → Bool) → Option ℕ → Bool
is_field ok none = true
is_field ok (some n) = ok n

-- The bounds of `RuntimeConfigPatch`.
unfoldable pub patch_in_bounds : RuntimeConfigPatch → Bool
patch_in_bounds p =
    is_field (λ n. leb n 20) p.default_max_retries
    && (is_field (is_duration (seconds 3600)) p.default_timeout_seconds
        && (is_field (is_duration (seconds 3600)) p.max_timeout_seconds
            && (is_field (λ n. leb 1 n && leb n 64) p.worker_concurrency
                && (is_field (is_duration (seconds 60)) p.backoff_base_seconds
                    && is_field (is_duration (seconds 600)) p.backoff_max_seconds))))

-- The two limits that the fields of a configuration put on each other.
abbrev pub IsCoherent : RuntimeConfig → Type 0
IsCoherent c =
    (c.default_timeout_seconds ≤ c.max_timeout_seconds)
    × (c.backoff_base_seconds ≤ c.backoff_max_seconds)

or_else-field :
    (test : ℕ → Bool) (o : Option ℕ) (d : ℕ)
    → is_field test o ≡ true
    → test d ≡ true
    → test (or_else o d) ≡ true
or_else-field test none d h e = e
or_else-field test (some n) d h e = h

overlay-in_bounds :
    (c : RuntimeConfig) (p : RuntimeConfigPatch)
    → in_bounds c ≡ true
    → patch_in_bounds p ≡ true
    → in_bounds (overlay c p) ≡ true
unfolding in_bounds patch_in_bounds
overlay-in_bounds c p v w = rw (
  or_else-field (λ n. leb n 20) p.default_max_retries c.default_max_retries (ground arith)
      (ground arith),
  or_else-field (is_duration (seconds 3600)) p.default_timeout_seconds c.default_timeout_seconds
      (ground arith) (ground arith),
  or_else-field (is_duration (seconds 3600)) p.max_timeout_seconds c.max_timeout_seconds
      (ground arith) (ground arith),
  or_else-field (λ n. leb 1 n && leb n 64) p.worker_concurrency c.worker_concurrency (ground arith)
      (ground arith),
  or_else-field (is_duration (seconds 60)) p.backoff_base_seconds c.backoff_base_seconds
      (ground arith) (ground arith),
  or_else-field (is_duration (seconds 600)) p.backoff_max_seconds c.backoff_max_seconds
      (ground arith) (ground arith),
)

clamp-in_bounds : (c : RuntimeConfig) → in_bounds c ≡ true → in_bounds (clamp c) ≡ true
unfolding in_bounds
clamp-in_bounds c v = ground arith

-- A patch within its bounds of a configuration within its bounds is not refused: the result is the
-- clamped overlay, it is within the bounds, its default timeout is at most its maximal timeout and
-- its base backoff at most its maximal backoff.
pub merge_runtime_config_total :
    (c : RuntimeConfig) (p : RuntimeConfigPatch)
    → in_bounds c ≡ true
    → patch_in_bounds p ≡ true
    → (merge_runtime_config c p ≡ some (clamp (overlay c p)))
      × (in_bounds (clamp (overlay c p)) ≡ true)
      × IsCoherent (clamp (overlay c p))
unfolding merge_runtime_config
merge_runtime_config_total c p v w =
    let good = clamp-in_bounds (overlay c p) (overlay-in_bounds c p v w) in
    (rw good, good, (omega arith, omega arith))

pub clamp-lower : (c : RuntimeConfig) → lower_backoff (lower_timeout c) ≡ clamp c
clamp-lower c = ground arith

-- The store in memory and the merge for the database answer the same configuration, or refuse
-- alike, for every configuration and every patch.
pub store_patch-merge_runtime_config :
    (c : RuntimeConfig) (p : RuntimeConfigPatch) → (store_patch c p).1 ≡ merge_runtime_config c p
unfolding store_patch merge_runtime_config
store_patch-merge_runtime_config c p = ap validate (clamp-lower (overlay c p))

-- A valid configuration is within the bounds, and is its own view.
pub validate-some : (c d : RuntimeConfig) → validate c ≡ some d → (c ≡ d) × (in_bounds d ≡ true)
validate-some c d e = elim (Bool-cases (in_bounds c)) [
  | inl good ↦
      let same : c ≡ d = some_inj (rw good at e) in
      (same, subst (λ x. in_bounds x ≡ true) same good)
  | inr bad ↦ absurd (let r : ◌≡◌ {A = Option RuntimeConfig} none (some d) = rw bad at e in cc)
]

clamp-overlay :
    (c : RuntimeConfig) (p : RuntimeConfigPatch)
    → clamp (overlay (clamp (overlay c p)) p) ≡ clamp (overlay c p)
clamp-overlay c p = ground arith

-- Where the merge of a patch answers a configuration, the merge of the same patch into that
-- configuration answers it again.
pub merge_runtime_config_idempotent :
    (c d : RuntimeConfig) (p : RuntimeConfigPatch)
    → merge_runtime_config c p ≡ some d
    → merge_runtime_config d p ≡ some d
unfolding merge_runtime_config
merge_runtime_config_idempotent c d p e =
    let (same, good) = validate-some (clamp (overlay c p)) d e in
    let again : clamp (overlay d p) ≡ d =
      subst (λ x. clamp (overlay x p) ≡ x) same (clamp-overlay c p) in
    ap validate again ∙ rw good
