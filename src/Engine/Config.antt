-- ===== src/Engine/Config.antt =====
-- BuildConfig, DefaultBuildConfig and envInt64 of backend/usecase/buildengine.go.
use saki_cli.Base.{
  ℕ, ◌+◌, ◌-◌, ◌*◌, ◌^◌, ◌≤◌, ◌<◌, ◌≡◌, Bool, not, ◌&&◌, Option, none, some, [], ◌∷◌, arith, leb,
  ◌==◌, if◌then◌else◌, Text, codes, same,
}

pub record BuildConfig : Type 0 where
  pub max_build_resumes : ℕ
  pub resume_base_ms : ℕ
  pub max_backoff_ms : ℕ
  pub no_progress_limit : ℕ
  pub max_wall_ms : ℕ
  pub limit_wait_ms : ℕ
  pub stall_ms : ℕ
  pub auto_push : Bool

abbrev pub max_spawn_retries : ℕ
max_spawn_retries = 3

abbrev pub stall_sigkill_grace_ms : ℕ
stall_sigkill_grace_ms = 30 * 1000

-- The digits of strconv.ParseInt in base 10: none on another character or on no digit.
unfoldable pub parse_digits : Text → ℕ → Option ℕ
parse_digits [] n = some n
parse_digits (c ∷ s) n =
    let rest = parse_digits s (n * 10 + (c - b'0')) in
    if leb b'0' c && leb c b'9' then rest else none

abbrev in_range : ℕ → Option ℕ → Option ℕ
in_range most none = none
in_range most (some n) = if leb n most then some n else none

-- A value that is not negative; a minus sign is an error here too, for envInt64 falls back on it,
-- but for -0.
unfoldable pub parse_natural : Text → Option ℕ
unfolding parse_digits
parse_natural [] = none
parse_natural (c ∷ []) = in_range (2 ^ 63 - 1) (parse_digits (c ∷ []) 0)
parse_natural (c ∷ d ∷ s) =
    if c == b'+'
    then in_range (2 ^ 63 - 1) (parse_digits (d ∷ s) 0)
    else if c == b'-'
    then in_range 0 (parse_digits (d ∷ s) 0)
    else in_range (2 ^ 63 - 1) (parse_digits (c ∷ d ∷ s) 0)

abbrev with_default : ℕ → Option ℕ → ℕ
with_default fallback none = fallback
with_default fallback (some n) = n

-- os.Getenv is the first argument.
unfoldable pub env_int64 : (Text → Text) → Text → ℕ → ℕ
unfolding parse_natural
env_int64 getenv name fallback = with_default fallback (parse_natural (getenv name))

unfoldable pub default_build_config : (Text → Text) → BuildConfig
unfolding env_int64
default_build_config getenv = record {
  max_build_resumes = env_int64 getenv (codes "SAKI_MAX_BUILD_RESUMES") 40;
  resume_base_ms = env_int64 getenv (codes "SAKI_RESUME_DELAY_MS") 5000;
  max_backoff_ms = 300_000;
  no_progress_limit = 3;
  max_wall_ms = env_int64 getenv (codes "SAKI_BUILD_MAX_WALL_MS") (6 * 60 * 60 * 1000);
  limit_wait_ms = env_int64 getenv (codes "SAKI_BUILD_LIMIT_WAIT_MS") (60 * 60 * 1000);
  stall_ms = env_int64 getenv (codes "SAKI_BUILD_STALL_MS") (30 * 60 * 1000);
  auto_push = not (same (getenv (codes "SAKI_BUILD_AUTOPUSH")) (codes "0"));
}

parse_digits-le : (most : ℕ) (o : Option ℕ) {n : ℕ} → in_range most o ≡ some n → n ≤ most
parse_digits-le most none h = cc
parse_digits-le most (some m) h = ground arith

-- What a variable sets is an int64 that is not negative, so is the fallback.
pub env_int64_bounds :
    (getenv : Text → Text) (name : Text) (fallback : ℕ)
    → fallback < 2 ^ 63
    → env_int64 getenv name fallback < 2 ^ 63
unfolding env_int64
env_int64_bounds getenv name fallback h = parsed (getenv name)
  where
    parsed : (s : Text) → with_default fallback (parse_natural s) < 2 ^ 63
    parsed [] = h
    parsed (c ∷ []) = ground (arith, h)
    parsed (c ∷ d ∷ s) = ground (arith, h)
