-- ===== src/Outcome/Limit.antt =====
-- DetectLimit, limitScanText and parseResetAt of backend/usecase/buildclass.go. Local time is the
-- host's: the instant of a clock time on the day of `now`, and the same clock time a day later, are
-- the parameters.
use saki_cli.Base.{
  ℕ, ◌+◌, ◌-◌, ◌*◌, ◌<◌, ◌≡◌, inl, inr, Bool, false, ◌&&◌, ◌||◌, Option, none, some, List, [], ◌∷◌,
  ◌++◌, arith, ltb, leb, ◌==◌, if◌then◌else◌, Option-cases, Text, codes, has_prefix, contains,
  to_lower, is_space, drop_while, join_lines, drop, any,
}
use saki_cli.Json.{◌>>=◌, or_else}
use saki_cli.Stream.Ndjson.{ParsedLine, json, raw}
use saki_cli.Stream.Spoken.{final_spoken_text}
use saki_cli.Outcome.Sentinels.{anchored, on_some_line}

pub record LocalTime : Type 0 where
  -- time.Date(…, hour, minute, …) on the local day of now: now, hour, minute.
  pub clock_at : ℕ → ℕ → ℕ → ℕ
  -- AddDate(0, 0, 1)
  pub next_day : ℕ → ℕ

pub data LimitSignal : Type 0 where
  auth_error : LimitSignal
  usage_limit : Option ℕ → LimitSignal

unfoldable pub raw_texts : List ParsedLine → List Text
raw_texts [] = []
raw_texts (raw t ∷ ls) = t ∷ raw_texts ls
raw_texts (json v ∷ ls) = raw_texts ls

abbrev pub final_parts : Option Text → List Text
final_parts none = []
final_parts (some t) = t ∷ []

unfoldable pub limit_scan_text : List ParsedLine → Text
unfolding raw_texts final_spoken_text join_lines
limit_scan_text ls = join_lines (raw_texts ls ++ final_parts (final_spoken_text ls))

-- please run\s+/login, on lower-case text.
login_word : Text → Bool
unfolding has_prefix drop_while
login_word s = has_prefix (codes "please run") s && elim (drop 10 s) [
  | [] ↦ false
  | c ∷ r ↦ is_space c && has_prefix (codes "/login") (drop_while is_space r)
]

somewhere : (Text → Bool) → Text → Bool
somewhere p [] = p []
somewhere p (c ∷ s) = p (c ∷ s) || somewhere p s

-- authErrorRe.
unfoldable pub is_auth_error : Text → Bool
unfolding to_lower contains login_word somewhere
is_auth_error s =
    let t = to_lower s in
    contains (codes "authentication_error") t
    || contains (codes "invalid x-api-key") t
    || contains (codes "invalid api key") t
    || contains (codes "oauth token revoked") t
    || contains (codes "oauth token expired") t
    || somewhere login_word t

limit_word : Text → Bool
unfolding has_prefix
limit_word s =
    any (λ p. has_prefix p s)
      (codes "you've hit your session limit"
        ∷ codes "you've hit your usage limit"
        ∷ codes "you've hit your account limit"
        ∷ codes "you have hit your session limit"
        ∷ codes "you have hit your usage limit"
        ∷ codes "you have hit your account limit"
        ∷ codes "claude usage limit reached"
        ∷ codes "usage limit reached"
        ∷ [])

-- usageLimitRe.
unfoldable pub is_usage_limit : Text → Bool
unfolding to_lower anchored limit_word
is_usage_limit s = on_some_line limit_word (to_lower s)

-- The groups of resetTimeRe: the hour, the minute, and am or pm.
pub data Half : Type 0 where
  am pm unmarked : Half

pub record ClockTime : Type 0 where
  pub hour : ℕ
  pub minute : ℕ
  pub half : Half

abbrev is_digit : ℕ → Bool
is_digit c = leb b'0' c && leb c b'9'

abbrev digit : ℕ → ℕ
digit c = c - b'0'

-- \s*(am|pm)?
half_of : Text → Half
unfolding drop_while has_prefix
half_of s =
    let t = drop_while is_space s in
    if has_prefix (codes "am") t then am else if has_prefix (codes "pm") t then pm else unmarked

-- (?::(\d{2}))?
with_minute : ℕ → Text → ClockTime
unfolding half_of
with_minute h (c ∷ d ∷ e ∷ s) =
    if c == b':' && is_digit d && is_digit e
    then record { hour = h; minute = digit d * 10 + digit e; half = half_of s }
    else record { hour = h; minute = 0; half = half_of (c ∷ d ∷ e ∷ s) }
with_minute h s = record { hour = h; minute = 0; half = half_of s }

-- (\d{1,2}) and what stands behind it.
hour_word : Text → Option ClockTime
unfolding with_minute
hour_word [] = none
hour_word (c ∷ []) = if is_digit c then some (with_minute (digit c) []) else none
hour_word (c ∷ d ∷ s) =
    if is_digit c
    then (if is_digit d
        then some (with_minute (digit c * 10 + digit d) s)
        else some (with_minute (digit c) (d ∷ s)))
    else none

-- \s+ and what stands behind it.
spaced : Text → Option Text
unfolding drop_while
spaced [] = none
spaced (c ∷ s) = if is_space c then some (drop_while is_space s) else none

-- (?:at\s+)?(\d{1,2})…
abbrev at_word : Text → Option ClockTime
unfolding hour_word spaced has_prefix
at_word s =
    if has_prefix (codes "at") s then (do r ← spaced (drop 2 s); hour_word r) else hour_word s

abbrev skip_s : Text → Text
skip_s [] = []
skip_s (c ∷ s) = if c == b's' then s else c ∷ s

reset_word : Text → Option ClockTime
unfolding at_word spaced has_prefix hour_word
reset_word s =
    if has_prefix (codes "reset") s then (do r ← spaced (skip_s (drop 5 s)); at_word r) else none

first_reset : Text → Option ClockTime
unfolding reset_word
first_reset [] = none
first_reset (c ∷ s) = or_else (reset_word (c ∷ s)) (first_reset s)

-- resetTimeRe.
unfoldable pub reset_time : Text → Option ClockTime
unfolding first_reset to_lower
reset_time s = first_reset (to_lower s)

-- The hour on the 24-hour clock.
unfoldable pub hour24 : Half → ℕ → ℕ
hour24 pm h = if ltb h 12 then h + 12 else h
hour24 am h = if h == 12 then 0 else h
hour24 unmarked h = h

module _ (local : LocalTime) where
  unfoldable pub reset_instant : ClockTime → ℕ → Option ℕ
  unfolding hour24
  reset_instant t now =
      let h = hour24 t.half t.hour in
      let target = local.clock_at now h t.minute in
      if ltb 23 h || ltb 59 t.minute
      then none
      else if leb target now
      then some (local.next_day target)
      else some target

  unfoldable pub parse_reset_at : Text → ℕ → Option ℕ
  unfolding reset_time reset_instant
  parse_reset_at s now = do t ← reset_time s; reset_instant t now

  unfoldable pub detect_limit : List ParsedLine → ℕ → Option LimitSignal
  unfolding limit_scan_text is_auth_error is_usage_limit parse_reset_at
  detect_limit ls now =
      let s = limit_scan_text ls in
      if is_auth_error s
      then some auth_error
      else if is_usage_limit s
      then some (usage_limit (parse_reset_at s now))
      else none

  -- A parsed reset lies in the future, where a day later is later than now.
  pub parse_reset_at_future :
      (s : Text) (now : ℕ) {r : ℕ}
      → ((h m : ℕ) → now < local.next_day (local.clock_at now h m))
      → parse_reset_at s now ≡ some r
      → now < r
  unfolding parse_reset_at reset_instant
  parse_reset_at_future s now later h = elim (Option-cases (reset_time s)) [
    | inl e ↦ cc (rw e at h)
    | inr (t, e) ↦ ground (arith, later (hour24 t.half t.hour) t.minute, e)
  ]
