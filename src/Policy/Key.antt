-- ===== src/Policy/Key.antt =====
-- The limit-type keys of core/internal/policy/policy.go.
use abcmovies.Base.{Text, text}

abbrev pub concurrent_streams : Text
concurrent_streams = text "concurrentStreams"

abbrev pub bandwidth : Text
bandwidth = text "bandwidth"

abbrev pub encode : Text
encode = text "encode"

abbrev pub time_window : Text
time_window = text "timeWindow"

abbrev pub member_monthly_quota : Text
member_monthly_quota = text "memberMonthlyQuotaHours"

abbrev pub pacing_requests_per_sec : Text
pacing_requests_per_sec = text "pacingRequestsPerSecond"

abbrev pub pacing_max_pulls : Text
pacing_max_pulls = text "pacingMaxConcurrentPulls"

abbrev pub pacing_delay : Text
pacing_delay = text "pacingInterRequestDelay"

abbrev pub pacing_retries : Text
pacing_retries = text "pacingRetries"
