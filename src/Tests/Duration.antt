-- ===== src/Tests/Duration.antt =====
-- core/time.py at concrete texts.
use agentsecure_community.Base.{◌≡◌, refl}
use agentsecure_community.Base.Computing.{computing}
use agentsecure_community.Base.Text.{lit}
use agentsecure_community.Base.Exec.{raised, duration_error}
use agentsecure_community.Duration.{parse_duration_seconds}

too_long :
    parse_duration_seconds (lit "2d")
    ≡ raised (duration_error (lit "duration exceeds max TTL of 24h"))
unfolding parse_duration_seconds computing
too_long = refl

not_a_duration :
    parse_duration_seconds (lit "1x") ≡ raised (duration_error (lit "invalid duration: 1x"))
unfolding parse_duration_seconds computing
not_a_duration = refl
