-- ===== src/MonitorMain/Limits.antt =====
-- `raise_fd_limit` of src/main.cpp; src/bench/throughput_bench.cpp has a copy that prints nothing.
use vigil_low_latency_tcp_he.Prelude.{
  ℕ, ◌≤◌, ◌≡◌, refl, true, false, Bool, Option, none, some, arith, ltb, if◌then◌else◌, ◌++◌,
}
use vigil_low_latency_tcp_he.Prelude.Text.{Text, text}
use vigil_low_latency_tcp_he.CommandInput.{print_uint}

-- `rlim_cur` and `rlim_max`.
pub record Limit : Type 0 where
  pub soft : ℕ
  pub hard : ℕ

-- `found` is what `getrlimit` gives, `accepted` whether `setrlimit` succeeds where it is called.
unfoldable pub raise_fd_limit : Option Limit → Bool → Option Limit
raise_fd_limit none accepted = none
raise_fd_limit (some limit) accepted =
    if ltb limit.soft limit.hard
    then if accepted then some (record limit { soft = limit.hard }) else some limit
    else some limit

-- The line on stderr; `failure` is the text of the errno.
unfoldable pub limit_line : Text → Option Limit → Text
limit_line failure none =
    text "[feed_monitor] getrlimit(RLIMIT_NOFILE) failed: " ++ failure ++ text "\n"
limit_line failure (some limit) =
    text "[feed_monitor] fd limit: soft="
    ++ print_uint limit.soft
    ++ text " hard="
    ++ print_uint limit.hard
    ++ text "\n"

-- The soft limit never falls, and where the call is accepted it reaches the hard one.
pub raise_fd_limit_lem :
    (limit : Limit) (accepted : Bool)
    → (after : Limit) × (raise_fd_limit (some limit) accepted ≡ some after)
      × (limit.soft ≤ after.soft)
      × (after.hard ≡ limit.hard)
      × (accepted ≡ true → limit.soft ≤ limit.hard → after.soft ≡ limit.hard)
unfolding raise_fd_limit
raise_fd_limit_lem limit accepted = by_test (ltb limit.soft limit.hard) refl accepted
  where
    by_test :
        (less : Bool)
        → ltb limit.soft limit.hard ≡ less
        → (ok : Bool)
        → (after : Limit) × ((if less
              then if ok then some (record limit { soft = limit.hard }) else some limit
              else some limit)
            ≡ some after)
          × (limit.soft ≤ after.soft)
          × (after.hard ≡ limit.hard)
          × (ok ≡ true → limit.soft ≤ limit.hard → after.soft ≡ limit.hard)
    by_test true h true =
        (record limit { soft = limit.hard }, refl, ground (arith, h), refl, λ e le. refl)
    by_test true h false = (limit, refl, omega arith, refl, λ e le. cc)
    by_test false h ok = (limit, refl, omega arith, refl, λ e le. ground (arith, h, le))
