-- ===== src/Admin/Usage.antt =====
-- The round of `admin` in src/admin.rs: its connections are counted, and the usage of the process is
-- written to the metrics. What `getrusage` returns is not negative.
use momento_proxy.Base.{
  ℕ, ◌+◌, ◌*◌, ◌%◌, ◌^◌, ◌≤◌, ◌<◌, ◌≡◌, refl, ◌⊎◌, inl, inr, Option, none, some, arith,
}
use momento_proxy.Metrics.Connection.{increment, decrement}

-- `libc::timeval`
pub record Timeval : Type 0 where
  pub tv_sec : ℕ
  pub tv_usec : ℕ

-- `libc::rusage`
pub record Rusage : Type 0 where
  pub ru_utime : Timeval
  pub ru_stime : Timeval
  pub ru_maxrss : ℕ
  pub ru_ixrss : ℕ
  pub ru_idrss : ℕ
  pub ru_isrss : ℕ
  pub ru_minflt : ℕ
  pub ru_majflt : ℕ
  pub ru_nswap : ℕ
  pub ru_inblock : ℕ
  pub ru_oublock : ℕ
  pub ru_msgsnd : ℕ
  pub ru_msgrcv : ℕ
  pub ru_nsignals : ℕ
  pub ru_nvcsw : ℕ
  pub ru_nivcsw : ℕ

-- The metrics `RU_..` of src/metrics/mod.rs.
pub record Usage : Type 0 where
  pub utime : ℕ
  pub stime : ℕ
  pub maxrss : ℕ
  pub ixrss : ℕ
  pub idrss : ℕ
  pub isrss : ℕ
  pub minflt : ℕ
  pub majflt : ℕ
  pub nswap : ℕ
  pub inblock : ℕ
  pub oublock : ℕ
  pub msgsnd : ℕ
  pub msgrcv : ℕ
  pub nsignals : ℕ
  pub nvcsw : ℕ
  pub nivcsw : ℕ

-- `tv_sec as u64 * S + tv_usec as u64 * US`
unfoldable pub nanoseconds : Timeval → ℕ
nanoseconds t = (t.tv_sec * 1000000000 % 2 ^ 64 + t.tv_usec * 1000 % 2 ^ 64) % 2 ^ 64

-- `x * KB as i64`, as the bits of the product
unfoldable pub kilobytes : ℕ → ℕ
kilobytes x = x * 1024 % 2 ^ 64

-- The metrics after `getrusage`, which may fail.
unfoldable pub sample : Option Rusage → Usage → Usage
unfolding nanoseconds kilobytes
sample none u = u
sample (some r) u = record {
  utime = nanoseconds r.ru_utime;
  stime = nanoseconds r.ru_stime;
  maxrss = kilobytes r.ru_maxrss;
  ixrss = kilobytes r.ru_ixrss;
  idrss = kilobytes r.ru_idrss;
  isrss = kilobytes r.ru_isrss;
  minflt = r.ru_minflt;
  majflt = r.ru_majflt;
  nswap = r.ru_nswap;
  inblock = r.ru_inblock;
  oublock = r.ru_oublock;
  msgsnd = r.ru_msgsnd;
  msgrcv = r.ru_msgrcv;
  nsignals = r.ru_nsignals;
  nvcsw = r.ru_nvcsw;
  nivcsw = r.ru_nivcsw;
}

-- The counters of the connections of the admin server.
pub record AdminServer : Type 0 where
  pub admin_conn_curr : ℕ
  pub admin_conn_accept : ℕ
  pub admin_conn_close : ℕ
  pub usage : Usage

-- One round: whether a client was accepted within the millisecond, and what `getrusage` returned.
unfoldable pub admin : Option (Unit {0}) → Option Rusage → AdminServer → AdminServer
unfolding sample
admin none r a = record a { usage = sample r a.usage }
admin (some _) r a = record a {
  admin_conn_curr = increment a.admin_conn_curr;
  admin_conn_accept = increment a.admin_conn_accept;
  usage = sample r a.usage;
}

-- What the task of a client does behind `handle_admin_client`.
unfoldable pub close_admin_client : AdminServer → AdminServer
close_admin_client a = record a {
  admin_conn_close = increment a.admin_conn_close;
  admin_conn_curr = decrement a.admin_conn_curr;
}

-- A time that is in range: less than a million microseconds, and no more than 584 years.
abbrev pub InRange : Timeval → Type 0
InRange t = (t.tv_usec < 1000000) × (t.tv_sec < 18446744073)

-- One time is not after another.
abbrev pub NotAfter : Timeval → Timeval → Type 0
NotAfter t u = (t.tv_sec < u.tv_sec) ⊎ ((t.tv_sec ≡ u.tv_sec) × (t.tv_usec ≤ u.tv_usec))

nanoseconds-NotAfter :
    (t u : Timeval) → InRange t → InRange u → NotAfter t u → nanoseconds t ≤ nanoseconds u
unfolding nanoseconds
nanoseconds-NotAfter t u (a, b) (c, d) (inl l) = omega arith
nanoseconds-NotAfter t u (a, b) (c, d) (inr (e, l)) = omega arith

-- While the times of the process are in range and do not go back, the time counters do not go back from
-- one sample to the next, and a sample that fails leaves them as they are.
pub sample-NotAfter :
    (r s : Rusage) (u : Usage)
    → InRange r.ru_utime
    → InRange s.ru_utime
    → InRange r.ru_stime
    → InRange s.ru_stime
    → NotAfter r.ru_utime s.ru_utime
    → NotAfter r.ru_stime s.ru_stime
    → ((sample (some r) u).utime ≤ (sample (some s) (sample (some r) u)).utime)
      × ((sample (some r) u).stime ≤ (sample (some s) (sample (some r) u)).stime)
      × (sample none (sample (some r) u) ≡ sample (some r) u)
unfolding sample
sample-NotAfter r s u a b c d e f = (
  nanoseconds-NotAfter r.ru_utime s.ru_utime a b e,
  nanoseconds-NotAfter r.ru_stime s.ru_stime c d f,
  refl,
)
