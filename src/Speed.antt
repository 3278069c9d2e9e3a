-- ===== src/Speed.antt =====
-- `GetStats` of internal/tunnel/tunnel.go and of internal/proxy/socks5.go: the counters, and the
-- throughput since the last measurement.
--
-- Floating point is a parameter. Times are in nanoseconds and do not go back. The figures of the Go
-- runtime are left out.
use zetproxy_turbo.Tunnel
use zetproxy_turbo.Proxy
use zetproxy_turbo.Base.{ℕ, ◌+◌, ◌-◌, ◌%◌, ◌^◌, leb, if◌then◌else◌}

-- What is computed with float64.
pub record Floats : Type 1 where
  pub F : Type 0
  pub plus : F → F → F
  -- `(float64(d) * 8) / (elapsed * 1000 * 1000)` for a difference of counters, an int64 by its bit
  -- pattern, and a time in nanoseconds
  pub speed : ℕ → ℕ → F

-- `lastIn`, `lastOut` and `lastTime` of the tunnel server, `stats.BytesInPrev`, `stats.BytesOutPrev` and
-- `lastCalcTime` of the SOCKS5 server, with the last results.
pub record Meter (F : Type 0) : Type 0 where
  pub last_in : ℕ
  pub last_out : ℕ
  pub last_time : ℕ
  pub throughput_in : F
  pub throughput_out : F

-- A difference of two int64
abbrev pub sub_int64 : ℕ → ℕ → ℕ
sub_int64 a b = (a + (2 ^ 64 - b)) % 2 ^ 64

abbrev pub half_second : ℕ
half_second = 500000000

module _ (fl : Floats) where
  open fl use {F, speed}

  -- The counters of the tunnel server with the throughput, and the meter afterwards.
  unfoldable pub tunnel_get_stats : ℕ → Tunnel.Server → Meter F → (Tunnel.Stats × F × F) × Meter F
  tunnel_get_stats now s m =
      let elapsed = now - m.last_time in
      let measured : Meter F =
        if leb half_second elapsed
        then record {
          last_in = s.stats.bytes_in;
          last_out = s.stats.bytes_out;
          last_time = now;
          throughput_in = speed (sub_int64 s.stats.bytes_in m.last_in) elapsed;
          throughput_out = speed (sub_int64 s.stats.bytes_out m.last_out) elapsed;
        }
        else m in
      ((s.stats, measured.throughput_in, measured.throughput_out), measured)

  -- The same of the SOCKS5 server.
  unfoldable pub socks_get_stats : ℕ → Proxy.Server → Meter F → (Proxy.Stats × F × F) × Meter F
  socks_get_stats now s m =
      let elapsed = now - m.last_time in
      let measured : Meter F =
        if leb half_second elapsed
        then record {
          last_in = s.stats.bytes_in;
          last_out = s.stats.bytes_out;
          last_time = now;
          throughput_in = speed (sub_int64 s.stats.bytes_in m.last_in) elapsed;
          throughput_out = speed (sub_int64 s.stats.bytes_out m.last_out) elapsed;
        }
        else m in
      ((s.stats, measured.throughput_in, measured.throughput_out), measured)
