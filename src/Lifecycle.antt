-- ===== src/Lifecycle.antt =====
-- The life of the program of cmd/zetproxyd/main.go: `main` with the goroutines that it starts, `Start`
-- and `Stop` of the servers of internal/tunnel/tunnel.go, internal/proxy/socks5.go and
-- internal/dashboard/dashboard.go, as steps that may come in any order.
--
-- Which listen succeeds, what an accept gives and which goroutine runs next are chosen by the sequence
-- of steps. What a handler does is left to the other modules.
use zetproxy_turbo.Tunnel
use zetproxy_turbo.Proxy
pub mod Ends
pub mod Errors
pub mod Stages
pub mod Fails
use zetproxy_turbo.Base.{ℕ, zero, suc, Bool, true, false, ◌&&◌, ◌||◌, List, [], ◌∷◌, if◌then◌else◌}

-- The goroutines that listen: `startTCP`, `startUDP`, and `Start` of the other two servers.
pub data Which : Type 0 where
  tcp udp socks dash : Which

abbrev pub same : Which → Which → Bool
same tcp tcp = true
same udp udp = true
same socks socks = true
same dash dash = true
same _ _ = false

pub data Loop : Type 0 where
  not_begun serving returned failed : Loop  -- `failed` returned the error of its listen

pub record Listener : Type 0 where
  pub loop : Loop
  pub is_open : Bool  -- the listener was not closed

-- Where `main` is: at `<-sig`, at the `select` behind it before or after the servers' `Stop`, or at its
-- end.
pub data Stage : Type 0 where
  awaiting stopping stopped ended : Stage

pub record Program : Type 0 where
  pub cancelled : Bool  -- `cancel()` was called
  pub at : Which → Listener
  pub errors : ℕ  -- what lies in `errCh` of the tunnel server's `Start`
  pub start_returned : Bool  -- that `Start` returned
  pub stage : Stage
  pub tun : Tunnel.Server
  pub socks_server : Proxy.Server

abbrev pub put : Which → Listener → Program → Program
put w l p = record p { at = λ v. if same w v then l else p.at v }

-- The listen fails. The errors of the tunnel server's two loops go to `errCh`, which has room for both;
-- those of the other servers are printed.
unfoldable pub fail : Which → Program → Program
fail w p =
    let q = put w (record { loop = failed; is_open = false }) p in
    if same w tcp || same w udp then record q { errors = suc q.errors } else q

unfoldable pub listen : Which → Bool → Program → Program
listen w ok p = elim (p.at w).loop [
  | not_begun ↦ if ok then put w (record { loop = serving; is_open = true }) p else fail w p
  | _ ↦ p
]

-- `listener.Close()` if there is one.
unfoldable pub close_if : Which → Program → Program
close_if w p = elim (p.at w).loop [
  | not_begun ↦ p
  | _ ↦ put w (record { loop = (p.at w).loop; is_open = false }) p
]

-- `<-ctx.Done()`, and then the listener is closed, or the HTTP server shut down.
unfoldable pub close_listener : Which → Program → Program
close_listener w p = if p.cancelled then close_if w p else p

-- A connection was accepted.
unfoldable pub admit : Which → Program → Program
admit tcp p = record p { tun = (Tunnel.accept p.tun).0 }
admit socks p = record p { socks_server = (Proxy.accept p.socks_server).0 }
admit _ p = p

-- `case <-ctx.Done(): return nil`
abbrev return_nil : Which → Program → Program
return_nil w p =
    if p.cancelled then put w (record { loop = returned; is_open = (p.at w).is_open }) p else p

-- A round of a loop: `Accept` or `ReadFrom` returns, with a connection or packet or with an error. A
-- listener that is closed gives an error.
unfoldable pub go_on : Which → Bool → Program → Program
go_on udp arrives p = return_nil udp p
go_on dash arrives p =
    if (p.at dash).is_open then p else put dash (record { loop = returned; is_open = false }) p
go_on w arrives p = if (p.at w).is_open && arrives then admit w p else return_nil w p

unfoldable pub next : Which → Bool → Program → Program
next w arrives p = elim (p.at w).loop [ serving ↦ go_on w arrives p | _ ↦ p ]

-- `return <-errCh`, and the `cancel()` of `main` for the error.
unfoldable pub report : Program → Program
report p = if p.start_returned then p else elim p.errors [
  | zero ↦ p
  | suc n ↦ record p { errors = n; start_returned = true; cancelled = true }
]

unfoldable pub signal : Program → Program
signal p = elim p.stage [ awaiting ↦ record p { stage = stopping; cancelled = true } | _ ↦ p ]

-- `tun.Stop()` and `socks.Stop()` in their goroutine.
unfoldable pub stop : Program → Program
stop p = elim p.stage [
  | stopping ↦ close_if socks (close_if udp (close_if tcp (record p { stage = stopped })))
  | _ ↦ p
]

-- The servers are stopped, or the time limit is reached.
unfoldable pub finish : Program → Program
finish p = elim p.stage [ awaiting ↦ p | _ ↦ record p { stage = ended } ]

pub data Event : Type 0 where
  listens : Which → Bool → Event
  closes : Which → Event
  goes_on : Which → Bool → Event
  reports signals stops finishes : Event

unfoldable pub step : Event → Program → Program
step (listens w ok) p = listen w ok p
step (closes w) p = close_listener w p
step (goes_on w arrives) p = next w arrives p
step reports p = report p
step signals p = signal p
step stops p = stop p
step finishes p = finish p

unfoldable pub run : List Event → Program → Program
run [] p = p
run (e ∷ es) p = run es (step e p)

-- `main` behind the making of the servers.
abbrev pub begun : Tunnel.Server → Proxy.Server → Program
begun tun socks_server = record {
  cancelled = false;
  at = λ w. record { loop = not_begun; is_open = false };
  errors = 0;
  start_returned = false;
  stage = awaiting;
  tun = tun;
  socks_server = socks_server;
}
