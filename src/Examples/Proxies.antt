-- ===== src/Examples/Proxies.antt =====
-- Runs of the SOCKS5 server of internal/proxy/socks5.go.
use zetproxy_turbo.Proxy
use zetproxy_turbo.Proxy.Accept
use zetproxy_turbo.Base.{ℕ, ◌+◌, ◌%◌, ◌^◌, ◌≤◌, ◌≡◌, refl, false, none, some, [], ◌∷◌, ◌++◌, arith}
use zetproxy_turbo.Text.{codes, equal, show_nat}
use zetproxy_turbo.Socks.{greeting, ip6, request_bytes}
use zetproxy_turbo.Session.{World, Session, accepted}
use zetproxy_turbo.Addr.{to4, split_host_port}
use zetproxy_turbo.Proxy.{
  Server, new, set_max_conns, add_conn_log, refusal, target_addr, success, log_entry, return_token,
  handle, take_token, count_active, count_total, accept,
}
use zetproxy_turbo.Proxy.Accept.{Reach, here, grants, counts, starts, returns, Reach-Inv}
use zetproxy_turbo.Proxy.Cleanup.{handle_cleanup}
use zetproxy_turbo.Proxy.Served.{handle_connected}
use zetproxy_turbo.Proxy.Six.{handle_ip6}
use zetproxy_turbo.Examples.{target, world, methods, host, payload, v6}

-- A server of two places with one connection.
abbrev one_taken : Server
one_taken = (accept (set_max_conns new 2)).0

abbrev client : ℕ → Session Server
client port = accepted one_taken (greeting methods ++ request_bytes 1 host port payload)

handle_test :
    (handle (world 4) (client 80)).sent ≡ 5 ∷ 0 ∷ 5 ∷ 0 ∷ 0 ∷ 1 ∷ 10 ∷ 0 ∷ 0 ∷ 1 ∷ 18 ∷ 52 ∷ []
unfolding Proxy.code accept set_max_conns new equal show_nat
handle_test = refl

-- Four bytes of the address are read where sixteen are asked for, and then the stream is over.
short_test :
    let f =
      handle
        (world 4)
        (accepted one_taken (greeting methods ++ 5 ∷ 1 ∷ 0 ∷ 4 ∷ 1 ∷ 2 ∷ 3 ∷ 4 ∷ [])) in
    (f.sent ≡ 5 ∷ 0 ∷ []) × (f.dialed ≡ []) × (f.server.sem ≡ 0)
unfolding Proxy.code accept set_max_conns new
short_test = (refl, refl, refl)

handle_connected_example :
    let f = handle (world 4) (client 80) in
    let addr = target_addr (codes "a.b") 80 in
    (f.sent ≡ (5 ∷ 0 ∷ []) ++ success target)
    × (f.dialed ≡ addr ∷ [])
    × (f.relays ≡ 1)
    × (f.deadline ≡ none)
    × (f.server.stats.bytes_in ≡ 7)
    × (f.server.stats.bytes_out ≡ 9)
    × (f.server.stats.conns_failed ≡ 0)
    × (f.server.conn_log ≡ log_entry (world 4) addr (codes "connected") 16 ∷ [])
unfolding accept set_max_conns new add_conn_log target_addr show_nat equal
handle_connected_example =
    handle_connected (world 4) methods host 80 payload one_taken (omega arith) (omega arith)
      (omega arith) (λ n. refl) target refl

handle_cleanup_example :
    let t = handle (world 4) (client 80) in
    (t.connected ≡ false)
    × (t.targets ≡ 0)
    × (t.server.sem ≡ 0)
    × (t.server.stats.conns_active ≡ 0)
    × (t.server.stats.conns_total ≡ 1)
    × (t.server.stats.conns_rejected ≡ 0)
unfolding accept set_max_conns new
handle_cleanup_example = handle_cleanup (world 4) (client 80)

-- A server of one place after two connections: the handler of the first one has returned its token
-- before the second one comes, and decrements the active count after that.
abbrev between : Server
between = count_total (
    count_active
      (take_token
        (return_token (count_total (count_active (take_token (set_max_conns new 1)).0)))).0)

abbrev between_path : Reach (set_max_conns new 1) 2 Accept.accepting 1 1 between
unfolding take_token set_max_conns return_token count_total count_active new
between_path =
    starts (counts (grants (returns (starts (counts (grants here refl) refl) refl) refl) refl) refl)
      refl

-- One token, and two active connections.
Reach-Inv_example :
    (between.sem ≡ 1)
    × (between.sem ≤ 1)
    × (between.stats.conns_active ≡ 2)
    × ((between.stats.conns_total + between.stats.conns_rejected + 0) % 2 ^ 64 ≡ 2)
Reach-Inv_example = Reach-Inv 1 (omega arith) between_path

-- A dial that reaches the target at every pair of host and port, and fails elsewhere.
abbrev strict : World
strict = record (world 4) {
  dial = λ addr. elim (split_host_port addr) [ none ↦ none | some _ ↦ some target ];
}

handle_ip6_example :
    let f =
      handle strict
        (accepted one_taken (greeting methods ++ request_bytes 1 (ip6 v6) 80 payload)) in
    (f.sent ≡ (5 ∷ 0 ∷ []) ++ refusal 4) × (f.relays ≡ 0) × (f.server.stats.conns_failed ≡ 1)
unfolding accept set_max_conns new to4 equal
handle_ip6_example =
    handle_ip6 strict methods v6 80 payload one_taken (omega arith) refl (omega arith) (λ n. refl)
      (λ addr h. rw (h, strict) refl) refl
