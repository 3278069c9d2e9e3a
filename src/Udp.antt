-- ===== src/Udp.antt =====
-- The UDP side of the tunnel server of internal/tunnel/tunnel.go: the loop of `startUDP`, its sweeper
-- of idle sessions, and the reader of a session, `handleUDPSession`.
--
-- A `udpSession` is shared by the map and by its reader, so it is an object: `sessions` maps a client's
-- address to a place in `objects`, which only grows. Times are in seconds. A round of the loop is cut
-- where it gives up the lock: readers and sweeps may come between the lookup of a packet's session and
-- the write.
pub mod Accounts
pub mod Sessions
pub mod Admission
pub mod Blocks
pub mod Kept
pub mod Shrinks
pub mod Sends
pub mod Delivered
pub mod Keys
pub mod Idle
use zetproxy_turbo.Base.{
  ℕ, zero, suc, ◌+◌, Bool, true, false, Option, none, some, List, [], ◌∷◌, ◌++◌, ltb, if◌then◌else◌,
  length, get_elem?, add_int64, inc_int32, dec_int32,
}
use zetproxy_turbo.Text.{Bytes}
use zetproxy_turbo.Dict.{lookup, delete, insert}
use zetproxy_turbo.Tunnel.{Server}

pub record UdpSession : Type 0 where
  pub remote : Bytes  -- `key`, the text of `remoteAddr`
  pub last_activity : ℕ
  pub connected : Bool  -- `conn` is not closed
  pub reading : Bool  -- its `handleUDPSession` has not returned
  pub written : List Bytes  -- the datagrams given to `conn.Write` while `conn` was not closed

-- A packet that the loop has read and looked up, and not dealt with.
pub record Taken : Type 0 where
  pub key : Bytes
  pub payload : Bytes
  pub found : Option ℕ  -- the session that the map had for the key

pub record Udp : Type 0 where
  pub server : Server
  pub sessions : List (Bytes × ℕ)
  pub objects : List UdpSession
  pub taken : Option Taken
  pub received : List (Bytes × Bytes)  -- the packets that `pc.ReadFrom` has returned, by key
  pub replies : List (Bytes × Bytes)  -- the packets given to `pc.WriteTo`, by key

abbrev pub at_start : Server → Udp
at_start server = record {
  server = server;
  sessions = [];
  objects = [];
  taken = none;
  received = [];
  replies = [];
}

module _ {A : Type 0} where
  -- Changes one place of a list.
  unfoldable pub modify : ℕ → (A → A) → List A → List A
  modify i f [] = []
  modify zero f (x ∷ xs) = f x ∷ xs
  modify (suc i) f (x ∷ xs) = x ∷ modify i f xs

unfoldable pub count_packet : Server → Server
count_packet s =
    let st = s.stats in record s { stats = record st { udp_packets = add_int64 st.udp_packets 1 } }

unfoldable pub count_out : ℕ → Server → Server
count_out n s =
    let st = s.stats in record s { stats = record st { bytes_out = add_int64 st.bytes_out n } }

unfoldable pub count_in : ℕ → Server → Server
count_in n s =
    let st = s.stats in record s { stats = record st { bytes_in = add_int64 st.bytes_in n } }

unfoldable pub count_session : Server → Server
count_session s =
    let st = s.stats in
    record s {
      stats = record st {
        conns_active = inc_int32 st.conns_active;
        conns_total = add_int64 st.conns_total 1;
      };
    }

-- `atomic.AddInt32(&s.stats.ConnsActive, -1)`
unfoldable pub drop_active : Server → Server
drop_active s =
    let st = s.stats in record s { stats = record st { conns_active = dec_int32 st.conns_active } }

abbrev pub touched : ℕ → UdpSession → UdpSession
touched now o = record o { last_activity = now }

-- `sess.lastActivity = time.Now()` and `sess.conn.Write(buf[:n])`. A packet is `written` when it is given
-- to the write of an open connection; the error of that write, by which it is lost, the code ignores.
abbrev pub forwarded : ℕ → Bytes → UdpSession → UdpSession
forwarded now payload o = record o {
  last_activity = now;
  written = if o.connected then o.written ++ (payload ∷ []) else o.written;
}

abbrev pub closed : UdpSession → UdpSession
closed o = record o { connected = false }

abbrev pub ended : UdpSession → UdpSession
ended o = record o { connected = false; reading = false }

-- A packet from a client with no session: a dial to the upstream server, whose failure loses it.
unfoldable pub open_session : Bytes → Bytes → ℕ → Bool → Udp → Udp
open_session key payload now false u = u
open_session key payload now true u = record u {
  server = count_session (count_out (length payload) u.server);
  sessions = insert key (length u.objects) u.sessions;
  objects =
      u.objects
      ++ ((record {
        remote = key;
        last_activity = now;
        connected = true;
        reading = true;
        written = payload ∷ [];
      })
          ∷ []);
}

-- The packet is read and its session is looked up, with the lock held for that alone.
unfoldable pub look : Bytes → Bytes → Udp → Udp
look key payload u = record u {
  server = count_packet u.server;
  received = u.received ++ ((key, payload) ∷ []);
  taken = some (record { key = key; payload = payload; found = lookup key u.sessions });
}

-- `if exists { … }`, and what stands behind it.
unfoldable pub pass_on : Bytes → Bytes → Option ℕ → ℕ → Bool → Udp → Udp
pass_on key payload none now dialled u = open_session key payload now dialled u
pass_on key payload (some id) now dialled u = record u {
  server = count_out (length payload) u.server;
  objects = modify id (forwarded now payload) u.objects;
}

-- The rest of the loop's round; `dialled` is whether a dial would succeed.
unfoldable pub forward_taken : Option Taken → ℕ → Bool → Udp → Udp
forward_taken none now dialled u = u
forward_taken (some p) now dialled u =
    pass_on p.key p.payload p.found now dialled (record u { taken = none })

unfoldable pub forward : ℕ → Bool → Udp → Udp
forward now dialled u = forward_taken u.taken now dialled u

-- What `pc.ReadFrom` gives: a timeout after a second, another error, or a packet.
pub data Incoming : Type 0 where
  timed_out broken : Incoming
  packet : Bytes → Bytes → Incoming

-- The first part of a round of the loop, for a context that is cancelled or not before the read, and
-- after it; `none` is the return of `startUDP`.
unfoldable pub read_packet : Bool → Bool → Incoming → Udp → Option Udp
read_packet true late i u = none
read_packet false late timed_out u = some u
read_packet false true broken u = none
read_packet false false broken u = some u
read_packet false late (packet key payload) u = some (look key payload u)

-- `now.Sub(sess.lastActivity) > 3*time.Minute`
unfoldable pub is_idle : ℕ → ℕ → List UdpSession → Bool
is_idle now id objects = elim (get_elem? objects id) [
  | none ↦ false
  | some o ↦ ltb (o.last_activity + 180) now
]

-- One round of the sweeper's loop over the map.
unfoldable pub sweep_one : ℕ → Bytes × ℕ → Udp → Udp
sweep_one now (key, id) u =
    if is_idle now id u.objects
    then record u {
      server = drop_active u.server;
      sessions = delete key u.sessions;
      objects = modify id closed u.objects;
    }
    else u

unfoldable pub sweep_entries : ℕ → List (Bytes × ℕ) → Udp → Udp
sweep_entries now [] u = u
sweep_entries now (e ∷ es) u = sweep_entries now es (sweep_one now e u)

unfoldable pub sweep : ℕ → Udp → Udp
sweep now u = sweep_entries now u.sessions u

-- `sess.remoteAddr`, as text, of session `id`; also the `key` that its reader was started with.
unfoldable pub remote_of : ℕ → List UdpSession → Bytes
remote_of id objects = elim (get_elem? objects id) [ none ↦ [] | some o ↦ o.remote ]

-- The reader of session `id` got a packet, which it sends to the client.
unfoldable pub reader_data : ℕ → Bytes → ℕ → Udp → Udp
reader_data id b now u = record u {
  server = count_in (length b) u.server;
  objects = modify id (touched now) u.objects;
  replies = u.replies ++ ((remote_of id u.objects, b) ∷ []);
}

-- The reader of session `id` got an error.
unfoldable pub reader_error : ℕ → Udp → Udp
reader_error id u = record u {
  server = drop_active u.server;
  sessions = delete (remote_of id u.objects) u.sessions;
  objects = modify id ended u.objects;
}
