-- ===== src/Main.antt =====
-- The `main` functions of c/file_serv.c and c/file_client.c: the command line, the address, and
-- the calls that set up the event loop.
use net_file_transfer.Base.{
  ℕ, ◌+◌, ◌*◌, ◌/◌, ◌%◌, Bool, true, false, List, [], ◌∷◌, ◌++◌, Option, none, some, Outcome, ok,
  ◌>>=◌, ◌>>◌, assert, require, ◌==◌,
}
use net_file_transfer.Log.{write_log, load_config, set_log_file, simplog_fatal, simplog_debug}
use net_file_transfer.LibEvent.{LibEvent, read_cb as reads, event_cb as events, null_ctx}
use net_file_transfer.Config.{Parameter, Opt, parse_commandline}
use net_file_transfer.Server.{Server, logging}
use net_file_transfer.Client.{Client}

-- `struct sockaddr_in` after `bzero`: the fields that the programs set. The port is in network
-- order.
pub record SockAddrIn : Type 0 where
  pub sin_family : ℕ
  pub sin_port : ℕ
  pub sin_addr : ℕ

-- What the calls outside the repository answer: `inet_aton`, which may reject the text, and
-- libevent's, of which the programs ask only whether they succeeded.
pub record Startup : Type 0 where
  pub inet_aton : List ℕ → Option ℕ
  pub event_base_new : Bool
  pub bufferevent_socket_new : Bool
  pub evconnlistener_new_bind : SockAddrIn → Bool
  pub evsignal_new : Bool
  pub event_add : Bool
  pub bufferevent_socket_connect : SockAddrIn → Bool

abbrev pub af_inet : ℕ
af_inet = 2

-- `htons`, on a little-endian machine.
abbrev pub htons : ℕ → ℕ
htons port = port % 256 * 256 + port / 256 % 256

-- The address of the host. What `inet_aton` returns is not looked at, and a text that it rejects
-- leaves the zero that `bzero` wrote.
abbrev pub address_or_any : Option ℕ → ℕ
address_or_any none = 0
address_or_any (some a) = a

unfoldable pub address : Startup → Parameter → SockAddrIn
address u p = record {
  sin_family = af_inet;
  sin_port = htons p.port;
  sin_addr = address_or_any (u.inet_aton p.host);
}

-- How `main` ended: the value returned, the parameters, and the address that was bound or
-- connected to, if any.
pub record Ended (A : Type 0) : Type 0 where
  pub exit_code : ℕ
  pub para : Parameter
  pub bound : Option SockAddrIn
  pub final : A

-- `main` of the server, with `event_base_dispatch` as a function on the server's state.
unfoldable pub server_serve :
    Startup → (Server → Outcome Server) → Parameter → Server → Outcome (Ended Server)
unfolding address
server_serve u dispatch p s = do
  assert u.event_base_new
  assert (u.evconnlistener_new_bind (address u p))
  assert u.evsignal_new
  assert u.event_add
  s' ← dispatch s
  ok (record { exit_code = 0; para = p; bound = some (address u p); final = s' })

-- The server once the logger is set up.
abbrev pub configured : Server → Server
configured s = record s {
  world =
      logging (λ log. log ++ load_config "log_config.conf" ∷ set_log_file "server.log" ∷ [])
        s.world;
}

unfoldable pub server_main :
    Startup → (Server → Outcome Server) → Parameter → List Opt → Server → Outcome (Ended Server)
unfolding server_serve
server_main u dispatch para options s = do
  let s₁ = configured s
  (p, opterr) ← parse_commandline para options
  elim (opterr == 0) [
    | true ↦ server_serve u dispatch p s₁
    | false ↦ ok (record {
      exit_code = 1;
      para = p;
      bound = none;
      final = record s₁ {
        world = logging (write_log simplog_fatal "configure ERROR!" []) s₁.world;
      };
    })
  ]

module _ (l : LibEvent) where
  -- The client with its bufferevent.
  abbrev pub Connected : Type 0
  Connected = Client l × l.BufferEvent

  -- The client that runs its event loop: the callbacks are set and the events enabled.
  abbrev pub watching : Client l → Connected
  watching c = (
    record c {
      world =
          logging
            (λ log.
              write_log simplog_debug "开启事件循环..." [] (write_log simplog_debug "设置读事件..." [] log))
            c.world;
    },
    l.bufferevent_enable
        (l.bufferevent_setcb l.bufferevent_socket_new (some reads) none (some events) null_ctx),
  )

  -- A bufferevent that is NULL is not looked for, and connecting it is undefined.
  unfoldable pub client_connect :
      Startup → (Connected → Outcome Connected) → Client l → Outcome (Ended Connected)
  unfolding address
  client_connect u dispatch c = do
    assert u.event_base_new
    require u.bufferevent_socket_new
    elim (u.bufferevent_socket_connect (address u c.para)) [
      | true ↦ do
        s ← dispatch (watching c)
        ok (record { exit_code = 0; para = c.para; bound = some (address u c.para); final = s })
      | false ↦ ok (record {
        exit_code = 1;
        para = c.para;
        bound = none;
        final = (c, l.bufferevent_socket_new);
      })
    ]

  -- `main` of the client, with `event_base_dispatch` as a function.
  unfoldable pub client_main :
      Startup → (Connected → Outcome Connected) → List Opt → Client l → Outcome (Ended Connected)
  unfolding client_connect
  client_main u dispatch options c = do
    (p, opterr) ← parse_commandline c.para options
    let c₁ = record c { para = p }
    elim (opterr == 0) [
      | true ↦ client_connect u dispatch c₁
      | false ↦ ok (record {
        exit_code = 1;
        para = p;
        bound = none;
        final = (
          record c₁ { world = logging (write_log simplog_fatal "parameter ERROR!" []) c₁.world },
          l.bufferevent_socket_new,
        );
      })
    ]
