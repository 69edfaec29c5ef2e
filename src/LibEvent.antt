-- ===== src/LibEvent.antt =====
-- libevent, which the repository does not hold: the calls that c/interface.c, c/file_serv.c and
-- c/file_client.c make of it, as operations over unknown types, and what the program relies on.
-- An evbuffer is observed through its contents, a bufferevent through its two evbuffers.
pub mod Queues
use net_file_transfer.Base.{
  ℕ, ◌≡◌, List, [], ◌++◌, Bool, true, Option, some, none, length, take, drop,
}

-- The bits of the event mask that the callbacks test.
pub record Events : Type 0 where
  pub connected : Bool
  pub eof : Bool
  pub error : Bool

-- The callbacks that the programs register, by their names.
pub data Callback : Type 0 where
  read_cb write_cb event_cb : Callback

-- The `ctx` that callbacks are registered with: NULL, or the event base.
pub data Context : Type 0 where
  null_ctx base_ctx : Context

-- What `bufferevent_getcb` gives: the callbacks for reading, for writing and for events, and `ctx`.
pub record Callbacks : Type 0 where
  pub readcb : Option Callback
  pub writecb : Option Callback
  pub eventcb : Option Callback
  pub cbarg : Context

pub record LibEvent : Type 1 where
  -- struct evbuffer
  pub EvBuffer : Type 0
  pub contents : EvBuffer → List ℕ
  pub evbuffer_new : EvBuffer
  pub evbuffer_get_length : EvBuffer → ℕ
  pub evbuffer_add : EvBuffer → List ℕ → EvBuffer
  pub evbuffer_remove : EvBuffer → ℕ → List ℕ × EvBuffer
  -- struct bufferevent; `with_input v b` is `v` after the evbuffer that `bufferevent_get_input`
  -- gave out has been changed to `b`
  pub BufferEvent : Type 0
  pub get_input : BufferEvent → EvBuffer
  pub get_output : BufferEvent → EvBuffer
  pub with_input : BufferEvent → EvBuffer → BufferEvent
  pub bufferevent_socket_new : BufferEvent
  pub bufferevent_setcb :
      BufferEvent → Option Callback → Option Callback → Option Callback → Context → BufferEvent
  pub bufferevent_getcb : BufferEvent → Callbacks
  -- whether `bufferevent_get_enabled` has EV_READ
  pub reading : BufferEvent → Bool
  pub bufferevent_enable : BufferEvent → BufferEvent
  pub bufferevent_disable : BufferEvent → BufferEvent
  pub bufferevent_read : BufferEvent → ℕ → List ℕ × BufferEvent
  pub bufferevent_write : BufferEvent → List ℕ → BufferEvent
  pub bufferevent_write_buffer : BufferEvent → EvBuffer → BufferEvent × EvBuffer
  -- the event loop's part: some bytes leave the output for the socket, some arrive in the input
  pub sent : BufferEvent → ℕ → List ℕ × BufferEvent
  pub arrived : BufferEvent → List ℕ → BufferEvent

-- The bytes that wait to be read, and those that wait to be sent.
abbrev pub incoming : (l : LibEvent) → l.BufferEvent → List ℕ
incoming l v = l.contents (l.get_input v)

abbrev pub outgoing : (l : LibEvent) → l.BufferEvent → List ℕ
outgoing l v = l.contents (l.get_output v)

-- An event loop makes the callbacks `read_cb` and `event_cb` of the bufferevent, with NULL.
abbrev pub IsWatched : (l : LibEvent) → l.BufferEvent → Type 0
IsWatched l v =
    (l.bufferevent_getcb v
      ≡ record { readcb = some read_cb; writecb = none; eventcb = some event_cb; cbarg = null_ctx })
    × (l.reading v ≡ true)

-- The documented behaviour.
pub record IsLibEvent (l : LibEvent) : Type 0 where
  -- evbuffers are queues of bytes
  pub length_contents : (b : l.EvBuffer) → l.evbuffer_get_length b ≡ length (l.contents b)
  pub new_contents : l.contents l.evbuffer_new ≡ []
  pub add_contents :
      (b : l.EvBuffer) (d : List ℕ) → l.contents (l.evbuffer_add b d) ≡ l.contents b ++ d
  pub removed : (b : l.EvBuffer) (n : ℕ) → (l.evbuffer_remove b n).0 ≡ take n (l.contents b)
  pub remove_contents :
      (b : l.EvBuffer) (n : ℕ) → l.contents (l.evbuffer_remove b n).1 ≡ drop n (l.contents b)
  -- a change of the input through its pointer
  pub with_input_input :
      (v : l.BufferEvent) (b : l.EvBuffer)
      → l.contents (l.get_input (l.with_input v b)) ≡ l.contents b
  pub with_input_output :
      (v : l.BufferEvent) (b : l.EvBuffer)
      → l.contents (l.get_output (l.with_input v b)) ≡ l.contents (l.get_output v)
  pub socket_new_input : l.contents (l.get_input l.bufferevent_socket_new) ≡ []
  pub socket_new_output : l.contents (l.get_output l.bufferevent_socket_new) ≡ []
  -- registering callbacks and switching events on and off moves no bytes
  pub setcb_input :
      (v : l.BufferEvent) (r w e : Option Callback) (ctx : Context)
      → l.contents (l.get_input (l.bufferevent_setcb v r w e ctx)) ≡ l.contents (l.get_input v)
  pub setcb_output :
      (v : l.BufferEvent) (r w e : Option Callback) (ctx : Context)
      → l.contents (l.get_output (l.bufferevent_setcb v r w e ctx)) ≡ l.contents (l.get_output v)
  pub enable_input :
      (v : l.BufferEvent)
      → l.contents (l.get_input (l.bufferevent_enable v)) ≡ l.contents (l.get_input v)
  pub enable_output :
      (v : l.BufferEvent)
      → l.contents (l.get_output (l.bufferevent_enable v)) ≡ l.contents (l.get_output v)
  pub disable_input :
      (v : l.BufferEvent)
      → l.contents (l.get_input (l.bufferevent_disable v)) ≡ l.contents (l.get_input v)
  pub disable_output :
      (v : l.BufferEvent)
      → l.contents (l.get_output (l.bufferevent_disable v)) ≡ l.contents (l.get_output v)
  -- the callbacks are those registered last, and reading is on once it is enabled
  pub setcb_getcb :
      (v : l.BufferEvent) (r w e : Option Callback) (ctx : Context)
      → l.bufferevent_getcb (l.bufferevent_setcb v r w e ctx)
        ≡ record { readcb = r; writecb = w; eventcb = e; cbarg = ctx }
  pub enable_getcb :
      (v : l.BufferEvent) → l.bufferevent_getcb (l.bufferevent_enable v) ≡ l.bufferevent_getcb v
  pub write_getcb :
      (v : l.BufferEvent) (d : List ℕ)
      → l.bufferevent_getcb (l.bufferevent_write v d) ≡ l.bufferevent_getcb v
  pub enable_reading : (v : l.BufferEvent) → l.reading (l.bufferevent_enable v) ≡ true
  pub write_reading :
      (v : l.BufferEvent) (d : List ℕ) → l.reading (l.bufferevent_write v d) ≡ l.reading v
  -- reading takes from the front of the input, writing adds to the end of the output
  pub read_removed :
      (v : l.BufferEvent) (n : ℕ) → (l.bufferevent_read v n).0 ≡ take n (l.contents (l.get_input v))
  pub read_input :
      (v : l.BufferEvent) (n : ℕ)
      → l.contents (l.get_input (l.bufferevent_read v n).1) ≡ drop n (l.contents (l.get_input v))
  pub read_output :
      (v : l.BufferEvent) (n : ℕ)
      → l.contents (l.get_output (l.bufferevent_read v n).1) ≡ l.contents (l.get_output v)
  pub write_input :
      (v : l.BufferEvent) (d : List ℕ)
      → l.contents (l.get_input (l.bufferevent_write v d)) ≡ l.contents (l.get_input v)
  pub write_output :
      (v : l.BufferEvent) (d : List ℕ)
      → l.contents (l.get_output (l.bufferevent_write v d)) ≡ l.contents (l.get_output v) ++ d
  -- `bufferevent_write_buffer` moves the whole buffer and leaves it empty
  pub write_buffer_input :
      (v : l.BufferEvent) (b : l.EvBuffer)
      → l.contents (l.get_input (l.bufferevent_write_buffer v b).0) ≡ l.contents (l.get_input v)
  pub write_buffer_output :
      (v : l.BufferEvent) (b : l.EvBuffer)
      → l.contents (l.get_output (l.bufferevent_write_buffer v b).0)
        ≡ l.contents (l.get_output v) ++ l.contents b
  pub write_buffer_emptied :
      (v : l.BufferEvent) (b : l.EvBuffer) → l.contents (l.bufferevent_write_buffer v b).1 ≡ []
  -- TCP keeps the order and loses nothing
  pub sent_bytes :
      (v : l.BufferEvent) (n : ℕ) → (l.sent v n).0 ≡ take n (l.contents (l.get_output v))
  pub sent_input :
      (v : l.BufferEvent) (n : ℕ)
      → l.contents (l.get_input (l.sent v n).1) ≡ l.contents (l.get_input v)
  pub sent_output :
      (v : l.BufferEvent) (n : ℕ)
      → l.contents (l.get_output (l.sent v n).1) ≡ drop n (l.contents (l.get_output v))
  pub arrived_input :
      (v : l.BufferEvent) (d : List ℕ)
      → l.contents (l.get_input (l.arrived v d)) ≡ l.contents (l.get_input v) ++ d
  pub arrived_output :
      (v : l.BufferEvent) (d : List ℕ)
      → l.contents (l.get_output (l.arrived v d)) ≡ l.contents (l.get_output v)
