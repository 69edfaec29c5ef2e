-- ===== src/Client.antt =====
-- c/file_client.c: the sending side. The globals `Status`, `buf`, `para` and the `__str` of
-- c/interface.h, and the callbacks that the event loop makes; `main` is in Main.
pub mod Request
pub mod Answer
pub mod Ending
pub mod Closing
pub mod Keeps
pub mod Exchange
pub mod Replies
pub mod Steps
use net_file_transfer.Base.{
  ℕ, zero, suc, Bool, true, false, List, [], ◌∷◌, Option, none, some, Outcome, ok, fault, ◌>>=◌,
  ◌>>◌, assert, length, take, ◌==◌, if◌then◌else◌,
}
use net_file_transfer.Memory.{memcpy, text, strcpy, le_bytes, le_value}
use net_file_transfer.LibEvent.{LibEvent, Events, Context}
use net_file_transfer.OpenSsl.{Md5}
use net_file_transfer.Log.{
  Log, write_log, simplog_fatal, simplog_info, simplog_debug, number, string,
}
use net_file_transfer.FileInfo.{FileInfo, encode}
use net_file_transfer.Stdio.{World}
use net_file_transfer.Interface.{
  init, head, file_data, fin, enum_value, WriteArg, readfile, request_info,
}
use net_file_transfer.Config.{Parameter}
use net_file_transfer.Server.{logging}

-- The global `buf`: NULL until the first header, then a buffer, which `evbuffer_free` gives back.
pub data BufPtr (l : LibEvent) : Type 0 where
  null freed : BufPtr l
  live : l.EvBuffer → BufPtr l

-- Calls of `event_base_loopexit`, with the base that the last one was given.
pub data LoopExit : Type 0 where
  not_called : LoopExit
  called_on : Context → LoopExit

-- `status` is the `unsigned int` that `Status` is in memory.
pub record Client (l : LibEvent) : Type 0 where
  pub status : ℕ
  pub buf : BufPtr l
  pub para : Parameter
  pub str : List ℕ
  pub world : World
  pub loop_exit : LoopExit

-- What happens to stand where `write_cb` keeps its local `finfo`, and in the memory that `malloc`
-- gives it for `data`.
pub record Scratch : Type 0 where
  pub stack : FileInfo
  pub heap : List ℕ

module _ (l : LibEvent) (m : Md5) where
  open l use {
    EvBuffer, BufferEvent, evbuffer_new, evbuffer_get_length, bufferevent_read, bufferevent_write,
    bufferevent_write_buffer, bufferevent_disable,
  }

  -- The world while the header is made, and the client once it is sent.
  abbrev pub head_world : Client l → World
  head_world c = logging (write_log simplog_debug "传输信息..." []) c.world

  abbrev pub head_sent : Client l → List ℕ → ℕ → ℕ → EvBuffer → Client l
  head_sent c name size n buf = record c {
    buf = live buf;
    world =
        logging
          (λ log.
            write_log simplog_debug "校验信息大小:%lu" (number n ∷ [])
              (write_log simplog_debug "文件名:%s,文件大小:%lu" (string name ∷ number size ∷ []) log))
          (head_world c);
  }

  -- `write_cb` while `Status == HEAD`.
  unfoldable pub send_head : Client l → Scratch → BufferEvent → Outcome (Client l × BufferEvent)
  send_head c scratch bev = do
    let w = head_world c
    infile ← strcpy scratch.stack.name c.para.infile
    assert (w.pthread_create == 0)
    args ←
        readfile l m w
          (record { finfo = record scratch.stack { name = infile }; buffer = evbuffer_new })
    assert w.malloc
    assert (w.pthread_join == 0)
    outfile ← strcpy args.finfo.name c.para.outfile
    let finfo = record args.finfo { name = outfile }
    (n, bytes) ← encode scratch.heap finfo
    name ← text outfile
    ok (head_sent c name finfo.size n args.buffer, bufferevent_write bev (take n bytes))

  -- The client that has handed over its buffer, which is then `buf'`.
  abbrev pub data_sent : Client l → EvBuffer → EvBuffer → Client l
  data_sent c buf buf' = record c {
    buf = live buf';
    world =
        logging
          (λ log.
            write_log simplog_debug "文件长度:%lu" (number (evbuffer_get_length buf) ∷ [])
              (write_log simplog_debug "传输文件..." [] log))
          c.world;
  }

  -- `write_cb` while `Status == DATA`: the whole buffer goes out, and is empty afterwards.
  unfoldable pub send_data : Client l → BufferEvent → Outcome (Client l × BufferEvent)
  send_data c bev = elim c.buf [
    | null ↦ fault
    | freed ↦ fault
    | live buf ↦
        let (bev', buf') = bufferevent_write_buffer bev buf in ok (data_sent c buf buf', bev')
  ]

  -- `write_cb`.
  unfoldable pub write_cb : Client l → Scratch → BufferEvent → Outcome (Client l × BufferEvent)
  unfolding enum_value
  write_cb c scratch bev =
      if c.status == enum_value head
      then send_head c scratch bev
      else if c.status == enum_value file_data
      then send_data c bev
      else ok (c, bev)

  -- `evbuffer_free(buf)`.
  abbrev pub evbuffer_free : BufPtr l → Outcome (BufPtr l)
  evbuffer_free null = fault
  evbuffer_free freed = fault
  evbuffer_free (live b) = ok freed

  -- The part of `read_cb` that answers FIN.
  unfoldable pub finish : Client l → BufferEvent → Outcome (Client l × BufferEvent)
  unfolding enum_value
  finish c bev =
      if c.status == enum_value fin
      then (do
        buf ← evbuffer_free c.buf
        ok (record c { buf = buf; status = enum_value init }, bufferevent_disable bev))
      else ok (c, bev)

  -- `read_cb`: four bytes at most go into `Status`.
  unfoldable pub read_cb : Client l → Scratch → BufferEvent → Outcome (Client l × BufferEvent)
  read_cb c scratch bev = do
    let (bytes, bev₁) = bufferevent_read bev 4
    word ← memcpy (le_bytes 4 c.status) bytes (length bytes)
    let status = le_value word
    str ← request_info c.str status
    name ← text str
    let w = logging (write_log simplog_debug "接收请求:%s" (string name ∷ [])) c.world
    (c', bev₂) ← finish (record c { status = status; str = str; world = w }) bev₁
    write_cb c' scratch bev₂

  -- `event_cb`, which takes `ctx` for the base: the client, and whether `bufferevent_free` was
  -- called.
  unfoldable pub event_cb : Context → ℕ → List ℕ → Client l → Events → Client l × Bool
  event_cb ctx fd error_text c e =
      if e.connected
      then (
        record c {
          world = logging (write_log simplog_info "[%d]connected.\n" (number fd ∷ [])) c.world;
        },
        false,
      )
      else if e.error
      then (
        record c {
          world =
              logging
                (write_log simplog_fatal "Got an error on the connection: %s"
                  (string error_text ∷ []))
                c.world;
          loop_exit = called_on ctx;
        },
        false,
      )
      else if e.eof
      then (
        record c { world = logging (write_log simplog_info "connection closed." []) c.world },
        true,
      )
      else (c, false)
