-- ===== src/Server.antt =====
-- c/file_serv.c: the receiving side. The globals `Status` and `para`, and the callbacks that the
-- event loop makes; `main` is in Main.
pub mod Head
pub mod Partial
pub mod Limits
pub mod Failing
pub mod Receive
pub mod Sharing
pub mod Closing
pub mod Protocol
pub mod Steps
use net_file_transfer.Base.{
  ℕ, zero, suc, Bool, true, false, List, [], ◌∷◌, Option, none, some, Outcome, ok, ◌>>=◌, ◌>>◌,
  assert, length, replicate, ◌==◌, if◌then◌else◌,
}
use net_file_transfer.Memory.{memcpy, text, le_bytes, zeros}
use net_file_transfer.LibEvent.{LibEvent, Events, read_cb as reads, event_cb as events, null_ctx}
use net_file_transfer.OpenSsl.{Md5, md5_digest_length}
use net_file_transfer.Log.{
  Log, write_log, simplog_fatal, simplog_info, simplog_debug, number, string,
}
use net_file_transfer.FileInfo.{FileInfo, maxlen, decode}
use net_file_transfer.Stdio.{World, bufsiz}
use net_file_transfer.Interface.{
  RequestType, init, head, file_data, fin, enum_value, WriteArg, writefile,
}

-- `loop_exit` says that `event_base_loopexit` was called.
pub record Server : Type 0 where
  pub status : RequestType
  pub world : World
  pub loop_exit : Bool

abbrev pub logging : (Log → Log) → World → World
logging f w = record w { log = f w.log }

-- The bytes of `Status` that `bufferevent_write(bev, &Status, sizeof(Status))` sends.
unfoldable pub request_bytes : RequestType → List ℕ
unfolding le_bytes enum_value
request_bytes t = le_bytes 4 (enum_value t)

-- `memset(&finfo, 0, sizeof(finfo))`.
abbrev pub zero_fileinfo : FileInfo
zero_fileinfo = record { name = zeros maxlen; size = 0; info = zeros md5_digest_length }

module _ (l : LibEvent) (m : Md5) where
  open l use {
    EvBuffer, BufferEvent, evbuffer_get_length, get_input, with_input, bufferevent_socket_new,
    bufferevent_setcb, bufferevent_enable, bufferevent_read, bufferevent_write,
  }

  -- `bufferevent_write(bev, &Status, sizeof(Status))`, after an assignment to `Status`.
  abbrev pub request : Server → RequestType → World → BufferEvent → Server × BufferEvent
  request s status w bev =
      (record s { status = status; world = w }, bufferevent_write bev (request_bytes status))

  -- `listen_cb`, where `allocated` says whether `bufferevent_socket_new` gave a bufferevent.
  unfoldable pub listen_cb : Bool → Server → Outcome (Server × BufferEvent)
  listen_cb allocated s = do
    assert allocated
    let w = logging (write_log simplog_info "绑定事件." []) s.world
    let bev = bufferevent_setcb bufferevent_socket_new (some reads) none (some events) null_ctx
    ok (request s head w (bufferevent_enable bev))

  -- The end of the branch for HEAD: what is logged, and the request for the data.
  abbrev pub after_head : Server → ℕ → List ℕ → ℕ → BufferEvent → Server × BufferEvent
  after_head s n name size bev =
      request s file_data
        (logging
          (λ log.
            write_log simplog_debug "文件名:%s,大小:%lu\n" (string name ∷ number size ∷ [])
              (write_log simplog_debug "接收数据大小:%lu\n" (number n ∷ []) log))
          s.world)
        bev

  -- `read_cb` while `Status == HEAD`: the local `finfo` afterwards too.
  unfoldable pub read_head : Server → BufferEvent → Outcome (Server × FileInfo × BufferEvent)
  read_head s bev = do
    let (bytes, bev₁) = bufferevent_read bev bufsiz
    let n = length bytes
    array ← memcpy (zeros bufsiz) bytes n
    finfo ← decode zero_fileinfo array n
    name ← text finfo.name
    let (s', bev₂) = after_head s n name finfo.size bev₁
    ok (s', finfo, bev₂)

  -- What follows `pthread_join` in `read_cb`.
  abbrev pub after_writing : Server → ℕ → World → BufferEvent → Server × BufferEvent
  after_writing s ret w bev =
      let w₁ = logging (write_log simplog_debug "写入结果:%ld" (number ret ∷ [])) w in
      if ret == 0
      then request s fin (logging (write_log simplog_debug "文件写入完成." []) w₁) bev
      else request s file_data (logging (write_log simplog_fatal "文件传输错误!" []) w₁) bev

  -- `read_cb` while `Status == DATA`: nothing happens until exactly `finfo.size` bytes wait.
  unfoldable pub read_data :
      Server → FileInfo → BufferEvent → Outcome (Server × FileInfo × BufferEvent)
  read_data s finfo bev =
      let w = logging (write_log simplog_debug "接收文件..." []) s.world in
      let buf = get_input bev in
      let write = (do
        let w₁ = logging (write_log simplog_debug "准备写入文件..." []) w
        assert (w₁.pthread_create == 0)
        (ret, w₂, args) ← writefile l m w₁ (record { finfo = finfo; buffer = buf })
        assert (w₂.pthread_join == 0)
        let (s', bev') = after_writing s ret w₂ (with_input bev args.buffer)
        ok (s', args.finfo, bev')) in
      if evbuffer_get_length buf == finfo.size
      then write
      else ok (record s { world = w }, finfo, bev)

  -- `read_cb`. Its local `finfo` is not initialised, so `stack` is what happens to stand there;
  -- what stands there when the callback returns is part of the result.
  unfoldable pub read_cb :
      Server → FileInfo → BufferEvent → Outcome (Server × FileInfo × BufferEvent)
  read_cb s stack bev = elim s.status [
    | head ↦ read_head s bev
    | file_data ↦ read_data s stack bev
    | init ↦ ok (s, stack, bev)
    | fin ↦ ok (s, stack, bev)
  ]

-- `write_cb`, which nothing registers, does nothing.
unfoldable pub write_cb : Server → Server
write_cb s = s

-- `event_cb`, on the connection `fd`; `error_text` is `strerror(errno)`.
unfoldable pub event_cb : ℕ → List ℕ → Server → Events → Server
event_cb fd error_text s e =
    if e.connected
    then record s {
      world = logging (write_log simplog_info "[%d]connected.\n" (number fd ∷ [])) s.world;
    }
    else if e.eof
    then closed (if e.error then failed s.world else s.world)
    else if e.error
    then closed (failed s.world)
    else s
  where
    failed : World → World
    failed =
        logging
          (write_log simplog_fatal "Got an error on the connection: %s" (string error_text ∷ []))

    closed : World → Server
    closed w = record s {
      world = logging (write_log simplog_debug "[%d] 断开连接!" (number fd ∷ [])) w;
    }

-- `signal_cb`.
unfoldable pub signal_cb : Server → Server
signal_cb s = record s {
  world = logging (write_log simplog_info "exit..." []) s.world;
  loop_exit = true;
}
