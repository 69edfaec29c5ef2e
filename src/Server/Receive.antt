-- ===== src/Server/Receive.antt =====
-- What the server makes of the bytes that arrive once it has asked for the data.
use net_file_transfer.Base.{
  ℕ, ◌<◌, ◌^◌, ◌≡◌, ◌≢◌, inl, inr, Bool-cases, refl, ap, ◌∙◌, List, [], ◌++◌, ok, true, length,
  take, arith, some, ◌==◌, neq→==, ==_iff, assert_holds,
}
use net_file_transfer.Memory.{text, basename, strip_slashes}
use net_file_transfer.LibEvent.{LibEvent, IsLibEvent, incoming, outgoing}
use net_file_transfer.OpenSsl.{Md5}
use net_file_transfer.FileInfo.{FileInfo}
use net_file_transfer.Log.{write_log, simplog_debug}
use net_file_transfer.Stdio.{World, SameWorld}
use net_file_transfer.Stdio.Files.{Left, Left-logged, Left-SameWorld}
use net_file_transfer.Interface.{RequestType, file_data, fin, WriteArg, writefile}
use net_file_transfer.Stdio.Counts.{counted, counted_le}
use net_file_transfer.Interface.Write.{Written, writefile_lem}
use net_file_transfer.Server.{Server, request_bytes, read_data, after_writing, read_cb, logging}

-- While the server waits for data and the number of bytes that wait differs from the size in the
-- header on its stack, `read_cb` returns with nothing changed but the log.
pub read_cb-wait :
    {l : LibEvent} (m : Md5)
    → IsLibEvent l
    → (s : Server) (stack : FileInfo) (bev : l.BufferEvent) → s.status ≡ file_data
    → length (incoming l bev) ≢ stack.size
    → read_cb l m s stack bev
      ≡ ok (record s { world = logging (write_log simplog_debug "接收文件..." []) s.world }, stack, bev)
unfolding read_cb read_data
read_cb-wait m lv s stack bev asking differs = rw (asking, lv.length_contents, neq→== _ _ differs)

-- The outcome of the callback once all bytes are there.
pub record Received (l : LibEvent) (s s' : Server) (path bytes : List ℕ) (bev bev' : l.BufferEvent)
    : Type 0 where
  pub stored : s'.world.file (basename path) ≡ some (take s.world.space bytes)
  pub others : (other : List ℕ) → other ≢ basename path → s'.world.file other ≡ s.world.file other
  pub left : Left (length bytes) s.world s'.world
  pub read_all : incoming l bev' ≡ []
  -- if `fwrite` counted all bytes the server says that it is done, and otherwise asks again
  pub finished :
      counted s.world bytes ≡ length bytes
      → (s'.status ≡ fin) × (outgoing l bev' ≡ outgoing l bev ++ request_bytes fin)
  pub asks_again :
      counted s.world bytes < length bytes
      → (s'.status ≡ file_data) × (outgoing l bev' ≡ outgoing l bev ++ request_bytes file_data)

-- The environment in which `read_cb` can write: its threads run, there is memory, and the name can
-- be opened.
pub record CanWrite (w : World) (path : List ℕ) : Type 0 where
  pub creates : w.pthread_create ≡ 0
  pub joins : w.pthread_join ≡ 0
  pub allocates : w.malloc ≡ true
  pub opens : w.writable (basename path) ≡ true

-- The world in which `writefile` is called.
abbrev pub ready_world : Server → World
ready_world s =
    logging (write_log simplog_debug "准备写入文件..." [])
      (logging (write_log simplog_debug "接收文件..." []) s.world)

module _ {l : LibEvent} (m : Md5) (lv : IsLibEvent l) where
  -- The bytes around the callback once it has drained the input and sent a request.
  drained_input :
      (bev : l.BufferEvent) (b : l.EvBuffer) (t : RequestType)
      → l.contents b ≡ []
      → incoming l (l.bufferevent_write (l.with_input bev b) (request_bytes t)) ≡ []
  drained_input bev b t empty =
      lv.write_input (l.with_input bev b) (request_bytes t) ∙ lv.with_input_input bev b ∙ empty

  sent_output :
      (bev : l.BufferEvent) (b : l.EvBuffer) (t : RequestType)
      → outgoing l (l.bufferevent_write (l.with_input bev b) (request_bytes t))
        ≡ outgoing l bev ++ request_bytes t
  sent_output bev b t =
      lv.write_output (l.with_input bev b) (request_bytes t)
      ∙ ap (λ o. o ++ request_bytes t) (lv.with_input_output bev b)

  after_writing-Received :
      (s : Server) (finfo : FileInfo) (path bytes : List ℕ) (ret : ℕ) (w w' : World)
      (bev : l.BufferEvent) (args : WriteArg l)
      → w.file ≡ s.world.file
      → SameWorld s.world w
      → Written l w (record { finfo = finfo; buffer = l.get_input bev }) path bytes ret w' args
      → Received l s
          (after_writing l m s ret w' (l.with_input bev args.buffer)).0
          path
          bytes
          bev
          (after_writing l m s ret w' (l.with_input bev args.buffer)).1
  after_writing-Received s finfo path bytes ret w w' bev args files same v =
      let room : w.space ≡ s.world.space = ap (λ (u : World). u.space) same in
      let count : counted w bytes ≡ counted s.world bytes = ap (λ u. counted u bytes) same in
      elim (Bool-cases (ret == 0)) [
        | inl zero ↦
            let all : counted w bytes ≡ length bytes = v.succeeded.0 ((==_iff ret 0).0 zero) in
            rw zero (record {
              stored = v.stored ∙ ap (λ n. some (take n bytes)) room;
              others = λ other ne. v.others other ne ∙ ap (λ f. f other) files;
              left = Left-logged _ (Left-SameWorld same v.left);
              read_all = drained_input bev args.buffer fin v.emptied;
              finished = λ _. (refl, sent_output bev args.buffer fin);
              asks_again = λ h. absurd (omega (arith, count));
            })
        | inr nonzero ↦
            let less : counted w bytes < length bytes =
              ground (arith, v.succeeded.1, counted_le w bytes) in
            rw nonzero (record {
              stored = v.stored ∙ ap (λ n. some (take n bytes)) room;
              others = λ other ne. v.others other ne ∙ ap (λ f. f other) files;
              left = Left-logged _ (Left-SameWorld same v.left);
              read_all = drained_input bev args.buffer file_data v.emptied;
              finished = λ h. absurd (omega (arith, count));
              asks_again = λ _. (refl, sent_output bev args.buffer file_data);
            })
      ]

  -- The steps of the callback around `writefile`.
  read_data_runs :
      (s : Server) (stack : FileInfo) (bev : l.BufferEvent) (ret : ℕ) (w₂ : World)
      (args : WriteArg l)
      → s.status ≡ file_data
      → length (incoming l bev) ≡ stack.size
      → s.world.pthread_create ≡ 0
      → writefile l m (ready_world s) (record { finfo = stack; buffer = l.get_input bev })
        ≡ ok (ret, w₂, args)
      → w₂.pthread_join ≡ 0
      → let (s', bev') = after_writing l m s ret w₂ (l.with_input bev args.buffer) in
        read_cb l m s stack bev ≡ ok (s', args.finfo, bev')
  unfolding read_cb read_data
  read_data_runs s stack bev ret w₂ args asking all creates run joins =
      rw (asking, lv.length_contents (l.get_input bev), (==_iff _ _).1 all)
        (assert_holds ((==_iff _ 0).1 creates) _ ∙ rw run (assert_holds ((==_iff _ 0).1 joins) _))

  -- While the server waits for data, as many bytes wait as the header on its stack says (fewer
  -- than 2^64), the name ends within its array and the environment lets it write: `read_cb`
  -- returns, the header on its stack is as before, but for trailing slashes of the name, which are
  -- gone, the file holds these bytes as far as the disk has room, no other file changes, the
  -- room is less by as many bytes, or none is left, and the rest of the environment as before,
  -- nothing is left to read, and FIN is sent if `fwrite` returned as many bytes in all as it was
  -- given, which it may on a disk without room for them, the request for the data if fewer.
  pub read_cb-Received :
      (s : Server) (stack : FileInfo) (bev : l.BufferEvent) {path : List ℕ}
      → s.status ≡ file_data
      → length (incoming l bev) ≡ stack.size
      → stack.size < 2 ^ 64
      → text stack.name ≡ ok path
      → CanWrite s.world path
      → (s' : Server) × (stack' : FileInfo) × (bev' : l.BufferEvent) × (read_cb l m s stack bev
          ≡ ok (s', stack', bev'))
        × (text stack'.name ≡ ok (strip_slashes path))
        × (stack'.size ≡ stack.size)
        × (stack'.info ≡ stack.info)
        × Received l s s' path (incoming l bev) bev bev'
  read_cb-Received s stack bev {path} asking all bound named can =
      let w₁ = ready_world s in
      let args : WriteArg l = record { finfo = stack; buffer = l.get_input bev } in
      let (ret, w₂, args', run, v) =
        writefile_lem m lv w₁ args named refl can.opens can.allocates (omega (arith, all)) in
      let (s', bev') = after_writing l m s ret w₂ (l.with_input bev args'.buffer) in
      (
        s',
        args'.finfo,
        bev',
        read_data_runs s stack bev ret w₂ args' asking all can.creates run
            (v.left.pthread_join ∙ can.joins),
        v.named,
        v.same_size,
        v.same_info,
        after_writing-Received s stack path (incoming l bev) ret w₁ w₂ bev args' refl refl v,
      )
