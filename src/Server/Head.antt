-- ===== src/Server/Head.antt =====
-- What the server makes of the first bytes that arrive on a connection.
use net_file_transfer.Base.{
  ℕ, ◌<◌, ◌≤◌, ◌≡◌, refl, ap, ◌∙◌, List, [], ◌++◌, ok, fault, length, take, drop, take_all,
  drop_all, arith,
}
use net_file_transfer.Memory.{memcpy, text, zeros, length-zeros}
use net_file_transfer.Memory.Text.{memcpy_ok}
use net_file_transfer.LibEvent.{LibEvent, IsLibEvent, incoming, outgoing}
use net_file_transfer.OpenSsl.{Md5, md5_digest_length}
use net_file_transfer.FileInfo.{FileInfo, IsFileInfo, maxlen, sizeof_fileinfo, to_bytes, decode}
use net_file_transfer.FileInfo.Layout.{length-to_bytes}
use net_file_transfer.FileInfo.Wire.{decode_lem, decode_overflow}
use net_file_transfer.Stdio.{SameWorld, bufsiz}
use net_file_transfer.Interface.{head, file_data}
use net_file_transfer.Server.{Server, zero_fileinfo, request_bytes, read_head, after_head, read_cb}

pub zero-IsFileInfo : IsFileInfo zero_fileinfo
zero-IsFileInfo = record {
  name_length = length-zeros maxlen;
  size_bound = omega arith;
  info_length = length-zeros md5_digest_length;
}

-- The server after a whole header: it has asked for the data, and nothing else changed.
pub record Headed (l : LibEvent) (s s' : Server) (bev bev' : l.BufferEvent) : Type 0 where
  pub status : s'.status ≡ file_data
  pub same_world : SameWorld s.world s'.world
  pub read_all : incoming l bev' ≡ []
  pub asked : outgoing l bev' ≡ outgoing l bev ++ request_bytes file_data

-- What `bufferevent_read` puts at the start of the zeroed array.
pub copied :
    (bytes : List ℕ)
    → length bytes ≤ bufsiz
    → memcpy (zeros bufsiz) bytes (length bytes) ≡ ok (bytes ++ drop (length bytes) (zeros bufsiz))
copied bytes h =
    memcpy_ok (zeros bufsiz) bytes (length bytes) (omega (arith, length-zeros bufsiz)) (omega arith)
    ∙ ap (λ b. ok (b ++ drop (length bytes) (zeros bufsiz)))
        (take_all (length bytes) bytes (omega arith))

decoded :
    (f : FileInfo) (rest : List ℕ)
    → IsFileInfo f
    → decode zero_fileinfo (to_bytes f ++ rest) (length (to_bytes f)) ≡ ok f
decoded f rest v = rw (length-to_bytes v) (decode_lem rest v zero-IsFileInfo)

module _ {l : LibEvent} (m : Md5) (lv : IsLibEvent l) where
  pub read_whole :
      (bev : l.BufferEvent) (bytes : List ℕ)
      → incoming l bev ≡ bytes
      → length bytes ≤ bufsiz
      → (l.bufferevent_read bev bufsiz).0 ≡ bytes
  read_whole bev bytes held h =
      lv.read_removed bev bufsiz ∙ ap (take bufsiz) held ∙ take_all bufsiz bytes h

  -- While the server waits for a header and exactly the bytes of a header whose name ends within
  -- its array have arrived, `read_cb` returns with that header in its local `finfo`, at DATA, with
  -- the request for the data sent and nothing but the log changed in its world.
  pub read_cb-head :
      (s : Server) (stack : FileInfo) (bev : l.BufferEvent) (f : FileInfo) {name : List ℕ}
      → s.status ≡ head
      → incoming l bev ≡ to_bytes f
      → IsFileInfo f
      → text f.name ≡ ok name
      → (s' : Server) × (bev' : l.BufferEvent) × (read_cb l m s stack bev ≡ ok (s', f, bev'))
        × Headed l s s' bev bev'
  unfolding read_cb read_head
  read_cb-head s stack bev f {name} asking held v named =
      let size : length (to_bytes f) ≤ bufsiz = omega (arith, length-to_bytes v) in
      let rest = drop (length (to_bytes f)) (zeros bufsiz) in
      let bev₁ = (l.bufferevent_read bev bufsiz).1 in
      (
        (after_head l m s (length (to_bytes f)) name f.size bev₁).0,
        (after_head l m s (length (to_bytes f)) name f.size bev₁).1,
        rw (
          asking,
          read_whole bev (to_bytes f) held size,
          copied (to_bytes f) size,
          decoded f rest v,
          named,
        ),
        record {
          status = refl;
          same_world = refl;
          read_all =
              lv.write_input bev₁ (request_bytes file_data)
              ∙ lv.read_input bev bufsiz
              ∙ drop_all bufsiz (incoming l bev) (rw held size);
          asked =
              lv.write_output bev₁ (request_bytes file_data)
              ∙ ap (λ o. o ++ request_bytes file_data) (lv.read_output bev bufsiz);
        },
      )

  -- While the server waits for a header, more bytes than a header has, up to BUFSIZ, make
  -- `read_cb` write past the end of its local `finfo`, whatever the bytes are.
  pub read_cb-overflow :
      (s : Server) (stack : FileInfo) (bev : l.BufferEvent)
      → s.status ≡ head
      → sizeof_fileinfo < length (incoming l bev)
      → length (incoming l bev) ≤ bufsiz
      → read_cb l m s stack bev ≡ fault
  unfolding read_cb read_head
  read_cb-overflow s stack bev asking large fits = rw (
    asking,
    read_whole bev (incoming l bev) refl fits,
    copied (incoming l bev) fits,
    decode_overflow zero_fileinfo _ (length (incoming l bev)) zero-IsFileInfo large,
  )
