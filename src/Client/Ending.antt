-- ===== src/Client/Ending.antt =====
-- What the client does when it is asked for the data, and when it is told that all is well.
use net_file_transfer.Base.{ℕ, ◌≡◌, refl, ap, ◌∙◌, List, [], ◌++◌, ok, ◌>>=◌, length}
use net_file_transfer.LibEvent.{LibEvent, IsLibEvent, incoming, outgoing}
use net_file_transfer.OpenSsl.{Md5}
use net_file_transfer.Interface.{init, file_data, fin, enum_value}
use net_file_transfer.Server.{request_bytes}
use net_file_transfer.Client.{
  freed, live, Client, Scratch, data_sent, send_data, write_cb, finish, read_cb,
}
use net_file_transfer.Client.Request.{told, read_cb-told, read_all}
use net_file_transfer.Client.Answer.{Holds}

module _ {l : LibEvent} (m : Md5) (lv : IsLibEvent l) where
  pub dispatch_data :
      (c : Client l) (scratch : Scratch) (bev : l.BufferEvent) (str : List ℕ)
      → (finish l m (told c file_data str) bev >>= λ (c', bev'). write_cb l m c' scratch bev')
        ≡ send_data l m (told c file_data str) bev
  unfolding finish write_cb
  dispatch_data c scratch bev str = refl

  -- Asked for the data, a client whose `buf` holds some content returns, sends the content, and
  -- keeps an empty buffer.
  pub read_cb-data :
      (c : Client l) (scratch : Scratch) (bev : l.BufferEvent) {content : List ℕ}
      → length c.str ≡ 5
      → Holds l c.buf content
      → incoming l bev ≡ request_bytes file_data
      → (c' : Client l) × (bev' : l.BufferEvent) × (read_cb l m c scratch bev ≡ ok (c', bev'))
        × Holds l c'.buf []
        × (length c'.str ≡ 5)
        × (incoming l bev' ≡ [])
        × (outgoing l bev' ≡ outgoing l bev ++ content)
  unfolding send_data
  read_cb-data c scratch bev {content} five (buf, points, full) held =
      let (str, five', goes_on) = read_cb-told m lv c scratch bev file_data five held in
      let bev₁ = (l.bufferevent_read bev 4).1 in
      let bev₂ = (l.bufferevent_write_buffer bev₁ buf).0 in
      let buf₂ = (l.bufferevent_write_buffer bev₁ buf).1 in
      (
        data_sent l m (told c file_data str) buf buf₂,
        bev₂,
        goes_on ∙ dispatch_data c scratch bev₁ str ∙ rw points,
        (buf₂, refl, lv.write_buffer_emptied bev₁ buf),
        five',
        lv.write_buffer_input bev₁ buf ∙ read_all m lv bev file_data held,
        lv.write_buffer_output bev₁ buf
            ∙ ap (λ o. o ++ l.contents buf) (lv.read_output bev 4)
            ∙ ap (λ b. outgoing l bev ++ b) full,
      )

  dispatch_fin :
      (c : Client l) (scratch : Scratch) (bev : l.BufferEvent) (str : List ℕ) (buf : l.EvBuffer)
      → c.buf ≡ live buf
      → (finish l m (told c fin str) bev >>= λ (c', bev'). write_cb l m c' scratch bev')
        ≡ ok (
          record (told c fin str) { buf = freed; status = enum_value init },
          l.bufferevent_disable bev,
        )
  unfolding finish write_cb
  dispatch_fin c scratch bev str buf points = rw points

  -- Told FIN, a client with a live buffer returns, frees the buffer, resets its request to INIT
  -- and sends nothing.
  pub read_cb-fin :
      (c : Client l) (scratch : Scratch) (bev : l.BufferEvent) {content : List ℕ}
      → length c.str ≡ 5
      → Holds l c.buf content
      → incoming l bev ≡ request_bytes fin
      → (c' : Client l) × (bev' : l.BufferEvent) × (read_cb l m c scratch bev ≡ ok (c', bev'))
        × (c'.buf ≡ freed)
        × (c'.status ≡ enum_value init)
        × (incoming l bev' ≡ [])
        × (outgoing l bev' ≡ outgoing l bev)
  read_cb-fin c scratch bev five (buf, points, full) held =
      let (str, five', goes_on) = read_cb-told m lv c scratch bev fin five held in
      let bev₁ = (l.bufferevent_read bev 4).1 in
      (
        record (told c fin str) { buf = freed; status = enum_value init },
        l.bufferevent_disable bev₁,
        goes_on ∙ dispatch_fin c scratch bev₁ str buf points,
        refl,
        refl,
        lv.disable_input bev₁ ∙ read_all m lv bev fin held,
        lv.disable_output bev₁ ∙ lv.read_output bev 4,
      )
