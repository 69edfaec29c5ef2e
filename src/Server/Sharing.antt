-- ===== src/Server/Sharing.antt =====
-- What the server's callbacks do to each other: `Status` is one variable for all connections.
use net_file_transfer.Base.{
  ◌≡◌, refl, subst, ok-injective, ap, ◌∙◌, [], ◌++◌, true, ok, fault, ◌>>=◌,
}
use net_file_transfer.LibEvent.{LibEvent, IsLibEvent, IsWatched, incoming, outgoing}
use net_file_transfer.OpenSsl.{Md5}
use net_file_transfer.FileInfo.{FileInfo}
use net_file_transfer.Stdio.{SameWorld}
use net_file_transfer.Interface.{head}
use net_file_transfer.Server.{Server, request_bytes, listen_cb, read_cb}
use net_file_transfer.Base.{◌↔◌}
use net_file_transfer.Server.Limits.{IsHarmful, read_cb_limit}

module _ {l : LibEvent} (m : Md5) (lv : IsLibEvent l) where
  -- If libevent gives a bufferevent, `listen_cb` returns with the server at HEAD, nothing but the
  -- log changed in its world, nothing to read on the new connection, and exactly the request for
  -- the header to be sent.
  pub listen_cb-asks :
      (s : Server)
      → (s' : Server) × (bev : l.BufferEvent) × (listen_cb l m true s ≡ ok (s', bev))
        × (s'.status ≡ head)
        × SameWorld s.world s'.world
        × (incoming l bev ≡ [])
        × (outgoing l bev ≡ request_bytes head)
  unfolding listen_cb
  listen_cb-asks s = (
    _,
    _,
    refl,
    refl,
    refl,
    lv.write_input _ _ ∙ lv.enable_input _ ∙ lv.setcb_input _ _ _ _ _ ∙ lv.socket_new_input,
    lv.write_output _ _
        ∙ ap (λ o. o ++ request_bytes head)
            (lv.enable_output _ ∙ lv.setcb_output _ _ _ _ _ ∙ lv.socket_new_output),
  )

  -- The callbacks of the connection are registered.
  pub listen_cb-IsWatched :
      (s s' : Server) (bev : l.BufferEvent) → listen_cb l m true s ≡ ok (s', bev) → IsWatched l bev
  unfolding listen_cb
  listen_cb-IsWatched s s' bev e =
      subst (IsWatched l) (ap (λ (r : Server × l.BufferEvent). r.1) (ok-injective e)) (
        lv.write_getcb _ _ ∙ lv.enable_getcb _ ∙ lv.setcb_getcb _ _ _ _ _,
        lv.write_reading _ _ ∙ lv.enable_reading _,
      )

  -- A second connection, made while bytes wait on a first one, makes the next `read_cb` on the
  -- first take them for a header, whatever the server had asked the first for: it leaves what C
  -- defines exactly if they are more bytes than a header has, or at least as many as the name has
  -- and none of those of the name is a NUL.
  pub listen_cb-overrun :
      (s : Server) (stack : FileInfo) (bev : l.BufferEvent)
      → ((listen_cb l m true s >>= λ (s', other). read_cb l m s' stack bev) ≡ fault)
        ↔ IsHarmful (incoming l bev)
  listen_cb-overrun s stack bev =
      let (s', other, ran, status, _, _, _) = listen_cb-asks s in
      rw ran (read_cb_limit m lv s' stack bev status)
