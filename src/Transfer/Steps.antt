-- ===== src/Transfer/Steps.antt =====
-- One delivery in either direction, given what the read callback returns.
use net_file_transfer.Base.{
  ℕ, ◌<◌, ◌≤◌, ◌≡◌, ap, ◌∙◌, List, [], ◌++◌, ok, length, take, drop, drop_all, lt→ltb,
}
use net_file_transfer.LibEvent.{LibEvent, IsLibEvent, incoming, outgoing}
use net_file_transfer.OpenSsl.{Md5}
use net_file_transfer.FileInfo.{FileInfo}
use net_file_transfer.Interface.{RequestType}
use net_file_transfer.Server.{Server, read_cb as server_read_cb}
use net_file_transfer.Client.{Client, read_cb as client_read_cb}
use net_file_transfer.Transfer.{System, to_server, to_client, step}

-- The request that the server is in, and the bytes on their way.
pub record Traffic (l : LibEvent) (s : System l) (asked : RequestType) (waiting down up : List ℕ)
    : Type 0 where
  pub status : s.server.status ≡ asked
  pub server_in : incoming l s.server_bev ≡ waiting
  pub server_out : outgoing l s.server_bev ≡ down
  pub client_in : incoming l s.client_bev ≡ []
  pub client_out : outgoing l s.client_bev ≡ up

module _ {l : LibEvent} (m : Md5) (lv : IsLibEvent l) where
  pub step-to_server :
      (s : System l) (k : ℕ) (bytes : List ℕ) (server : Server) (frame : FileInfo)
      (server_bev : l.BufferEvent)
      → take k (outgoing l s.client_bev) ≡ bytes
      → 0 < length bytes
      → server_read_cb l m s.server s.frame (l.arrived s.server_bev bytes)
        ≡ ok (server, frame, server_bev)
      → step l m s (to_server k)
        ≡ ok (record s {
          server = server;
          frame = frame;
          server_bev = server_bev;
          client_bev = (l.sent s.client_bev k).1;
        })
  unfolding step
  step-to_server s k bytes server frame server_bev cut some' e =
      rw (lv.sent_bytes s.client_bev k, cut, lt→ltb 0 (length bytes) some', e)

  pub step-to_client :
      (s : System l) (k : ℕ) (bytes : List ℕ) (client : Client l) (client_bev : l.BufferEvent)
      → take k (outgoing l s.server_bev) ≡ bytes
      → 0 < length bytes
      → client_read_cb l m s.client s.scratch (l.arrived s.client_bev bytes)
        ≡ ok (client, client_bev)
      → step l m s (to_client k)
        ≡ ok (record s {
          client = client;
          client_bev = client_bev;
          server_bev = (l.sent s.server_bev k).1;
        })
  unfolding step
  step-to_client s k bytes client client_bev cut some' e =
      rw (lv.sent_bytes s.server_bev k, cut, lt→ltb 0 (length bytes) some', e)

  -- All that was to be sent is gone; what has arrived stands behind what waited.
  pub sent_all :
      (v : l.BufferEvent) (k : ℕ) (bytes : List ℕ)
      → outgoing l v ≡ bytes
      → length bytes ≤ k
      → outgoing l (l.sent v k).1 ≡ []
  sent_all v k bytes e h = lv.sent_output v k ∙ ap (drop k) e ∙ drop_all k bytes h

  pub arrived_first :
      (v : l.BufferEvent) (bytes : List ℕ)
      → incoming l v ≡ []
      → incoming l (l.arrived v bytes) ≡ bytes
  arrived_first v bytes e = lv.arrived_input v bytes ∙ ap (λ b. b ++ bytes) e
