-- ===== src/Transfer/Partial.antt =====
-- A header that the connection cuts.
use net_file_transfer.Base.{
  ℕ, ◌<◌, ◌≡◌, refl, ap, ◌∙◌, subst, sym, List, [], ◌∷◌, ◌++◌, length, take, drop, length-take, ok,
  arith,
}
use net_file_transfer.LibEvent.{LibEvent, IsLibEvent, outgoing}
use net_file_transfer.OpenSsl.{Md5, IsMd5}
use net_file_transfer.FileInfo.{FileInfo, maxlen, to_bytes}
use net_file_transfer.FileInfo.Layout.{length-to_bytes}
use net_file_transfer.Stdio.{SameWorld}
use net_file_transfer.Interface.{head, file_data}
use net_file_transfer.Server.{Server, request_bytes}
use net_file_transfer.Server.Partial.{read_cb-size}
use net_file_transfer.Client.{Client}
use net_file_transfer.Client.Answer.{Holds, Describes}
use net_file_transfer.Transfer.{System, Event, to_server, to_client, step, run}
use net_file_transfer.Transfer.Steps.{Traffic, step-to_server, arrived_first}
use net_file_transfer.Transfer.Messages.{header_sent, data_sent}
use net_file_transfer.Transfer.Session.{Ready, same_through}
use net_file_transfer.Transfer.Stuck.{AreDeliveries, run-waits}

module _ {l : LibEvent} {m : Md5} (lv : IsLibEvent l) (mv : IsMd5 m) where
  -- A part of the name reaches the server: it asks for the data, with a header of size 0 on its
  -- stack, and the rest of the header is still on its way.
  part_received :
      (s : System l) (f : FileInfo) (n : ℕ) {outfile content : List ℕ}
      → Traffic l s head [] [] (to_bytes f)
      → Describes m f outfile content
      → 0 < n
      → n < maxlen
      → (s' : System l) × (step l m s (to_server n) ≡ ok s')
        × Traffic l s' file_data [] (request_bytes file_data) (drop n (to_bytes f))
        × (s'.frame.size ≡ 0)
        × SameWorld s.server.world s'.server.world
        × (s'.client ≡ s.client)
  part_received s f n v describes pos short =
      let bytes = take n (to_bytes f) in
      let size : length bytes ≡ n =
        omega (arith, length-take n (to_bytes f), length-to_bytes describes.valid) in
      let bev = l.arrived s.server_bev bytes in
      let (server, f', bev', ran, h, none') =
        read_cb-size m lv s.server s.frame bev bytes v.status
          (arrived_first m lv s.server_bev bytes v.server_in) (omega (arith, size)) in
      (
        _,
        step-to_server m lv s n bytes server f' bev' (ap (take n) v.client_out)
            (omega (arith, size)) ran,
        record {
          status = h.status;
          server_in = h.read_all;
          server_out =
              h.asked
              ∙ ap (λ o. o ++ request_bytes file_data)
                  (lv.arrived_output s.server_bev bytes ∙ v.server_out);
          client_in = lv.sent_input s.client_bev n ∙ v.client_in;
          client_out = lv.sent_output s.client_bev n ∙ ap (drop n) v.client_out;
        },
        none',
        h.same_world,
        refl,
      )

  -- From the same start as a transfer, if the connection delivers only a part of the name, of at
  -- least a byte, when the header is sent, and nothing else takes the place of the header on the
  -- server's stack: the server at once has the request for the data, and only that, on its way, and
  -- whatever is delivered afterwards, that request first, the run returns with the server still at
  -- DATA and its world, the log aside, unchanged.
  pub cut_header-waits :
      (s : System l) (n : ℕ) (es : List Event) {infile outfile content : List ℕ}
      → Ready lv mv s infile outfile content
      → 0 < n
      → n < maxlen
      → AreDeliveries es
      → (y t : System l) × (run l m s (to_client 4 ∷ to_server n ∷ []) ≡ ok y)
        × (y.server.status ≡ file_data)
        × (outgoing l y.server_bev ≡ request_bytes file_data)
        × (run l m s (to_client 4 ∷ to_server n ∷ to_client 4 ∷ es) ≡ ok t)
        × (t.server.status ≡ file_data)
        × SameWorld s.server.world t.server.world
  unfolding run
  cut_header-waits s n es {content} r pos short only =
      let (s₁, f, ran₁, v₁, describes, held₁, five₁, server₁) =
        header_sent lv mv s r.traffic r.can_send in
      let (s₂, ran₂, v₂, zero', world₂, client₂) = part_received s₁ f n v₁ describes pos short in
      let (s₃, ran₃, v₃, _, _, server₃, frame₃) =
        data_sent lv mv s₂ (drop n (to_bytes f)) v₂
          (subst (λ (c : Client l). Holds l c.buf content) (sym client₂) held₁)
          (ap (λ (c : Client l). length c.str) client₂ ∙ five₁) in
      let (t, ran, status, same) =
        run-waits m lv s₃ s₃.frame s.server.world [] (drop n (to_bytes f) ++ content) es
          (record {
            traffic = v₃;
            on_stack = refl;
            same_world =
                same_through (ap (λ (v : Server). v.world) server₁) world₂
                  (ap (λ (v : Server). v.world) server₃);
          })
          (λ k some' few e. omega (arith, e, ap (λ (g : FileInfo). g.size) frame₃, zero')) only in
      (
        s₂,
        t,
        rw (ran₁, ran₂) refl,
        v₂.status,
        v₂.server_out,
        rw (ran₁, ran₂, ran₃) ran,
        status,
        same,
      )
