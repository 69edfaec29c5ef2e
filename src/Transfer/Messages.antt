-- ===== src/Transfer/Messages.antt =====
-- The messages of a session one by one: the header, the two requests and the last word.
use net_file_transfer.Base.{
  ℕ, ◌<◌, ◌≡◌, refl, ap, ◌∙◌, List, [], ◌++◌, ok, length, take, take_all, arith,
}
use net_file_transfer.LibEvent.{LibEvent, IsLibEvent, incoming, outgoing}
use net_file_transfer.OpenSsl.{Md5, IsMd5}
use net_file_transfer.FileInfo.{FileInfo, sizeof_fileinfo, to_bytes}
use net_file_transfer.FileInfo.Layout.{length-to_bytes}
use net_file_transfer.Stdio.{SameWorld}
use net_file_transfer.Interface.{RequestType, init, head, file_data, fin, enum_value}
use net_file_transfer.Server.{request_bytes}
use net_file_transfer.Server.Head.{read_cb-head}
use net_file_transfer.Client.{freed}
use net_file_transfer.Client.Request.{length-request_bytes}
use net_file_transfer.Client.Answer
use net_file_transfer.Client.Answer.{CanSend, Holds, Describes}
use net_file_transfer.Client.Ending.{read_cb-data, read_cb-fin}
use net_file_transfer.Transfer.{System, to_server, to_client, step}
use net_file_transfer.Transfer.Steps.{
  Traffic, step-to_server, step-to_client, sent_all, arrived_first,
}

module _ {l : LibEvent} {m : Md5} (lv : IsLibEvent l) (mv : IsMd5 m) where
  -- A request of four bytes is delivered whole.
  whole_request :
      (s : System l) (asked t : RequestType) (waiting up : List ℕ)
      → Traffic l s asked waiting (request_bytes t) up
      → (take 4 (outgoing l s.server_bev) ≡ request_bytes t)
        × (0 < length (request_bytes t))
        × (outgoing l (l.sent s.server_bev 4).1 ≡ [])
        × (incoming l (l.arrived s.client_bev (request_bytes t)) ≡ request_bytes t)
        × (outgoing l (l.arrived s.client_bev (request_bytes t)) ≡ up)
  whole_request s asked t waiting up v = (
    ap (take 4) v.server_out ∙ take_all 4 (request_bytes t) (omega (arith, length-request_bytes t)),
    omega (arith, length-request_bytes t),
    sent_all m lv s.server_bev 4 (request_bytes t) v.server_out
        (omega (arith, length-request_bytes t)),
    arrived_first m lv s.client_bev (request_bytes t) v.client_in,
    lv.arrived_output s.client_bev (request_bytes t) ∙ v.client_out,
  )

  -- The request for the header reaches the client, and the header sets out.
  pub header_sent :
      (s : System l) {infile outfile content : List ℕ}
      → Traffic l s head [] (request_bytes head) []
      → CanSend l s.client s.scratch infile outfile content
      → (s' : System l) × (f : FileInfo) × (step l m s (to_client 4) ≡ ok s')
        × Traffic l s' head [] [] (to_bytes f)
        × Describes m f outfile content
        × Holds l s'.client.buf content
        × (length s'.client.str ≡ 5)
        × (s'.server ≡ s.server)
  header_sent s v can =
      let (cut, some', gone, here, silent) = whole_request s head head [] [] v in
      let bev = l.arrived s.client_bev (request_bytes head) in
      let (c, bev', f, ran, describes, held, five, read, sent) =
        Answer.read_cb-Describes lv mv s.client s.scratch bev can here in
      (
        _,
        f,
        step-to_client m lv s 4 (request_bytes head) c bev' cut some' ran,
        record {
          status = v.status;
          server_in = lv.sent_input s.server_bev 4 ∙ v.server_in;
          server_out = gone;
          client_in = read;
          client_out = sent ∙ ap (λ o. o ++ to_bytes f) silent;
        },
        describes,
        held,
        five,
        refl,
      )

  -- The header reaches the server, and the request for the data sets out.
  pub header_received :
      (s : System l) (f : FileInfo) {outfile content : List ℕ}
      → Traffic l s head [] [] (to_bytes f)
      → Describes m f outfile content
      → (s' : System l) × (step l m s (to_server sizeof_fileinfo) ≡ ok s')
        × Traffic l s' file_data [] (request_bytes file_data) []
        × (s'.frame ≡ f)
        × SameWorld s.server.world s'.server.world
        × (s'.client ≡ s.client)
  header_received s f v describes =
      let size = length-to_bytes describes.valid in
      let bev = l.arrived s.server_bev (to_bytes f) in
      let (server, bev', ran, h) =
        read_cb-head m lv s.server s.frame bev f v.status
          (arrived_first m lv s.server_bev (to_bytes f) v.server_in) describes.valid
          describes.named in
      (
        _,
        step-to_server m lv s sizeof_fileinfo (to_bytes f) server f bev'
            (ap (take sizeof_fileinfo) v.client_out
              ∙ take_all sizeof_fileinfo (to_bytes f) (omega (arith, size)))
            (omega (arith, size)) ran,
        record {
          status = h.status;
          server_in = h.read_all;
          server_out =
              h.asked
              ∙ ap (λ o. o ++ request_bytes file_data)
                  (lv.arrived_output s.server_bev (to_bytes f) ∙ v.server_out);
          client_in = lv.sent_input s.client_bev sizeof_fileinfo ∙ v.client_in;
          client_out =
              sent_all m lv s.client_bev sizeof_fileinfo (to_bytes f) v.client_out
                (omega (arith, size));
        },
        refl,
        h.same_world,
        refl,
      )

  -- The request for the data reaches the client, and the data sets out behind what was still on
  -- its way.
  pub data_sent :
      (s : System l) {content : List ℕ} (up : List ℕ)
      → Traffic l s file_data [] (request_bytes file_data) up
      → Holds l s.client.buf content
      → length s.client.str ≡ 5
      → (s' : System l) × (step l m s (to_client 4) ≡ ok s')
        × Traffic l s' file_data [] [] (up ++ content)
        × Holds l s'.client.buf []
        × (length s'.client.str ≡ 5)
        × (s'.server ≡ s.server)
        × (s'.frame ≡ s.frame)
  data_sent s {content} up v held five =
      let (cut, some', gone, here, silent) = whole_request s file_data file_data [] up v in
      let bev = l.arrived s.client_bev (request_bytes file_data) in
      let (c, bev', ran, empty, five', read, sent) =
        read_cb-data m lv s.client s.scratch bev five held here in
      (
        _,
        step-to_client m lv s 4 (request_bytes file_data) c bev' cut some' ran,
        record {
          status = v.status;
          server_in = lv.sent_input s.server_bev 4 ∙ v.server_in;
          server_out = gone;
          client_in = read;
          client_out = sent ∙ ap (λ o. o ++ content) silent;
        },
        empty,
        five',
        refl,
        refl,
      )

  -- The last word reaches the client.
  pub last_word :
      (s : System l) {content : List ℕ}
      → Traffic l s fin [] (request_bytes fin) []
      → Holds l s.client.buf content
      → length s.client.str ≡ 5
      → (s' : System l) × (step l m s (to_client 4) ≡ ok s')
        × Traffic l s' fin [] [] []
        × (s'.client.buf ≡ freed)
        × (s'.client.status ≡ enum_value init)
        × (s'.server ≡ s.server)
  last_word s v held five =
      let (cut, some', gone, here, silent) = whole_request s fin fin [] [] v in
      let bev = l.arrived s.client_bev (request_bytes fin) in
      let (c, bev', ran, given_back, over, read, sent) =
        read_cb-fin m lv s.client s.scratch bev five held here in
      (
        _,
        step-to_client m lv s 4 (request_bytes fin) c bev' cut some' ran,
        record {
          status = v.status;
          server_in = lv.sent_input s.server_bev 4 ∙ v.server_in;
          server_out = gone;
          client_in = read;
          client_out = sent ∙ silent;
        },
        given_back,
        over,
        refl,
      )
