-- ===== src/Server/Steps.antt =====
-- Every callback of the server follows the protocol.
use net_file_transfer.Base.{
  ℕ, ◌≡◌, ◌≢◌, inl, inr, refl, sym, ap, subst, ◌∙◌, Bool, List, ◌∷◌, [], ◌++◌, ok, Always,
  Always-bind, Always-ok, assert, assert_some, ◌==◌, Bool-cases,
}
use net_file_transfer.Memory.{strcpy, strip_slashes, memcpy, text, basename}
use net_file_transfer.LibEvent.{LibEvent}
use net_file_transfer.OpenSsl.{Md5}
use net_file_transfer.FileInfo.{FileInfo, decode}
use net_file_transfer.Stdio.{World, fopen_wb, fclose}
use net_file_transfer.Stdio.Files.{opened_inv, fclose_other}
use net_file_transfer.Interface.{
  RequestType, init, head, file_data, fin, WriteArg, write_loop, writefile,
}
use net_file_transfer.Server.Closing.{SameServer, event_cb-SameServer}
use net_file_transfer.Server.{
  Server, listen_cb, read_cb, read_head, read_data, after_writing, signal_cb,
}
use net_file_transfer.Server.Protocol.{
  Step, accepted, received, told, signalled, Reaches, here, next, SameElsewhere, Moves, asks_head,
  asks_data, asks_data_again, says_fin, stays, Follows, not_base,
}

unmoved : (s : Server) → Follows s s
unmoved s = record { moved = stays s.status; elsewhere = λ other h. refl; only_data = λ ne. refl }

module _ (l : LibEvent) (m : Md5) where
  -- If `writefile` returns, no file but that of the header's base name has changed.
  writefile_others :
      (w : World) (args : WriteArg l)
      → Always
          (λ (r : ℕ × World × WriteArg l).
            (path : List ℕ) × (text args.finfo.name ≡ ok path)
            × ((other : List ℕ) → other ≢ basename path → r.1.file other ≡ w.file other))
          (writefile l m w args)
  unfolding writefile
  writefile_others w args = Always-bind _ (text args.finfo.name) _ (λ path named.
      Always-bind _ (strcpy args.finfo.name (strip_slashes path ++ 0 ∷ [])) _ (λ _ _.
        Always-bind _ (assert_some (fopen_wb w (basename path))) _ (λ w₁ open'.
          Always-bind _ (assert w₁.malloc) _ (λ _ _. Always-bind _ (write_loop l m _ _) _ (λ s _. (
            path,
            named,
            λ other ne.
                subst (λ (v : World). (fclose v (basename path) s.fp).file other ≡ w.file other)
                  (opened_inv w w₁ (basename path) open')
                  (fclose_other w (basename path) s.fp other ne),
          ))))))

  after_writing-Follows :
      (s : Server) (ret : ℕ) (w : World) (bev : l.BufferEvent)
      → s.status ≡ file_data
      → SameElsewhere s.world w
      → Follows s (after_writing l m s ret w bev).0
  after_writing-Follows s ret w bev asked same = elim (Bool-cases (ret == 0)) [
    | inl zero ↦ rw zero (record {
      moved = subst (λ t. Moves t fin) (sym asked) says_fin;
      elsewhere = same;
      only_data = λ ne. absurd (ne asked);
    })
    | inr nonzero ↦ rw nonzero (record {
      moved = subst (λ t. Moves t file_data) (sym asked) asks_data_again;
      elsewhere = same;
      only_data = λ ne. absurd (ne asked);
    })
  ]

  -- The server after a callback of its own.
  abbrev FollowsTo : Server → Server × FileInfo × l.BufferEvent → Type 0
  FollowsTo s r = Follows s r.0

  read_data-Follows :
      (s : Server) (stack : FileInfo) (bev : l.BufferEvent)
      → s.status ≡ file_data
      → Always (FollowsTo s) (read_data l m s stack bev)
  unfolding read_data
  read_data-Follows s stack bev asked =
      elim (Bool-cases (l.evbuffer_get_length (l.get_input bev) == stack.size)) [
        | inl all ↦ rw all (
            Always-bind _ (assert (s.world.pthread_create == 0)) _ (λ _ _.
              Always-bind _ (writefile l m _ _) _ (λ r ran.
                Always-bind _ (assert (r.1.pthread_join == 0)) _ (λ _ _.
                  let (path, _, others) =
                    Always-ok _ (writefile l m _ _) (writefile_others _ _) ran in
                  after_writing-Follows s r.0 r.1 (l.with_input bev r.2.buffer) asked
                    (λ other h. others other (not_base path other h))))))
        | inr wait ↦
            rw wait (record {
              moved = stays s.status;
              elsewhere = λ other h. refl;
              only_data = λ ne. refl;
            })
      ]

  read_head-Follows :
      (s : Server) (bev : l.BufferEvent)
      → s.status ≡ head
      → Always (FollowsTo s) (read_head l m s bev)
  unfolding read_head
  read_head-Follows s bev asked = Always-bind _ (memcpy _ _ _) _ (λ array _.
      Always-bind _ (decode _ _ _) _ (λ finfo _. Always-bind _ (text finfo.name) _ (λ name _.
        record {
          moved = subst (λ t. Moves t file_data) (sym asked) asks_data;
          elsewhere = λ other h. refl;
          only_data = λ ne. refl;
        })))

  -- In whichever state of the protocol.
  read_cb-Follows :
      (s : Server) (stack : FileInfo) (bev : l.BufferEvent) (t : RequestType)
      → Always
          (FollowsTo (record s { status = t }))
          (read_cb l m (record s { status = t }) stack bev)
  unfolding read_cb
  read_cb-Follows s stack bev head = read_head-Follows (record s { status = head }) bev refl
  read_cb-Follows s stack bev file_data =
      read_data-Follows (record s { status = file_data }) stack bev refl
  read_cb-Follows s stack bev init = unmoved (record s { status = init })
  read_cb-Follows s stack bev fin = unmoved (record s { status = fin })

  listen_cb-Follows :
      (allocated : Bool) (s : Server)
      → Always (λ (r : Server × l.BufferEvent). Follows s r.0) (listen_cb l m allocated s)
  unfolding listen_cb
  listen_cb-Follows allocated s = Always-bind _ (assert allocated) _ (λ _ _. record {
    moved = asks_head s.status;
    elsewhere = λ other h. refl;
    only_data = λ ne. refl;
  })

signal_cb-Follows : (s : Server) → Follows s (signal_cb s)
unfolding signal_cb
signal_cb-Follows s = record {
  moved = stays s.status;
  elsewhere = λ other h. refl;
  only_data = λ ne. refl;
}

SameServer-Follows : (s s' : Server) → SameServer s s' → Follows s s'
SameServer-Follows s s' (world, status, _) =
    let files = ap (λ (w : World). w.file) world in
    record {
      moved = subst (Moves s.status) (sym status) (stays s.status);
      elsewhere = λ other h. ap (λ f. f other) files;
      only_data = λ ne. files;
    }

module _ {l : LibEvent} {m : Md5} where
  -- A callback of the server that returns, whatever it reads and finds on the stack, leaves the
  -- request as it is or sets it to HEAD, or else moves it from HEAD to DATA or from DATA to DATA
  -- or FIN; it changes no file whose name has a '/' in it, other than "/" itself; and unless the
  -- request was DATA it changes no file at all.
  pub Step-Follows : {s s' : Server} → Step l m s s' → Follows s s'
  Step-Follows {s} (accepted allocated bev e) =
      Always-ok _ (listen_cb l m allocated s) (listen_cb-Follows l m allocated s) e
  Step-Follows {s} (received stack stack' bev bev' e) =
      Always-ok _ (read_cb l m s stack bev) (read_cb-Follows l m s stack bev s.status) e
  Step-Follows {s} (told fd error_text event e) =
      subst (Follows s) e (SameServer-Follows s _ (event_cb-SameServer fd error_text s event))
  Step-Follows {s} (signalled e) = subst (Follows s) e (signal_cb-Follows s)

  -- However the server's callbacks `listen_cb`, `read_cb`, `event_cb` and `signal_cb` that return
  -- follow one another, on any connections, and whatever they read and find on the stack: a file
  -- whose name has a '/' in it, other than "/" itself, is afterwards as it was.
  pub Reaches-SameElsewhere : {s t : Server} → Reaches l m s t → SameElsewhere s.world t.world
  Reaches-SameElsewhere here other h = refl
  Reaches-SameElsewhere (next r step) other h =
      (Step-Follows step).elsewhere other h ∙ Reaches-SameElsewhere r other h
