-- ===== src/Transfer/Stuck.antt =====
-- Where a transfer never ends.
use net_file_transfer.Base.{
  ℕ, zero, suc, ◌≤◌, ◌≢◌, ◌<◌, ◌+◌, ◌≡◌, refl, sym, ap, ◌∙◌, subst, List, [], ◌∷◌, ◌++◌, length,
  take, some, take-nil, ◌⊎◌, inl, inr, nil_of_length, drop, length-take, length-drop, length-append,
  ok, arith, map,
}
use net_file_transfer.LibEvent.{LibEvent, IsLibEvent, outgoing}
use net_file_transfer.OpenSsl.{Md5, IsMd5}
use net_file_transfer.FileInfo.{FileInfo}
use net_file_transfer.Interface.{file_data}
use net_file_transfer.Server.{Server}
use net_file_transfer.Client.{Client}
use net_file_transfer.Memory.{basename}
use net_file_transfer.Client.Answer.{Holds}
use net_file_transfer.Transfer.{
  System, Event, to_server, to_client, overwrite, step, run, run-append, opening, session,
}
use net_file_transfer.Stdio.{World, SameWorld}
use net_file_transfer.Stdio.Counts.{counted}
use net_file_transfer.Transfer.Data.{InData, piece_waits, pieces_complete, ArePieces, total_of}
use net_file_transfer.Transfer.Messages.{data_sent}
use net_file_transfer.Transfer.Session.{Ready, up_to_data}

-- Deliveries only.
abbrev pub AreDeliveries : List Event → Type 0
AreDeliveries [] = Unit {0}
AreDeliveries (to_server k ∷ es) = AreDeliveries es
AreDeliveries (to_client k ∷ es) = AreDeliveries es
AreDeliveries (overwrite f ∷ es) = ⊥

-- With so many bytes waiting and so many to come, there is no moment at which bytes have just
-- arrived and `size` of them wait.
abbrev pub NeverComplete : ℕ → ℕ → ℕ → Type 0
NeverComplete size waiting rest = (n : ℕ) → 0 < n → n ≤ rest → waiting + n ≢ size

zero_or_more : (n : ℕ) → (n ≡ 0) ⊎ (0 < n)
zero_or_more zero = inl refl
zero_or_more (suc n) = inr (omega arith)

module _ {l : LibEvent} (m : Md5) (lv : IsLibEvent l) where
  nothing_up :
      (s : System l) (k : ℕ)
      → take k (outgoing l s.client_bev) ≡ []
      → step l m s (to_server k) ≡ ok s
  unfolding step
  nothing_up s k up = rw (lv.sent_bytes s.client_bev k, up)

  nothing_down :
      (s : System l) (k : ℕ) → outgoing l s.server_bev ≡ [] → step l m s (to_client k) ≡ ok s
  unfolding step
  nothing_down s k down = rw (lv.sent_bytes s.server_bev k, down, take-nil k)

  -- With nothing on its way no delivery changes anything.
  pub run-silent :
      (s : System l) (es : List Event)
      → outgoing l s.server_bev ≡ []
      → outgoing l s.client_bev ≡ []
      → AreDeliveries es
      → run l m s es ≡ ok s
  unfolding run
  run-silent s [] down up d = refl
  run-silent s (to_server k ∷ es) down up d =
      rw (nothing_up s k (ap (take k) up ∙ take-nil k)) (run-silent s es down up d)
  run-silent s (to_client k ∷ es) down up d = rw (nothing_down s k down) (run-silent s es down up d)
  run-silent s (overwrite f ∷ es) down up d = elim d [ ]

  -- While no number of bytes still to come makes up what the header on the stack asks for, no
  -- delivery leads to a write: the server goes on waiting, in an unchanged world.
  pub run-waits :
      (s : System l) (f : FileInfo) (w : World) (waiting rest : List ℕ) (es : List Event)
      → InData l s f w waiting rest
      → NeverComplete f.size (length waiting) (length rest)
      → AreDeliveries es
      → (t : System l) × (run l m s es ≡ ok t)
        × (t.server.status ≡ file_data)
        × SameWorld w t.server.world
  unfolding run
  run-waits s f w waiting rest [] d more only = (s, refl, d.traffic.status, d.same_world)
  run-waits s f w waiting rest (to_client k ∷ es) d more only =
      let (t, ran, status, same) = run-waits s f w waiting rest es d more only in
      (t, rw (nothing_down s k d.traffic.server_out) ran, status, same)
  run-waits s f w waiting rest (to_server k ∷ es) d more only =
      elim (zero_or_more (length (take k rest))) [
        | inl none' ↦
            let (t, ran, status, same) = run-waits s f w waiting rest es d more only in
            (
              t,
              rw (nothing_up s k (ap (take k) d.traffic.client_out ∙ nil_of_length _ none')) ran,
              status,
              same,
            )
        | inr pos ↦
            let cut : length (take k rest) + length (drop k rest) ≡ length rest =
              omega (arith, length-take k rest, length-drop k rest) in
            let (s', stepped, d', _) =
              piece_waits m lv s f w waiting rest k d pos (more _ pos (omega (arith, cut))) in
            let (t, ran, status, same) =
              run-waits s' f w (waiting ++ take k rest) (drop k rest) es d'
                (λ n pos' few e.
                  more (length (take k rest) + n) (omega arith) (omega (arith, cut))
                    (omega (arith, e, length-append waiting (take k rest))))
                only in
            (t, rw stepped ran, status, same)
      ]
  run-waits s f w waiting rest (overwrite g ∷ es) d more only = elim only [ ]

module _ {l : LibEvent} {m : Md5} (lv : IsLibEvent l) (mv : IsMd5 m) where
  -- From the same start as a transfer, but with a file of no bytes: whatever is delivered after
  -- the opening, the run returns with the server still at DATA and its world, the log aside,
  -- unchanged.
  pub empty_file-waits :
      (s : System l) (es : List Event) {infile outfile : List ℕ}
      → Ready lv mv s infile outfile []
      → AreDeliveries es
      → (t : System l) × (run l m s (opening ++ es) ≡ ok t)
        × (t.server.status ≡ file_data)
        × SameWorld s.server.world t.server.world
  empty_file-waits s es r only =
      let (s₁, f, ran, d, _, _, _) = up_to_data lv mv s r in
      (
        s₁,
        run-append l m s opening es ran
            ∙ run-silent m lv s₁ es d.traffic.server_out d.traffic.client_out only,
        d.traffic.status,
        d.same_world,
      )

  -- From the same start as a transfer, but with too little room on the server's disk and an `fwrite`
  -- that says so, as it does once its buffer cannot take what does not fit: the session,
  -- with whatever is delivered after it, returns with the server at DATA and no more stored than
  -- the part that fitted.
  pub full_disk-waits :
      (s : System l) (pieces : List ℕ) (es : List Event) {infile outfile content : List ℕ}
      → Ready lv mv s infile outfile content
      → counted s.server.world content < length content
      → ArePieces pieces
      → total_of pieces ≡ length content
      → AreDeliveries es
      → (t : System l) × (run l m s (session pieces ++ es) ≡ ok t)
        × (t.server.status ≡ file_data)
        × (t.server.world.file (basename outfile) ≡ some (take s.server.world.space content))
  unfolding session run
  full_disk-waits s pieces es {outfile} {content} r full positive sum only =
      let (s₁, f, ran₁, d, describes, held, five) = up_to_data lv mv s r in
      let (s₂, ran₂, delivered, same) =
        pieces_complete m lv pieces s₁ f s.server.world [] content d
          (omega (arith, describes.sized)) describes.valid.size_bound describes.named r.can_write
          (omega arith) positive sum in
      let (s₃, ran₃, v, _, _, server, _) =
        data_sent lv mv s₂ [] (delivered.asks_again full)
          (subst (λ (c : Client l). Holds l c.buf []) (sym same) held)
          (ap (λ (c : Client l). length c.str) same ∙ five) in
      (
        s₃,
        run-append l m s (session pieces) es (
              run-append l m s opening _ ran₁
              ∙ run-append l m s₁ (map to_server pieces) (to_client 4 ∷ []) ran₂
              ∙ rw ran₃)
            ∙ run-silent m lv s₃ es v.server_out v.client_out only,
        v.status,
        ap (λ (x : Server). x.world.file (basename outfile)) server ∙ delivered.stored,
      )

  -- From the same start as a transfer, if a header with a larger size than the file's comes to
  -- stand on the server's stack after the opening: whatever is delivered afterwards, the run
  -- returns with the server still at DATA and its world, the log aside, unchanged.
  pub lost_header-waits :
      (s : System l) (g : FileInfo) (es : List Event) {infile outfile content : List ℕ}
      → Ready lv mv s infile outfile content
      → length content < g.size
      → AreDeliveries es
      → (t : System l) × (run l m s (opening ++ overwrite g ∷ es) ≡ ok t)
        × (t.server.status ≡ file_data)
        × SameWorld s.server.world t.server.world
  unfolding run step
  lost_header-waits s g es {content} r more only =
      let (s₁, f, ran₁, d, _, _, _) = up_to_data lv mv s r in
      let (t, ran₂, status, same) =
        run-waits m lv (record s₁ { frame = g }) g s.server.world [] content es
          (record {
            traffic = record {
              status = d.traffic.status;
              server_in = d.traffic.server_in;
              server_out = d.traffic.server_out;
              client_in = d.traffic.client_in;
              client_out = d.traffic.client_out;
            };
            on_stack = refl;
            same_world = d.same_world;
          })
          (λ n pos few e. omega (arith, e)) only in
      (t, run-append l m s opening (overwrite g ∷ es) ran₁ ∙ ran₂, status, same)
