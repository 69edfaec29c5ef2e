-- ===== src/Client/Replies.antt =====
-- The client gives the answers of Client.Exchange.
use net_file_transfer.Base.{
  ℕ, ◌≡◌, subst, inl, inr, refl, ap, sym, ◌∙◌, List, [], ◌∷◌, ◌++◌, Option, none, some, Outcome, ok,
  fault, ◌>>=◌, length, append-nil, append_assoc, Always-ok,
}
use net_file_transfer.LibEvent.{LibEvent, IsLibEvent, incoming, outgoing}
use net_file_transfer.OpenSsl.{Md5, IsMd5}
use net_file_transfer.FileInfo.{to_bytes}
use net_file_transfer.Memory.{text}
use net_file_transfer.Config.{Parameter}
use net_file_transfer.Stdio.{World}
use net_file_transfer.Interface.{RequestType, init, head, file_data, fin}
use net_file_transfer.Server.{request_bytes}
use net_file_transfer.Client.{Client, Scratch, finish, write_cb, send_data, read_cb}
use net_file_transfer.Client.Request.{told, read_cb-told, read_all}
use net_file_transfer.Client.Answer.{read_cb-Describes}
use net_file_transfer.Client.Ending.{read_cb-data, read_cb-fin}
use net_file_transfer.Client.Keeps.{Keeps, AnswersTo, read_cb-Keeps}
use net_file_transfer.Client.Exchange.{
  Reply, header, these, Answer, also, answer, Ask, requests, asked, exchange, Reads, Keeping, Gives,
  CanAnswer,
}

Keeps-CanAnswer :
    {l : LibEvent} {c c' : Client l} (infile outfile content : List ℕ) (rest : List Ask)
    → Keeps l c c'
    → CanAnswer l c infile outfile content rest
    → CanAnswer l c' infile outfile content rest
Keeps-CanAnswer infile outfile content [] keeps can = tt
Keeps-CanAnswer {c} {c'} infile outfile content ((t, scratch) ∷ rest) keeps (can, cans) = (
  record {
    infile_named = ap (λ (p : Parameter). text p.infile) keeps.para ∙ can.infile_named;
    infile_array = ap (λ (p : Parameter). length p.infile) keeps.para ∙ can.infile_array;
    outfile_named = ap (λ (p : Parameter). text p.outfile) keeps.para ∙ can.outfile_named;
    outfile_array = ap (λ (p : Parameter). length p.outfile) keeps.para ∙ can.outfile_array;
    str_array = keeps.str ∙ can.str_array;
    there = ap (λ (w : World). w.file infile) keeps.world ∙ can.there;
    countable = can.countable;
    creates = ap (λ (w : World). w.pthread_create) keeps.world ∙ can.creates;
    joins = ap (λ (w : World). w.pthread_join) keeps.world ∙ can.joins;
    allocates = ap (λ (w : World). w.malloc) keeps.world ∙ can.allocates;
    stack = can.stack;
    heap = can.heap;
  },
  Keeps-CanAnswer infile outfile content rest keeps cans,
)

module _ {l : LibEvent} (m : Md5) (lv : IsLibEvent l) where
  -- One more reply, in front.
  Gives-also :
      (outfile content : List ℕ) (bev bev' : l.BufferEvent) (a : Answer) (r : Reply)
      (first : List ℕ) (run : Outcome (Client l × l.BufferEvent))
      → outgoing l bev' ≡ outgoing l bev ++ first
      → Reads l m outfile content r first
      → Gives l m outfile content bev' a run
      → Gives l m outfile content bev (also r a) run
  Gives-also outfile content bev bev' none r first run went reads gives = gives
  Gives-also outfile content bev bev' (some (ready, rs)) r first run went reads
        (c, bev₂, sent, ran, keeping, out, all) =
      (
        c,
        bev₂,
        first ++ sent,
        ran,
        keeping,
        out ∙ ap (λ o. o ++ sent) went ∙ append_assoc (outgoing l bev) first sent,
        (first, sent, refl, reads, all),
      )

  -- Nothing more to send.
  Gives-silent :
      (outfile content : List ℕ) (bev bev' : l.BufferEvent) (a : Answer)
      (run : Outcome (Client l × l.BufferEvent))
      → outgoing l bev' ≡ outgoing l bev
      → Gives l m outfile content bev' a run
      → Gives l m outfile content bev a run
  Gives-silent outfile content bev bev' none run same gives = gives
  Gives-silent outfile content bev bev' (some (ready, rs)) run same
        (c, bev₂, sent, ran, keeping, out, all) =
      (c, bev₂, sent, ran, keeping, out ∙ ap (λ o. o ++ sent) same, all)

  -- A request that has arrived at a bufferevent with nothing to read.
  waiting :
      (bev : l.BufferEvent) (t : RequestType)
      → incoming l bev ≡ []
      → incoming l (l.arrived bev (request_bytes t)) ≡ request_bytes t
  waiting bev t empty =
      lv.arrived_input bev (request_bytes t) ∙ ap (λ b. b ++ request_bytes t) empty

  asked-Keeps :
      (c c' : Client l) (bev bev' : l.BufferEvent) (a : Ask)
      → asked l m c bev a ≡ ok (c', bev')
      → Keeps l c c'
  asked-Keeps c c' bev bev' (t, scratch) ran =
      (Always-ok (AnswersTo c) (read_cb l m c scratch _) (read_cb-Keeps l m c scratch _) ran).0

  dispatch_init :
      (c : Client l) (scratch : Scratch) (bev : l.BufferEvent) (str : List ℕ)
      → (finish l m (told c init str) bev >>= λ (c', bev'). write_cb l m c' scratch bev')
        ≡ ok (told c init str, bev)
  unfolding finish write_cb
  dispatch_init c scratch bev str = refl

  -- INIT is taken in, and nothing comes of it.
  asked-init :
      (c : Client l) (bev : l.BufferEvent) (scratch : Scratch)
      → length c.str ≡ 5
      → incoming l bev ≡ []
      → (c' : Client l) × (bev' : l.BufferEvent) × (asked l m c bev (init, scratch) ≡ ok (c', bev'))
        × (c'.buf ≡ c.buf)
        × (incoming l bev' ≡ [])
        × (outgoing l bev' ≡ outgoing l bev)
  asked-init c bev scratch five empty =
      let bev₁ = l.arrived bev (request_bytes init) in
      let held = waiting bev init empty in
      let (str, five', goes_on) = read_cb-told m lv c scratch bev₁ init five held in
      (
        told c init str,
        (l.bufferevent_read bev₁ 4).1,
        goes_on ∙ dispatch_init c scratch _ str,
        refl,
        read_all m lv bev₁ init held,
        lv.read_output bev₁ 4 ∙ lv.arrived_output bev (request_bytes init),
      )

  -- Without a buffer, DATA and FIN use one that is not there.
  asked-no_buffer :
      (c : Client l) (bev : l.BufferEvent) (scratch : Scratch) (t : RequestType)
      → length c.str ≡ 5
      → incoming l bev ≡ []
      → ((str : List ℕ) (bev₁ : l.BufferEvent)
          → (finish l m (told c t str) bev₁ >>= λ (c', bev'). write_cb l m c' scratch bev') ≡ fault)
      → asked l m c bev (t, scratch) ≡ fault
  asked-no_buffer c bev scratch t five empty faults =
      let bev₁ = l.arrived bev (request_bytes t) in
      let (str, five', goes_on) = read_cb-told m lv c scratch bev₁ t five (waiting bev t empty) in
      goes_on ∙ faults str _

  data-no_buffer :
      (c : Client l) (scratch : Scratch) (bev : l.BufferEvent) (str : List ℕ)
      → Keeping l m c.buf none
      → (finish l m (told c file_data str) bev >>= λ (c', bev'). write_cb l m c' scratch bev')
        ≡ fault
  unfolding finish write_cb send_data
  data-no_buffer c scratch bev str (inl e) = rw e refl
  data-no_buffer c scratch bev str (inr e) = rw e refl

  fin-no_buffer :
      (c : Client l) (scratch : Scratch) (bev : l.BufferEvent) (str : List ℕ)
      → Keeping l m c.buf none
      → (finish l m (told c fin str) bev >>= λ (c', bev'). write_cb l m c' scratch bev') ≡ fault
  unfolding finish write_cb
  fin-no_buffer c scratch bev str (inl e) = rw e refl
  fin-no_buffer c scratch bev str (inr e) = rw e refl

module _ {l : LibEvent} {m : Md5} (lv : IsLibEvent l) (mv : IsMd5 m)
    (infile outfile content : List ℕ) where
  -- A client whose file is there, whose names end within their arrays, whose threads and memory
  -- are given, and whose `buf` holds some bytes, or is NULL or freed, is sent any requests, one
  -- after the other, each arriving whole: up to the first FIN, after which nothing is read,
  -- `read_cb` returns each time, and what is sent is, in order, for HEAD a header with the outfile
  -- name, the size and the digest of the file, for DATA the bytes that `buf` holds by then, and
  -- for INIT and FIN nothing; `buf` holds the file after HEAD and nothing after DATA, and is freed
  -- by FIN; but a DATA or FIN that finds `buf` NULL or freed makes the client use it all the same.
  pub exchange-answer :
      (asks : List Ask) (ready : Option (List ℕ)) (c : Client l) (bev : l.BufferEvent)
      → CanAnswer l c infile outfile content asks
      → Keeping l m c.buf ready
      → incoming l bev ≡ []
      → Gives l m outfile content bev
          (answer content ready (requests asks))
          (exchange l m asks (c, bev))
  unfolding exchange answer
  exchange-answer [] ready c bev can keeping empty =
      (c, bev, [], refl, keeping, sym (append-nil (outgoing l bev)), refl)
  exchange-answer ((init, scratch) ∷ rest) ready c bev (can, cans) keeping empty =
      let (c', bev', ran, same, empty', silent) =
        asked-init m lv c bev scratch can.str_array empty in
      let keeps = asked-Keeps m lv c c' bev bev' (init, scratch) ran in
      rw ran (
        Gives-silent m lv outfile content bev bev' (answer content ready (requests rest)) _ silent (
          exchange-answer rest ready c' bev'
            (Keeps-CanAnswer infile outfile content rest keeps cans)
            (subst (λ p. Keeping l m p ready) (sym same) keeping) empty'))
  exchange-answer ((head, scratch) ∷ rest) ready c bev (can, cans) keeping empty =
      let bev₁ = l.arrived bev (request_bytes head) in
      let (c', bev', f, ran, describes, holds, _, empty', out) =
        read_cb-Describes lv mv c scratch bev₁ can (waiting m lv bev head empty) in
      let keeps = asked-Keeps m lv c c' bev bev' (head, scratch) ran in
      let went = out ∙ ap (λ o. o ++ to_bytes f) (lv.arrived_output bev (request_bytes head)) in
      rw ran (
        Gives-also m lv outfile content bev bev' (answer content (some content) (requests rest))
          header (to_bytes f) _ went (f, describes, refl)
          (exchange-answer rest (some content) c' bev'
            (Keeps-CanAnswer infile outfile content rest keeps cans) holds empty'))
  exchange-answer ((file_data, scratch) ∷ rest) none c bev (can, cans) keeping empty =
      rw
        (asked-no_buffer m lv c bev scratch file_data can.str_array empty
          (λ str bev₁. data-no_buffer m lv c scratch bev₁ str keeping))
        refl
  exchange-answer ((file_data, scratch) ∷ rest) (some bytes) c bev (can, cans) keeping empty =
      let bev₁ = l.arrived bev (request_bytes file_data) in
      let (c', bev', ran, holds, _, empty', out) =
        read_cb-data m lv c scratch bev₁ can.str_array keeping (waiting m lv bev file_data empty) in
      let keeps = asked-Keeps m lv c c' bev bev' (file_data, scratch) ran in
      let went = out ∙ ap (λ o. o ++ bytes) (lv.arrived_output bev (request_bytes file_data)) in
      rw ran (
        Gives-also m lv outfile content bev bev' (answer content (some []) (requests rest))
          (these bytes) bytes _ went refl
          (exchange-answer rest (some []) c' bev'
            (Keeps-CanAnswer infile outfile content rest keeps cans) holds empty'))
  exchange-answer ((fin, scratch) ∷ rest) none c bev (can, cans) keeping empty =
      asked-no_buffer m lv c bev scratch fin can.str_array empty
        (λ str bev₁. fin-no_buffer m lv c scratch bev₁ str keeping)
  exchange-answer ((fin, scratch) ∷ rest) (some bytes) c bev (can, cans) keeping empty =
      let bev₁ = l.arrived bev (request_bytes fin) in
      let (c', bev', ran, gone, _, _, out) =
        read_cb-fin m lv c scratch bev₁ can.str_array keeping (waiting m lv bev fin empty) in
      (
        c',
        bev',
        [],
        ran,
        inr gone,
        out ∙ lv.arrived_output bev (request_bytes fin) ∙ sym (append-nil (outgoing l bev)),
        refl,
      )
