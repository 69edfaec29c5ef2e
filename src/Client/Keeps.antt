-- ===== src/Client/Keeps.antt =====
-- What no request changes about the client.
use net_file_transfer.Base.{
  ℕ, ◌≡◌, ◌≢◌, sym, arith, refl, ap, ◌∙◌, inl, inr, List, length, ok, ◌>>=◌, ◌==◌, Bool-cases,
  assert, Always, Always-bind, Always-ok, Always-mono,
}
use net_file_transfer.Memory.{memcpy, text, strcpy, le_value}
use net_file_transfer.LibEvent.{LibEvent}
use net_file_transfer.OpenSsl.{Md5}
use net_file_transfer.Log.{Log}
use net_file_transfer.FileInfo.{encode}
use net_file_transfer.Stdio.{World, SameWorld}
use net_file_transfer.Interface.{init, head, file_data, fin, enum_value, readfile, request_info}
use net_file_transfer.Interface.Requests.{length-request_info}
use net_file_transfer.Client.{
  BufPtr, null, freed, live, Client, Scratch, send_head, send_data, write_cb, evbuffer_free, finish,
  read_cb,
}

-- Its parameters, the size of its array for names, and its world but for the log.
pub record Keeps (l : LibEvent) (c c' : Client l) : Type 0 where
  pub para : c'.para ≡ c.para
  pub str : length c'.str ≡ length c.str
  pub world : SameWorld c.world c'.world
  pub loop_exit : c'.loop_exit ≡ c.loop_exit

module _ {l : LibEvent} where
  kept : (c : Client l) → Keeps l c c
  kept c = record { para = refl; str = refl; world = refl; loop_exit = refl }

  taken :
      (c : Client l) (status : ℕ) (str : List ℕ) (log : Log)
      → length str ≡ length c.str
      → Keeps l c (record c { status = status; str = str; world = record c.world { log = log } })
  taken c status str log same = record { para = refl; str = same; world = refl; loop_exit = refl }

  Keeps-Keeps : {a b c : Client l} → Keeps l a b → Keeps l b c → Keeps l a c
  Keeps-Keeps {a} {b} {c} k k' = record {
    para = k'.para ∙ k.para;
    str = k'.str ∙ k.str;
    world = ap (λ (w : World). record w { log = a.world.log }) k'.world ∙ k.world;
    loop_exit = k'.loop_exit ∙ k.loop_exit;
  }

  -- The client of a result.
  abbrev pub KeepsTo : Client l → Client l × l.BufferEvent → Type 0
  KeepsTo c r = Keeps l c r.0

  -- It has its request still.
  abbrev SendsTo : Client l → Client l × l.BufferEvent → Type 0
  SendsTo c r = Keeps l c r.0 × (r.0.status ≡ c.status)

  -- Its request is not FIN any more.
  abbrev pub AnswersTo : Client l → Client l × l.BufferEvent → Type 0
  AnswersTo c r = Keeps l c r.0 × (r.0.status ≢ enum_value fin)

module _ (l : LibEvent) (m : Md5) where
  send_head-Keeps :
      (c : Client l) (scratch : Scratch) (bev : l.BufferEvent)
      → Always (SendsTo c) (send_head l m c scratch bev)
  unfolding send_head
  send_head-Keeps c scratch bev =
      Always-bind _ (strcpy scratch.stack.name c.para.infile) _ (λ infile _.
        Always-bind _ (assert (c.world.pthread_create == 0)) _ (λ _ _.
          Always-bind _ (readfile l m _ _) _ (λ args _.
            Always-bind _ (assert c.world.malloc) _ (λ _ _.
              Always-bind _ (assert (c.world.pthread_join == 0)) _ (λ _ _.
                Always-bind _ (strcpy args.finfo.name c.para.outfile) _ (λ outfile _.
                  Always-bind _ (encode scratch.heap _) _ (λ _ _.
                    Always-bind _ (text outfile) _ (λ _ _. (
                      record { para = refl; str = refl; world = refl; loop_exit = refl },
                      refl,
                    )))))))))

  send_data-Keeps :
      (c : Client l) (buf : BufPtr l) (bev : l.BufferEvent)
      → Always (SendsTo c) (send_data l m (record c { buf = buf }) bev)
  unfolding send_data
  send_data-Keeps c null bev = tt
  send_data-Keeps c freed bev = tt
  send_data-Keeps c (live b) bev =
      (record { para = refl; str = refl; world = refl; loop_exit = refl }, refl)

  write_cb-Keeps :
      (c : Client l) (scratch : Scratch) (bev : l.BufferEvent)
      → Always (SendsTo c) (write_cb l m c scratch bev)
  unfolding write_cb
  write_cb-Keeps c scratch bev = elim (Bool-cases (c.status == enum_value head)) [
    | inl asked ↦ rw asked (send_head-Keeps c scratch bev)
    | inr other ↦ elim (Bool-cases (c.status == enum_value file_data)) [
      | inl asked ↦ rw (other, asked) (send_data-Keeps c c.buf bev)
      | inr another ↦ rw (other, another) (kept c, refl)
    ]
  ]

  init_ne_fin : enum_value init ≢ enum_value fin
  unfolding enum_value
  init_ne_fin e = omega (arith, e)

  evbuffer_free-Keeps :
      (c : Client l) (buf : BufPtr l) (bev : l.BufferEvent)
      → Always (AnswersTo c) (
          evbuffer_free l m buf >>= λ b.
          ok (record c { buf = b; status = enum_value init }, l.bufferevent_disable bev))
  evbuffer_free-Keeps c null bev = tt
  evbuffer_free-Keeps c freed bev = tt
  evbuffer_free-Keeps c (live b) bev =
      (record { para = refl; str = refl; world = refl; loop_exit = refl }, init_ne_fin)

  finish-Keeps : (c : Client l) (bev : l.BufferEvent) → Always (AnswersTo c) (finish l m c bev)
  unfolding finish
  finish-Keeps c bev = elim (Bool-cases (c.status == enum_value fin)) [
    | inl over ↦ rw over (evbuffer_free-Keeps c c.buf bev)
    | inr other ↦ rw other (kept c, λ e. ground (arith, other, e))
  ]

  -- A `read_cb` of the client that returns, whatever it reads, leaves its parameters, the size of
  -- its array for names, its world but for the log, and its event loop as they were, and its request
  -- is not FIN.
  pub read_cb-Keeps :
      (c : Client l) (scratch : Scratch) (bev : l.BufferEvent)
      → Always (AnswersTo c) (read_cb l m c scratch bev)
  unfolding read_cb
  read_cb-Keeps c scratch bev = Always-bind _ (memcpy _ _ _) _ (λ word _.
      Always-bind _ (request_info c.str (le_value word)) _ (λ str info.
        Always-bind _ (text str) _ (λ _ _. Always-bind _ (finish l m _ _) _ (λ r ran.
          let (finished, over) = Always-ok _ (finish l m _ _) (finish-Keeps _ _) ran in
          Always-mono (SendsTo r.0) (AnswersTo c) (write_cb l m r.0 scratch r.1)
            (λ _ (keeps, same). (
              Keeps-Keeps (taken c _ str _ (length-request_info c.str str (le_value word) info))
                  (Keeps-Keeps finished keeps),
              λ e. over (sym same ∙ e),
            ))
            (write_cb-Keeps r.0 scratch r.1)))))
