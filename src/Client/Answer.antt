-- ===== src/Client/Answer.antt =====
-- What the client sends when it is asked for the header and for the data.
use net_file_transfer.Base.{
  ℕ, ◌<◌, ◌^◌, ◌≡◌, refl, ap, ◌∙◌, List, [], ◌++◌, ok, true, some, ◌>>=◌, length, take, drop,
  assert_holds, ==_iff, take-append, arith,
}
use net_file_transfer.Memory.{text, strcpy}
use net_file_transfer.Memory.Text.{length-text-lt, strcpy-text}
use net_file_transfer.LibEvent.{LibEvent, IsLibEvent, incoming, outgoing}
use net_file_transfer.OpenSsl.{Md5, IsMd5, digest}
use net_file_transfer.FileInfo.{FileInfo, IsFileInfo, maxlen, sizeof_fileinfo, to_bytes, encode}
use net_file_transfer.FileInfo.Layout.{length-to_bytes}
use net_file_transfer.FileInfo.Wire.{encode_lem}
use net_file_transfer.Interface.{head, WriteArg, readfile}
use net_file_transfer.Interface.Read.{readfile_lem}
use net_file_transfer.Server.{request_bytes}
use net_file_transfer.Client.{
  BufPtr, live, Client, Scratch, head_world, head_sent, send_head, write_cb, finish, read_cb,
}
use net_file_transfer.Client.Request.{told, read_cb-told, read_all}

-- What the client needs to answer: its file, names that end within their arrays, threads and
-- memory.
pub record CanSend (l : LibEvent) (c : Client l) (scratch : Scratch)
    (infile outfile content : List ℕ) : Type 0 where
  pub infile_named : text c.para.infile ≡ ok infile
  pub infile_array : length c.para.infile ≡ maxlen
  pub outfile_named : text c.para.outfile ≡ ok outfile
  pub outfile_array : length c.para.outfile ≡ maxlen
  pub str_array : length c.str ≡ 5
  pub there : c.world.file infile ≡ some content
  pub countable : length content < 2 ^ 64
  pub creates : c.world.pthread_create ≡ 0
  pub joins : c.world.pthread_join ≡ 0
  pub allocates : c.world.malloc ≡ true
  pub stack : IsFileInfo scratch.stack
  pub heap : length scratch.heap ≡ sizeof_fileinfo

-- The global `buf` leads to an evbuffer with these bytes.
abbrev pub Holds : (l : LibEvent) → BufPtr l → List ℕ → Type 0
Holds l p bytes = (b : l.EvBuffer) × (p ≡ live b) × (l.contents b ≡ bytes)

-- The header that describes a file: the name it shall have, its size and its digest.
pub record Describes (m : Md5) (f : FileInfo) (outfile content : List ℕ) : Type 0 where
  pub valid : IsFileInfo f
  pub named : text f.name ≡ ok outfile
  pub sized : f.size ≡ length content
  pub hashed : f.info ≡ digest m content

module _ {l : LibEvent} {m : Md5} (lv : IsLibEvent l) (mv : IsMd5 m) where
  -- `send_head`, given what the calls in it return.
  send_head_runs :
      (c : Client l) (scratch : Scratch) (bev : l.BufferEvent) (infile outfile name bytes : List ℕ)
      (args : WriteArg l)
      → c.world.pthread_create ≡ 0
      → c.world.malloc ≡ true
      → c.world.pthread_join ≡ 0
      → strcpy scratch.stack.name c.para.infile ≡ ok infile
      → readfile l m
          (head_world l m c)
          (record { finfo = record scratch.stack { name = infile }; buffer = l.evbuffer_new })
        ≡ ok args
      → strcpy args.finfo.name c.para.outfile ≡ ok outfile
      → encode scratch.heap (record args.finfo { name = outfile }) ≡ ok (sizeof_fileinfo, bytes)
      → text outfile ≡ ok name
      → send_head l m c scratch bev
        ≡ ok (
          head_sent l m c name args.finfo.size sizeof_fileinfo args.buffer,
          l.bufferevent_write bev (take sizeof_fileinfo bytes),
        )
  unfolding send_head
  send_head_runs c scratch bev infile outfile name bytes args creates allocates joins copied read
        named encoded told' =
      rw copied (
        assert_holds ((==_iff _ 0).1 creates) _
        ∙ rw read (
            assert_holds allocates _
            ∙ assert_holds ((==_iff _ 0).1 joins) _
            ∙ rw (named, encoded, told')))

  -- The header made of what `readfile` left, under the name that the file shall have.
  named_header :
      (args : WriteArg l) (array name outfile content : List ℕ)
      → args.finfo ≡ record { name = name; size = length content; info = digest m content }
      → length content < 2 ^ 64
      → text array ≡ ok outfile
      → length array ≡ maxlen
      → Describes m (record args.finfo { name = array }) outfile content
  named_header args array name outfile content made fits named full = record {
    valid = record {
      name_length = full;
      size_bound = omega (arith, ap (λ (f : FileInfo). f.size) made);
      info_length =
          ap (λ (f : FileInfo). length f.info) made
          ∙ mv.final_length (m.md5_update m.md5_init content);
    };
    named = named;
    sized = ap (λ (f : FileInfo). f.size) made;
    hashed = ap (λ (f : FileInfo). f.info) made;
  }

  -- Asked for the header, the client reads its file and sends the header that describes it.
  send_head-Describes :
      (c : Client l) (scratch : Scratch) (bev : l.BufferEvent) {infile outfile content : List ℕ}
      → CanSend l c scratch infile outfile content
      → (f : FileInfo) × (buf : l.EvBuffer) × (send_head l m c scratch bev
          ≡ ok (
            head_sent l m c outfile f.size sizeof_fileinfo buf,
            l.bufferevent_write bev (to_bytes f),
          ))
        × Describes m f outfile content
        × (l.contents buf ≡ content)
  send_head-Describes c scratch bev {infile} {outfile} {content} can =
      let (array₁, copied₁, text₁, length₁) =
        strcpy-text scratch.stack.name c.para.infile infile can.infile_named (
          omega (
            arith,
            length-text-lt c.para.infile infile can.infile_named,
            can.infile_array,
            can.stack.name_length,
          )) in
      let (args, read, held, made) =
        readfile_lem lv (head_world l m c)
          (record { finfo = record scratch.stack { name = array₁ }; buffer = l.evbuffer_new }) mv
          text₁ can.there can.countable in
      let full : length args.finfo.name ≡ maxlen =
        ap (λ (f : FileInfo). length f.name) made ∙ length₁ ∙ can.stack.name_length in
      let (array₂, copied₂, text₂, length₂) =
        strcpy-text args.finfo.name c.para.outfile outfile can.outfile_named (
          omega (
            arith,
            length-text-lt c.para.outfile outfile can.outfile_named,
            can.outfile_array,
            full,
          )) in
      let describes =
        named_header args array₂ array₁ outfile content made can.countable text₂ (length₂ ∙ full) in
      let bytes = to_bytes (record args.finfo { name = array₂ }) in
      (
        record args.finfo { name = array₂ },
        args.buffer,
        send_head_runs c scratch bev array₁ array₂ outfile
              (bytes ++ drop sizeof_fileinfo scratch.heap) args can.creates can.allocates can.joins
              copied₁ read copied₂
              (encode_lem scratch.heap describes.valid (omega (arith, can.heap))) text₂
            ∙ ap
                (λ b. ok (
                  head_sent l m c outfile args.finfo.size sizeof_fileinfo args.buffer,
                  l.bufferevent_write bev b,
                ))
                (take-append sizeof_fileinfo bytes (drop sizeof_fileinfo scratch.heap)
                  (length-to_bytes describes.valid)),
        describes,
        held ∙ ap (λ b. b ++ content) lv.new_contents,
      )

  told-CanSend :
      (c : Client l) (scratch : Scratch) (infile outfile content str : List ℕ)
      → CanSend l c scratch infile outfile content
      → length str ≡ 5
      → CanSend l (told c head str) scratch infile outfile content
  told-CanSend c scratch infile outfile content str can five = record {
    infile_named = can.infile_named;
    infile_array = can.infile_array;
    outfile_named = can.outfile_named;
    outfile_array = can.outfile_array;
    str_array = five;
    there = can.there;
    countable = can.countable;
    creates = can.creates;
    joins = can.joins;
    allocates = can.allocates;
    stack = can.stack;
    heap = can.heap;
  }

  dispatch_head :
      (c : Client l) (scratch : Scratch) (bev : l.BufferEvent) (str : List ℕ)
      → (finish l m (told c head str) bev >>= λ (c', bev'). write_cb l m c' scratch bev')
        ≡ send_head l m (told c head str) scratch bev
  unfolding finish write_cb
  dispatch_head c scratch bev str = refl

  -- Asked for the header, a client whose file is there, whose names end within their arrays, and
  -- whose threads and memory are given, returns: its `buf` holds the file, and what it sends is a
  -- header with the outfile name, the size and the digest of the file.
  pub read_cb-Describes :
      (c : Client l) (scratch : Scratch) (bev : l.BufferEvent) {infile outfile content : List ℕ}
      → CanSend l c scratch infile outfile content
      → incoming l bev ≡ request_bytes head
      → (c' : Client l) × (bev' : l.BufferEvent) × (f : FileInfo) × (read_cb l m c scratch bev
          ≡ ok (c', bev'))
        × Describes m f outfile content
        × Holds l c'.buf content
        × (length c'.str ≡ 5)
        × (incoming l bev' ≡ [])
        × (outgoing l bev' ≡ outgoing l bev ++ to_bytes f)
  read_cb-Describes c scratch bev {infile} {outfile} {content} can held =
      let (str, five, goes_on) = read_cb-told m lv c scratch bev head can.str_array held in
      let bev₁ = (l.bufferevent_read bev 4).1 in
      let (f, buf, sends, describes, full) =
        send_head-Describes (told c head str) scratch bev₁
          (told-CanSend c scratch infile outfile content str can five) in
      (
        head_sent l m (told c head str) outfile f.size sizeof_fileinfo buf,
        l.bufferevent_write bev₁ (to_bytes f),
        f,
        goes_on ∙ dispatch_head c scratch bev₁ str ∙ sends,
        describes,
        (buf, refl, full),
        five,
        lv.write_input bev₁ (to_bytes f) ∙ read_all m lv bev head held,
        lv.write_output bev₁ (to_bytes f) ∙ ap (λ o. o ++ to_bytes f) (lv.read_output bev 4),
      )
