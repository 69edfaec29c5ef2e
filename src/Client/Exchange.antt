-- ===== src/Client/Exchange.antt =====
-- The client as the server sees it: what it answers to any requests, one after the other.
use net_file_transfer.Base.{
  ℕ, ◌≡◌, ◌⊎◌, List, [], ◌∷◌, ◌++◌, Option, none, some, Outcome, ok, fault, ◌>>=◌,
}
use net_file_transfer.LibEvent.{LibEvent, outgoing}
use net_file_transfer.OpenSsl.{Md5}
use net_file_transfer.FileInfo.{FileInfo, to_bytes}
use net_file_transfer.Interface.{RequestType, init, head, file_data, fin}
use net_file_transfer.Server.{request_bytes}
use net_file_transfer.Client.{BufPtr, null, freed, Client, Scratch, read_cb}
use net_file_transfer.Client.Answer.{CanSend, Holds, Describes}

-- A header for the file, or these bytes.
pub data Reply : Type 0 where
  header : Reply
  these : List ℕ → Reply

-- The bytes that are ready to be sent afterwards, if there is a buffer, and the replies; `none` where
-- the client would use a buffer that it does not have.
abbrev pub Answer : Type 0
Answer = Option (Option (List ℕ) × List Reply)

abbrev pub also : Reply → Answer → Answer
also r none = none
also r (some (ready, rs)) = some (ready, r ∷ rs)

-- What a client is, for a file with some content. After FIN nothing is read any more.
unfoldable pub answer : List ℕ → Option (List ℕ) → List RequestType → Answer
answer content ready [] = some (ready, [])
answer content ready (init ∷ ts) = answer content ready ts
answer content ready (head ∷ ts) = also header (answer content (some content) ts)
answer content none (file_data ∷ ts) = none
answer content (some bytes) (file_data ∷ ts) = also (these bytes) (answer content (some []) ts)
answer content none (fin ∷ ts) = none
answer content (some bytes) (fin ∷ ts) = some (none, [])

-- A request that arrives whole, and what stands on the client's stack and heap by then.
abbrev pub Ask : Type 0
Ask = RequestType × Scratch

abbrev pub requests : List Ask → List RequestType
requests [] = []
requests ((t, scratch) ∷ rest) = t ∷ requests rest

module _ (l : LibEvent) (m : Md5) where
  abbrev pub asked : Client l → l.BufferEvent → Ask → Outcome (Client l × l.BufferEvent)
  asked c bev (t, scratch) = read_cb l m c scratch (l.arrived bev (request_bytes t))

  -- FIN disables the bufferevent, and there are no more callbacks.
  unfoldable pub exchange : List Ask → Client l × l.BufferEvent → Outcome (Client l × l.BufferEvent)
  exchange [] s = ok s
  exchange ((init, scratch) ∷ rest) s = asked s.0 s.1 (init, scratch) >>= exchange rest
  exchange ((head, scratch) ∷ rest) s = asked s.0 s.1 (head, scratch) >>= exchange rest
  exchange ((file_data, scratch) ∷ rest) s = asked s.0 s.1 (file_data, scratch) >>= exchange rest
  exchange ((fin, scratch) ∷ rest) s = asked s.0 s.1 (fin, scratch)

  -- The bytes of a reply, and of some.
  abbrev pub Reads : List ℕ → List ℕ → Reply → List ℕ → Type 0
  Reads outfile content header bytes =
      (f : FileInfo) × Describes m f outfile content × (bytes ≡ to_bytes f)
  Reads outfile content (these sent) bytes = bytes ≡ sent

  abbrev pub ReadsAll : List ℕ → List ℕ → List Reply → List ℕ → Type 0
  ReadsAll outfile content [] bytes = bytes ≡ []
  ReadsAll outfile content (r ∷ rs) bytes =
      (first others : List ℕ) × (bytes ≡ first ++ others)
      × Reads outfile content r first
      × ReadsAll outfile content rs others

  -- `buf` leads to what is ready, or to no buffer.
  abbrev pub Keeping : BufPtr l → Option (List ℕ) → Type 0
  Keeping p none = (p ≡ null) ⊎ (p ≡ freed)
  Keeping p (some bytes) = Holds l p bytes

  -- The exchange gives the answer, or uses a buffer that is not there.
  abbrev pub Gives :
      List ℕ → List ℕ → l.BufferEvent → Answer → Outcome (Client l × l.BufferEvent) → Type 0
  Gives outfile content bev none run = run ≡ fault
  Gives outfile content bev (some (ready, rs)) run =
      (c : Client l) × (bev' : l.BufferEvent) × (sent : List ℕ) × (run ≡ ok (c, bev'))
      × Keeping c.buf ready
      × (outgoing l bev' ≡ outgoing l bev ++ sent)
      × ReadsAll outfile content rs sent

-- Whichever request comes, the client could answer it.
abbrev pub CanAnswer : (l : LibEvent) → Client l → List ℕ → List ℕ → List ℕ → List Ask → Type 0
CanAnswer l c infile outfile content [] = Unit {0}
CanAnswer l c infile outfile content ((t, scratch) ∷ rest) =
    CanSend l c scratch infile outfile content × CanAnswer l c infile outfile content rest
