-- ===== src/Server/Protocol.antt =====
-- The server as a state machine: its event loop makes one callback after the other, on any
-- connection, in any order, with whatever stands on the stack and has arrived; and the protocol that
-- it follows.
use net_file_transfer.Base.{ℕ, ◌≡◌, ◌≢◌, ◌⊎◌, sym, subst, Bool, List, [], ◌∷◌, ok}
use net_file_transfer.Memory.{slash, basename}
use net_file_transfer.Memory.BaseName.{NoSlash, basename-NoSlash}
use net_file_transfer.LibEvent.{LibEvent, Events}
use net_file_transfer.OpenSsl.{Md5}
use net_file_transfer.FileInfo.{FileInfo}
use net_file_transfer.Stdio.{World}
use net_file_transfer.Interface.{RequestType, head, file_data, fin}
use net_file_transfer.Server.{Server, listen_cb, read_cb, event_cb, signal_cb}

-- What `basename` may return.
abbrev pub IsBase : List ℕ → Type 0
IsBase name = (name ≡ slash ∷ []) ⊎ NoSlash name

-- One callback.
pub data Step (l : LibEvent) (m : Md5) (s s' : Server) : Type 0 where
  accepted :
      (allocated : Bool) (bev : l.BufferEvent)
      → listen_cb l m allocated s ≡ ok (s', bev)
      → Step l m s s'
  received :
      (stack stack' : FileInfo) (bev bev' : l.BufferEvent)
      → read_cb l m s stack bev ≡ ok (s', stack', bev')
      → Step l m s s'
  told :
      (fd : ℕ) (error_text : List ℕ) (e : Events) → event_cb fd error_text s e ≡ s' → Step l m s s'
  signalled : signal_cb s ≡ s' → Step l m s s'

pub data Reaches (l : LibEvent) (m : Md5) (s : Server) : Server → Type 0 where
  here : Reaches l m s s
  next : {t u : Server} → Reaches l m s t → Step l m t u → Reaches l m s u

-- Names that are no base names keep their files.
abbrev pub SameElsewhere : World → World → Type 0
SameElsewhere w w' = (other : List ℕ) → ¬ IsBase other → w'.file other ≡ w.file other

-- The protocol as the server follows it: what it asks for, before and after.
pub data Moves : RequestType → RequestType → Type 0 where
  asks_head : (t : RequestType) → Moves t head
  asks_data : Moves head file_data
  asks_data_again : Moves file_data file_data
  says_fin : Moves file_data fin
  stays : (t : RequestType) → Moves t t

-- What one callback does to the server, whatever the bytes: it follows the protocol, writes only
-- while it waits for data, and only under a base name.
pub record Follows (s s' : Server) : Type 0 where
  pub moved : Moves s.status s'.status
  pub elsewhere : SameElsewhere s.world s'.world
  pub only_data : s.status ≢ file_data → s'.world.file ≡ s.world.file

pub not_base : (path other : List ℕ) → ¬ IsBase other → other ≢ basename path
not_base path other h e = h (subst IsBase (sym e) (basename-NoSlash path))
