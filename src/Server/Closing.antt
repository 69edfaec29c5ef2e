-- ===== src/Server/Closing.antt =====
-- What the server's `event_cb` does.
use net_file_transfer.Base.{ℕ, Bool, true, false, ◌≡◌, refl, List}
use net_file_transfer.LibEvent.{Events}
use net_file_transfer.Stdio.{SameWorld}
use net_file_transfer.Server.{Server, event_cb}

-- Nothing but the log differs between two servers.
abbrev pub SameServer : Server → Server → Type 0
SameServer s s' = SameWorld s.world s'.world × (s'.status ≡ s.status) × (s'.loop_exit ≡ s.loop_exit)

each_mask :
    (fd : ℕ) (error_text : List ℕ) (s : Server) (connected eof error : Bool)
    → SameServer s
        (event_cb fd error_text s (record { connected = connected; eof = eof; error = error }))
unfolding event_cb
each_mask fd error_text s true eof error = (refl, refl, refl)
each_mask fd error_text s false true true = (refl, refl, refl)
each_mask fd error_text s false true false = (refl, refl, refl)
each_mask fd error_text s false false true = (refl, refl, refl)
each_mask fd error_text s false false false = (refl, refl, refl)

-- Whatever the event, the server's `event_cb` changes nothing but the log.
pub event_cb-SameServer :
    (fd : ℕ) (error_text : List ℕ) (s : Server) (e : Events)
    → SameServer s (event_cb fd error_text s e)
event_cb-SameServer fd error_text s e = each_mask fd error_text s e.connected e.eof e.error
