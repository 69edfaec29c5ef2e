-- ===== src/Client/Closing.antt =====
-- What the client's `event_cb` does to the connection and to the event loop.
use net_file_transfer.Base.{ℕ, true, false, ◌≡◌, ◌↔◌, List, arith}
use net_file_transfer.LibEvent.{LibEvent, Events, Context}
use net_file_transfer.OpenSsl.{Md5}
use net_file_transfer.Client.{Client, event_cb, not_called, called_on}

module _ (l : LibEvent) (m : Md5) (ctx : Context) (fd : ℕ) (error_text : List ℕ) (c : Client l)
    (e : Events) where
  -- If the client has not asked to leave its event loop yet, `event_cb` calls
  -- `event_base_loopexit`, with the `ctx` that it was registered with, exactly if the event is an error
  -- and no new connection.
  pub event_cb-called_on :
      c.loop_exit ≡ not_called
      → ((event_cb l m ctx fd error_text c e).0.loop_exit ≡ called_on ctx)
        ↔ ((e.connected ≡ false) × (e.error ≡ true))
  unfolding event_cb
  event_cb-called_on h = (λ p. ground arith, λ p. ground arith)

  -- The client's `event_cb` frees the bufferevent exactly if the event is the end of the stream,
  -- without an error and no new connection.
  pub event_cb-frees :
      ((event_cb l m ctx fd error_text c e).1 ≡ true)
      ↔ ((e.connected ≡ false) × (e.error ≡ false) × (e.eof ≡ true))
  unfolding event_cb
  event_cb-frees = (λ p. ground arith, λ p. ground arith)
