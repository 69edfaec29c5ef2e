-- ===== src/Echo.antt =====
-- c/echo_serv.c: a server that prints what it receives.
use Prim.Native.String.{String}
use net_file_transfer.Base.{
  ℕ, Bool, true, false, not, List, [], ◌∷◌, ◌++◌, none, some, Outcome, ok, ◌>>=◌, ◌>>◌, assert,
  require, if◌then◌else◌, ◌≡◌, refl, ap, sym, ◌∙◌, take, drop, >>=-eq-ok, ok-injective, assert-true,
  arith,
}
use net_file_transfer.LibEvent.{
  LibEvent, IsLibEvent, Events, incoming, outgoing, read_cb as reads, event_cb as events, null_ctx,
}
use net_file_transfer.Stdio.{bufsiz}
use net_file_transfer.Main.{SockAddrIn, Startup, af_inet, htons}
use net_file_transfer.Config.{default_port}

-- What goes to the standard output: bytes of `fwrite`, or a format of `printf` with its arguments.
pub data Printed : Type 0 where
  raw : List ℕ → Printed
  with_fd : String → ℕ → Printed
  with_text : String → List ℕ → Printed

abbrev pub Stdout : Type 0
Stdout = List Printed

module _ (l : LibEvent) where
  unfoldable pub listen_cb : Bool → Outcome l.BufferEvent
  listen_cb allocated = do
    assert allocated
    ok (
        l.bufferevent_enable
          (l.bufferevent_setcb l.bufferevent_socket_new (some reads) none (some events) null_ctx))

  -- `read_cb`, which nothing registers.
  unfoldable pub read_cb : Stdout → l.BufferEvent → Stdout × l.BufferEvent
  read_cb out bev =
      let (bytes, bev') = l.bufferevent_read bev bufsiz in (out ++ raw bytes ∷ [], bev')

  -- `read_buffered_cb`: at most BUFSIZ bytes come out of the input.
  unfoldable pub read_buffered_cb : Stdout → l.BufferEvent → Stdout × l.BufferEvent
  read_buffered_cb out bev =
      let (bytes, buf) = l.evbuffer_remove (l.get_input bev) bufsiz in
      (out ++ raw bytes ∷ [], l.with_input bev buf)

  -- Both read callbacks of the echo server print the first BUFSIZ bytes that wait, leave the
  -- others waiting, and send nothing.
  pub read_buffered_cb-read_cb :
      (lv : IsLibEvent l) (out : Stdout) (bev : l.BufferEvent)
      → ((read_buffered_cb out bev).0 ≡ (read_cb out bev).0)
        × ((read_buffered_cb out bev).0 ≡ out ++ raw (take bufsiz (incoming l bev)) ∷ [])
        × (incoming l (read_buffered_cb out bev).1 ≡ drop bufsiz (incoming l bev))
        × (incoming l (read_cb out bev).1 ≡ drop bufsiz (incoming l bev))
        × (outgoing l (read_buffered_cb out bev).1 ≡ outgoing l bev)
        × (outgoing l (read_cb out bev).1 ≡ outgoing l bev)
  unfolding read_cb read_buffered_cb
  read_buffered_cb-read_cb lv out bev = (
    rw (lv.removed (l.get_input bev) bufsiz, lv.read_removed bev bufsiz) refl,
    rw (lv.removed (l.get_input bev) bufsiz) refl,
    lv.with_input_input bev _ ∙ lv.remove_contents (l.get_input bev) bufsiz,
    lv.read_input bev bufsiz,
    lv.with_input_output bev _,
    lv.read_output bev bufsiz,
  )

-- `write_cb`, which nothing registers, does nothing.
unfoldable pub write_cb : Stdout → Stdout
write_cb out = out

-- `event_cb`: what is printed; the bufferevent is freed in any case.
unfoldable pub event_cb : ℕ → List ℕ → Stdout → Events → Stdout
event_cb fd error_text out e =
    if e.eof
    then out ++ with_fd "[%d]Connection closed.\n" fd ∷ []
    else if e.error
    then out ++ with_text "Got an error on the connection: %s\n" error_text ∷ []
    else out

-- `signal_cb`: what is printed; `event_base_loopexit` is called.
unfoldable pub signal_cb : Stdout → Stdout
signal_cb out = out ++ with_text "\nexit...\n" [] ∷ []

-- The end of `main`: what it printed, and whether the signal event was ever added to the loop.
pub record Ended : Type 0 where
  pub final : Stdout
  pub bound : SockAddrIn
  pub signal_added : Bool

-- `assert(signal_event != NULL || event_add(signal_event, NULL) < 0)`: whether it holds, and
-- whether `event_add` was called and succeeded. It is not called if the event is there.
unfoldable pub check_signal : Startup → Bool × Bool
check_signal u = if u.evsignal_new then (true, false) else (not u.event_add, u.event_add)

-- `event_add` and `event_free` of NULL are undefined.
unfoldable pub main : Startup → (Stdout → Outcome Stdout) → Outcome Ended
unfolding check_signal
main u dispatch = do
  assert u.event_base_new
  let here : SockAddrIn = record {
    sin_family = af_inet;
    sin_port = htons default_port;
    sin_addr = 0;
  }
  assert (u.evconnlistener_new_bind here)
  require u.evsignal_new
  let (holds, added) = check_signal u
  assert holds
  out ← dispatch []
  ok (record { final = out; bound = here; signal_added = added })

check_signal-never : (u : Startup) → (check_signal u).0 ≡ true → (check_signal u).1 ≡ false
unfolding check_signal
check_signal-never u = ground arith

-- However the calls of libevent turn out, a run of the echo server's `main` that returns has not
-- added the signal event.
pub main-never_adds :
    (u : Startup) (dispatch : Stdout → Outcome Stdout) {r : Ended}
    → main u dispatch ≡ ok r
    → r.signal_added ≡ false
unfolding main
main-never_adds u dispatch e =
    let (_, _, e₁) = >>=-eq-ok (assert u.event_base_new) _ e in
    let (_, _, e₂) = >>=-eq-ok (assert (u.evconnlistener_new_bind _)) _ e₁ in
    let (_, _, e₀) = >>=-eq-ok (require u.evsignal_new) _ e₂ in
    let (_, holds, e₃) = >>=-eq-ok (assert (check_signal u).0) _ e₀ in
    let (out, _, e₄) = >>=-eq-ok (dispatch []) _ e₃ in
    ap (λ (x : Ended). x.signal_added) (sym (ok-injective e₄))
    ∙ check_signal-never u (assert-true _ holds)
