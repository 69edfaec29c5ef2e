-- ===== src/Client/Steps.antt =====
-- The client as a state machine: its event loop makes one callback after the other, in any order,
-- with whatever has arrived.
use net_file_transfer.Base.{
  ℕ, ◌≡◌, ◌≢◌, refl, ap, subst, ◌∙◌, Bool, true, false, not, ◌&&◌, List, [], ◌∷◌, length, ok,
  Always-ok, if◌then◌else◌,
}
use net_file_transfer.LibEvent.{LibEvent, IsLibEvent, Events, Context, Callbacks, null_ctx}
use net_file_transfer.Main.{watching}
use net_file_transfer.Log.{Log}
use net_file_transfer.OpenSsl.{Md5}
use net_file_transfer.Stdio.{World, SameWorld}
use net_file_transfer.Interface.{fin, enum_value}
use net_file_transfer.Client.{Client, Scratch, LoopExit, called_on, read_cb, event_cb}
use net_file_transfer.Client.Keeps.{Keeps, AnswersTo, read_cb-Keeps}

-- Callbacks registered with `ctx`, with the events that they told, the last one first.
pub data Reaches (l : LibEvent) (m : Md5) (ctx : Context) (c : Client l)
    : List Events → Client l → Type 0 where
  here : Reaches l m ctx c [] c
  received :
      {es : List Events} {t u : Client l} (scratch : Scratch) (bev bev' : l.BufferEvent)
      → Reaches l m ctx c es t
      → read_cb l m t scratch bev ≡ ok (u, bev')
      → Reaches l m ctx c es u
  told :
      {es : List Events} {t u : Client l} (fd : ℕ) (error_text : List ℕ) (e : Events)
      → Reaches l m ctx c es t
      → (event_cb l m ctx fd error_text t e).0 ≡ u
      → Reaches l m ctx c (e ∷ es) u

-- An error that is no new connection.
abbrev pub is_fatal : Events → Bool
is_fatal e = not e.connected && e.error

-- What the events make of the call of `event_base_loopexit`.
abbrev pub exit_after : Context → LoopExit → List Events → LoopExit
exit_after ctx called [] = called
exit_after ctx called (e ∷ es) = if is_fatal e then called_on ctx else exit_after ctx called es

pub record Steady (l : LibEvent) (ctx : Context) (c : Client l) (es : List Events) (c' : Client l)
    : Type 0 where
  pub para : c'.para ≡ c.para
  pub str : length c'.str ≡ length c.str
  pub world : SameWorld c.world c'.world
  pub not_fin : c.status ≢ enum_value fin → c'.status ≢ enum_value fin
  pub left : c'.loop_exit ≡ exit_after ctx c.loop_exit es

module _ {l : LibEvent} {ctx : Context} where
  Steady-here : (c : Client l) → Steady l ctx c [] c
  Steady-here c = record { para = refl; str = refl; world = refl; not_fin = λ ne. ne; left = refl }

  Steady-received :
      {c t u : Client l} {es : List Events}
      → Steady l ctx c es t
      → Keeps l t u
      → u.status ≢ enum_value fin
      → Steady l ctx c es u
  Steady-received {c} s keeps ne = record {
    para = keeps.para ∙ s.para;
    str = keeps.str ∙ s.str;
    world = ap (λ (w : World). record w { log = c.world.log }) keeps.world ∙ s.world;
    not_fin = λ _. ne;
    left = keeps.loop_exit ∙ s.left;
  }

  Steady-logged :
      {c t : Client l} {es : List Events} (e : Events) (log : Log) (called : LoopExit)
      → Steady l ctx c es t
      → called ≡ exit_after ctx c.loop_exit (e ∷ es)
      → Steady l ctx c
          (e ∷ es)
          (record t { world = record t.world { log = log }; loop_exit = called })
  Steady-logged e log called s left = record {
    para = s.para;
    str = s.str;
    world = s.world;
    not_fin = s.not_fin;
    left = left;
  }

module _ (l : LibEvent) (m : Md5) (ctx : Context) where
  -- By what the event is.
  Steady-event :
      {c t : Client l} {es : List Events} (fd : ℕ) (error_text : List ℕ)
      (connected eof error : Bool)
      → Steady l ctx c es t
      → let e : Events = record { connected = connected; eof = eof; error = error } in
        Steady l ctx c (e ∷ es) (event_cb l m ctx fd error_text t e).0
  unfolding event_cb
  Steady-event {t} fd error_text true eof error s = Steady-logged _ _ t.loop_exit s s.left
  Steady-event fd error_text false eof true s = Steady-logged _ _ (called_on ctx) s refl
  Steady-event {t} fd error_text false true false s = Steady-logged _ _ t.loop_exit s s.left
  Steady-event {t} fd error_text false false false s =
      Steady-logged _ t.world.log t.loop_exit s s.left

module _ {l : LibEvent} {m : Md5} {ctx : Context} where
  Reaches-exit_after :
      {c c' : Client l} {es : List Events} → Reaches l m ctx c es c' → Steady l ctx c es c'
  Reaches-exit_after {c} here = Steady-here c
  Reaches-exit_after (received {t} scratch bev bev' r e) =
      let (keeps, ne) =
        Always-ok (AnswersTo t) (read_cb l m t scratch bev) (read_cb-Keeps l m t scratch bev) e in
      Steady-received (Reaches-exit_after r) keeps ne
  Reaches-exit_after {c} (told fd error_text e r same) =
      subst (Steady l ctx c _) same
        (Steady-event l m ctx fd error_text e.connected e.eof e.error (Reaches-exit_after r))

-- The `ctx` of the bufferevent that the client's `main` watches.
abbrev pub watched_ctx : (l : LibEvent) → Client l → Context
watched_ctx l c = (l.bufferevent_getcb (watching l c).1).cbarg

-- However the client's callbacks `read_cb` and `event_cb` that return follow one another on a
-- bufferevent that `main` has set up, and whatever has arrived: the client's parameters, the size
-- of its array for names and its world but for the log are as they were; a request that was not
-- FIN at the start is not FIN; and `event_base_loopexit` has been called, with NULL for the base,
-- exactly if it had been already or some event was an error and no new connection.
pub Reaches-Steady :
    {l : LibEvent} {m : Md5} (lv : IsLibEvent l) (main_client : Client l) {c c' : Client l}
    {es : List Events}
    → Reaches l m (watched_ctx l main_client) c es c'
    → Steady l null_ctx c es c'
Reaches-Steady {l} lv main_client {c} {c'} {es} r =
    subst (λ ctx. Steady l ctx c es c')
      (ap (λ (k : Callbacks). k.cbarg) (lv.enable_getcb _ ∙ lv.setcb_getcb _ _ _ _ _))
      (Reaches-exit_after r)
