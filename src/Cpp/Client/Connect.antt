-- ===== src/Cpp/Client/Connect.antt =====
-- The rounds in which `handle_connect` is called: the endpoints are tried in their order.
use net_file_transfer.Base.{
  ℕ, zero, suc, ◌+◌, ◌≡◌, refl, ap, ◌∙◌, List, [], ◌∷◌, some, none, ok, length, arith, Bool-cases,
  inl, inr, true, false, sym, ◌<◌,
}
use net_file_transfer.Memory.{basename}
use net_file_transfer.Log.{string}
use net_file_transfer.Asio.{Asio}
use net_file_transfer.Cpp.{to_stderr, is_error}
use net_file_transfer.Cpp.Header.{encode_fileinfo}
use net_file_transfer.Cpp.Client.{
  connecting, announcing, Frame, Client, print, connect_next, handle_connect, announce, complete,
  service_run,
}
use net_file_transfer.Cpp.Client.Endpoints.{
  some_ne_none, some_inj, first_accepting, tries, last_endpoint, first_accepting-last,
  first_accepting-behind, first_accepting-here, tries_behind, tries_here,
}

-- The client that no endpoint took, `e` being the last one tried.
abbrev pub refused_by : (io : Asio) → io.Endpoint → Client io → Client io
refused_by io e c =
    print io (to_stderr "connect ERROR:%s\n" (string (io.message (io.async_connect e).0) ∷ []))
      (record c { socket = some (io.async_connect e).1 })

module _ (io : Asio) (frame : Frame) where
  -- The connection once the endpoint was tried.
  abbrev pub tried : Client io → io.Endpoint → Client io
  tried c e = record c { socket = some (io.async_connect e).1 }

  refused_round :
      (fuel : ℕ) (e e' : io.Endpoint) (es : List io.Endpoint) (c : Client io)
      → is_error (io.async_connect e).0 ≡ true
      → service_run io (suc fuel) frame (connecting e (e' ∷ es)) c
        ≡ service_run io fuel frame (connecting e' es) (record c { socket = none })
  unfolding service_run complete handle_connect connect_next
  refused_round fuel e e' es c refused = rw refused

  accepted_round :
      (fuel : ℕ) (e : io.Endpoint) (es : List io.Endpoint) (c : Client io) {info : List ℕ}
      → is_error (io.async_connect e).0 ≡ false
      → encode_fileinfo frame.before (basename c.filename) ≡ ok info
      → service_run io (suc fuel) frame (connecting e es) c
        ≡ service_run io fuel frame (announcing info) (tried c e)
  unfolding service_run complete handle_connect announce
  accepted_round fuel e es c no_error encoded = rw (no_error, encoded)

  accept_here :
      (fuel : ℕ) (e : io.Endpoint) (es : List io.Endpoint) (c : Client io) {info : List ℕ}
      → is_error (io.async_connect e).0 ≡ false
      → encode_fileinfo frame.before (basename c.filename) ≡ ok info
      → service_run io (tries io e es + fuel) frame (connecting e es) c
        ≡ service_run io fuel frame (announcing info) (tried c e)
  accept_here fuel e es c no_error encoded =
      ap (λ n. service_run io n frame (connecting e es) c) (tries_here io fuel e es no_error)
      ∙ accepted_round fuel e es c no_error encoded

  last_refused :
      (fuel : ℕ) (e : io.Endpoint) (c : Client io)
      → is_error (io.async_connect e).0 ≡ true
      → service_run io (suc fuel) frame (connecting e []) c ≡ ok (refused_by io e c)
  unfolding service_run complete handle_connect connect_next
  last_refused zero e c refused = rw refused refl
  last_refused (suc fuel) e c refused = rw refused refl

  -- The client announces the file on the first endpoint that accepts.
  pub connecting-announcing :
      (fuel : ℕ) (e : io.Endpoint) (es : List io.Endpoint) (c : Client io) {a : io.Endpoint}
      {info : List ℕ}
      → first_accepting io e es ≡ some a
      → encode_fileinfo frame.before (basename c.filename) ≡ ok info
      → service_run io (tries io e es + fuel) frame (connecting e es) c
        ≡ service_run io fuel frame (announcing info) (tried c a)
  connecting-announcing fuel e [] c {a} {info} first encoded =
      elim (Bool-cases (is_error (io.async_connect e).0)) [
        | inl refused ↦ absurd (some_ne_none (sym first ∙ first_accepting-last io e refused))
        | inr no_error ↦
            accept_here fuel e [] c no_error encoded
            ∙ ap (λ x. service_run io fuel frame (announcing info) (tried c x))
                (some_inj (sym (first_accepting-here io e [] no_error) ∙ first))
      ]
  connecting-announcing fuel e (e' ∷ es) c {a} {info} first encoded =
      elim (Bool-cases (is_error (io.async_connect e).0)) [
        | inl refused ↦
            ap (λ n. service_run io n frame (connecting e (e' ∷ es)) c)
              (tries_behind io fuel e e' es refused)
            ∙ refused_round (tries io e' es + fuel) e e' es c refused
            ∙ connecting-announcing fuel e' es (record c { socket = none })
                (sym (first_accepting-behind io e e' es refused) ∙ first) encoded
        | inr no_error ↦
            accept_here fuel e (e' ∷ es) c no_error encoded
            ∙ ap (λ x. service_run io fuel frame (announcing info) (tried c x))
                (some_inj (sym (first_accepting-here io e (e' ∷ es) no_error) ∙ first))
      ]

  -- Where none accepts, the last one's error is reported, and the client is done.
  pub connecting-none :
      (fuel : ℕ) (e : io.Endpoint) (es : List io.Endpoint) (c : Client io)
      → first_accepting io e es ≡ none
      → length es < fuel
      → service_run io fuel frame (connecting e es) c ≡ ok (refused_by io (last_endpoint e es) c)
  unfolding last_endpoint
  connecting-none zero e es c first enough = absurd (omega arith)
  connecting-none (suc fuel) e [] c first enough =
      elim (Bool-cases (is_error (io.async_connect e).0)) [
        | inl refused ↦ last_refused fuel e c refused
        | inr no_error ↦ absurd (some_ne_none (sym (first_accepting-here io e [] no_error) ∙ first))
      ]
  connecting-none (suc fuel) e (e' ∷ es) c first enough =
      elim (Bool-cases (is_error (io.async_connect e).0)) [
        | inl refused ↦
            refused_round fuel e e' es c refused
            ∙ connecting-none fuel e' es (record c { socket = none })
                (sym (first_accepting-behind io e e' es refused) ∙ first) (omega arith)
        | inr no_error ↦
            absurd (some_ne_none (sym (first_accepting-here io e (e' ∷ es) no_error) ∙ first))
      ]
