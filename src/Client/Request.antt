-- ===== src/Client/Request.antt =====
-- How the client takes in a request: the first steps of its `read_cb`.
use net_file_transfer.Base.{
  ℕ, ◌≡◌, refl, ap, ◌∙◌, List, [], ◌∷◌, ◌++◌, ok, ◌>>=◌, >>=-eq-ok, length, take, drop, take_all,
  drop_all, append-nil, arith,
}
use net_file_transfer.Memory.{memcpy, text, le_bytes, le_value}
use net_file_transfer.Memory.Words.{length-le_bytes}
use net_file_transfer.Memory.Text.{memcpy_ok}
use net_file_transfer.LibEvent.{LibEvent, IsLibEvent, incoming}
use net_file_transfer.OpenSsl.{Md5}
use net_file_transfer.Log.{write_log, simplog_debug, string}
use net_file_transfer.Interface.{RequestType, init, head, file_data, fin, enum_value, request_info}
use net_file_transfer.Interface.Requests.{name_of, request_info_lem, length-request_info}
use net_file_transfer.Server.{request_bytes, logging}
use net_file_transfer.Client.{Client, Scratch, read_cb, write_cb, finish}

pub length-request_bytes : (t : RequestType) → length (request_bytes t) ≡ 4
unfolding request_bytes
length-request_bytes t = length-le_bytes 4 (enum_value t)

request-value : (t : RequestType) → le_value (request_bytes t) ≡ enum_value t
unfolding request_bytes enum_value le_value
request-value init = refl
request-value head = refl
request-value file_data = refl
request-value fin = refl

-- Four bytes overwrite the whole of `Status`.
overwritten :
    (old : ℕ) (t : RequestType)
    → memcpy (le_bytes 4 old) (request_bytes t) (length (request_bytes t)) ≡ ok (request_bytes t)
overwritten old t =
    memcpy_ok (le_bytes 4 old) (request_bytes t) (length (request_bytes t))
      (omega (arith, length-request_bytes t, length-le_bytes 4 old)) (omega arith)
    ∙ ap ok (
        ap (λ b. b ++ drop (length (request_bytes t)) (le_bytes 4 old))
          (take_all (length (request_bytes t)) (request_bytes t) (omega arith))
        ∙ ap (λ b. request_bytes t ++ b)
            (drop_all (length (request_bytes t)) (le_bytes 4 old)
              (omega (arith, length-request_bytes t, length-le_bytes 4 old)))
        ∙ append-nil (request_bytes t))

-- The client that has taken in a request and logged its name.
abbrev pub told : {l : LibEvent} → Client l → RequestType → List ℕ → Client l
told c t str = record c {
  status = enum_value t;
  str = str;
  world = logging (write_log simplog_debug "接收请求:%s" (string (name_of t) ∷ [])) c.world;
}

module _ {l : LibEvent} (m : Md5) (lv : IsLibEvent l) where
  -- A request that has arrived whole becomes the client's `Status`, and the callback goes on with
  -- `finish` and `write_cb`.
  pub read_cb-told :
      (c : Client l) (scratch : Scratch) (bev : l.BufferEvent) (t : RequestType)
      → length c.str ≡ 5
      → incoming l bev ≡ request_bytes t
      → (str : List ℕ) × (length str ≡ 5)
        × (read_cb l m c scratch bev ≡ (
            finish l m (told c t str) (l.bufferevent_read bev 4).1 >>= λ (c', bev').
            write_cb l m c' scratch bev'))
  unfolding read_cb
  read_cb-told c scratch bev t five held =
      let got : (l.bufferevent_read bev 4).0 ≡ request_bytes t =
        lv.read_removed bev 4
        ∙ ap (take 4) held
        ∙ take_all 4 (request_bytes t) (omega (arith, length-request_bytes t)) in
      let (str, info, name) =
        >>=-eq-ok (request_info c.str (enum_value t)) text (request_info_lem c.str t five) in
      (
        str,
        length-request_info c.str str (enum_value t) info ∙ five,
        rw (got, overwritten c.status t, request-value t, info, name),
      )

  pub read_all :
      (bev : l.BufferEvent) (t : RequestType)
      → incoming l bev ≡ request_bytes t
      → incoming l (l.bufferevent_read bev 4).1 ≡ []
  read_all bev t held =
      lv.read_input bev 4
      ∙ ap (drop 4) held
      ∙ drop_all 4 (request_bytes t) (omega (arith, length-request_bytes t))
