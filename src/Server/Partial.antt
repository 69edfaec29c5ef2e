-- ===== src/Server/Partial.antt =====
-- What the server makes of a header of which only a part of the name has arrived.
use net_file_transfer.Base.{
  ℕ, zero, suc, ◌-◌, ◌<◌, ◌≡◌, refl, ap, ◌∙◌, inl, inr, Bool-cases, ◌==◌, List, [], ◌∷◌, ◌++◌, ok,
  length, take, drop, drop_all, arith, length-append,
}
use net_file_transfer.Memory.{zeros, text}
use net_file_transfer.LibEvent.{LibEvent, IsLibEvent, incoming}
use net_file_transfer.OpenSsl.{Md5}
use net_file_transfer.FileInfo.{FileInfo, maxlen}
use net_file_transfer.FileInfo.Wire.{decode_short, with_name_start}
use net_file_transfer.Stdio.{bufsiz}
use net_file_transfer.Interface.{head, file_data}
use net_file_transfer.Server.{Server, request_bytes, zero_fileinfo, after_head, read_head, read_cb}
use net_file_transfer.Server.Head.{Headed, zero-IsFileInfo, copied, read_whole}

zeros_eq : {a b : ℕ} → a ≡ b → zeros a ≡ zeros b
zeros_eq e = ap zeros e

drop-zeros : (n m : ℕ) → drop n (zeros m) ≡ zeros (m - n)
unfolding zeros
drop-zeros zero m = zeros_eq {a = m} {b = m - 0} (omega arith)
drop-zeros (suc n) zero = zeros_eq {a = 0} {b = 0 - suc n} (omega arith)
drop-zeros (suc n) (suc m) = drop-zeros n m ∙ zeros_eq {a = m - n} {b = suc m - suc n} (omega arith)

-- An array that ends in zeros holds a text.
text-append_zeros : (xs : List ℕ) (k : ℕ) → (t : List ℕ) × (text (xs ++ zeros (suc k)) ≡ ok t)
unfolding text zeros
text-append_zeros [] k = ([], refl)
text-append_zeros (x ∷ xs) k = elim (Bool-cases (x == 0)) [
  | inl end ↦ ([], rw end)
  | inr more ↦ let (t, e) = text-append_zeros xs k in (x ∷ t, rw (e, more))
]

-- The rest of the name is what `memset` left.
named :
    (bytes : List ℕ) (n : ℕ)
    → n < maxlen
    → (t : List ℕ) × (text (bytes ++ drop n (zeros maxlen)) ≡ ok t)
named bytes n h =
    let (t, e) = text-append_zeros bytes (maxlen - n - 1) in
    (
      t,
      ap (λ z. text (bytes ++ z))
            (drop-zeros n maxlen
              ∙ zeros_eq {a = maxlen - n} {b = suc (maxlen - n - 1)} (omega arith))
          ∙ e,
    )

module _ {l : LibEvent} (m : Md5) (lv : IsLibEvent l) where
  -- While the server waits for a header, fewer bytes than the name has make `read_cb` return with
  -- the server at DATA and the request for the data sent, as for a whole header, but with size 0
  -- in the header in its local `finfo`.
  pub read_cb-size :
      (s : Server) (stack : FileInfo) (bev : l.BufferEvent) (bytes : List ℕ)
      → s.status ≡ head
      → incoming l bev ≡ bytes
      → length bytes < maxlen
      → (s' : Server) × (f : FileInfo) × (bev' : l.BufferEvent) × (read_cb l m s stack bev
          ≡ ok (s', f, bev'))
        × Headed l s s' bev bev'
        × (f.size ≡ 0)
  unfolding read_cb read_head
  read_cb-size s stack bev bytes asking held short =
      let n = length bytes in
      let array = bytes ++ drop n (zeros bufsiz) in
      let f = with_name_start zero_fileinfo array n in
      let (name, told) = named (take n array) n short in
      let bev₁ = (l.bufferevent_read bev bufsiz).1 in
      (
        (after_head l m s n name 0 bev₁).0,
        f,
        (after_head l m s n name 0 bev₁).1,
        rw (
          asking,
          read_whole m lv bev bytes held (omega arith),
          copied bytes (omega arith),
          decode_short array n zero-IsFileInfo (omega arith)
              (omega (arith, length-append bytes (drop n (zeros bufsiz)))),
          told,
        ),
        record {
          status = refl;
          same_world = refl;
          read_all =
              lv.write_input bev₁ (request_bytes file_data)
              ∙ lv.read_input bev bufsiz
              ∙ drop_all bufsiz (incoming l bev) (rw held (omega arith));
          asked =
              lv.write_output bev₁ (request_bytes file_data)
              ∙ ap (λ o. o ++ request_bytes file_data) (lv.read_output bev bufsiz);
        },
        refl,
      )
