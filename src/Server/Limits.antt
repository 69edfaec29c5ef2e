-- ===== src/Server/Limits.antt =====
-- Which bytes the server cannot take for a header.
use net_file_transfer.Base.{
  ℕ, ◌<◌, ◌≤◌, ◌≡◌, ◌≢◌, ◌⊎◌, ◌↔◌, refl, sym, ◌∙◌, inl, inr, Bool-cases, ltb, ltb→lt, not_ltb→le,
  ◌==◌, List, [], ◌∷◌, ◌++◌, ok, fault, length, take, drop, length-take, take_all, ==_iff,
  take-append_le, take-append, length-append, arith,
}
use net_file_transfer.Memory.{text, zeros}
use net_file_transfer.Memory.Text.{IsText, memcpy_ok}
use net_file_transfer.LibEvent.{LibEvent, IsLibEvent, incoming}
use net_file_transfer.OpenSsl.{Md5}
use net_file_transfer.FileInfo.{FileInfo, maxlen, sizeof_fileinfo, to_bytes, of_bytes, decode}
use net_file_transfer.FileInfo.Layout.{length-to_bytes}
use net_file_transfer.FileInfo.Wire.{decode_overflow}
use net_file_transfer.Stdio.{bufsiz}
use net_file_transfer.Interface.{head}
use net_file_transfer.Server.{Server, zero_fileinfo, read_head, read_cb}
use net_file_transfer.Server.Head.{zero-IsFileInfo, copied}
use net_file_transfer.Server.Partial.{read_cb-size}

-- Too many for the structure, or a whole name without a NUL.
abbrev pub IsHarmful : List ℕ → Type 0
IsHarmful bytes =
    (sizeof_fileinfo < length bytes) ⊎ ((maxlen ≤ length bytes) × IsText (take maxlen bytes))

ok_ne_fault : {A : Type 0} {a : A} → ok a ≢ fault
ok_ne_fault e = cc

-- An array holds a text, or no NUL.
text_decides :
    (xs : List ℕ)
    → ((t : List ℕ) × (text xs ≡ ok t) × (¬ IsText xs)) ⊎ ((text xs ≡ fault) × IsText xs)
unfolding text
text_decides [] = inr (refl, tt)
text_decides (x ∷ xs) = elim (Bool-cases (x == 0)) [
  | inl end ↦ inl ([], rw end refl, λ h. h.0 ((==_iff x 0).0 end))
  | inr more ↦ elim (text_decides xs) [
    | inl (t, e, refuted) ↦ inl (x ∷ t, rw (more, e) refl, λ h. refuted h.1)
    | inr (e, no_nul) ↦ inr (rw (more, e) refl, (λ z. ground (arith, more, z), no_nul))
  ]
]

-- A whole name replaces all of the old one.
decoded_name :
    (bytes rest : List ℕ)
    → maxlen ≤ length bytes
    → length bytes ≤ sizeof_fileinfo
    → (f : FileInfo) × (decode zero_fileinfo (bytes ++ rest) (length bytes) ≡ ok f)
      × (f.name ≡ take maxlen bytes)
unfolding decode of_bytes
decoded_name bytes rest whole fits =
    let old = to_bytes zero_fileinfo in
    (
      of_bytes (bytes ++ drop (length bytes) old),
      rw
          (
            memcpy_ok old (bytes ++ rest) (length bytes)
                (omega (arith, length-to_bytes zero-IsFileInfo))
                (omega (arith, length-append bytes rest)),
            take-append (length bytes) bytes rest refl,
          )
          refl,
      take-append_le maxlen bytes (drop (length bytes) old) whole,
    )

module _ {l : LibEvent} (m : Md5) (lv : IsLibEvent l) where
  -- The bytes that one call of `bufferevent_read` takes.
  abbrev taken : l.BufferEvent → List ℕ
  taken bev = take bufsiz (incoming l bev)

  too_many :
      (s : Server) (stack : FileInfo) (bev : l.BufferEvent)
      → s.status ≡ head
      → sizeof_fileinfo < length (incoming l bev)
      → read_cb l m s stack bev ≡ fault
  unfolding read_cb read_head
  too_many s stack bev asking large = rw (
    asking,
    lv.read_removed bev bufsiz,
    copied (taken bev) (omega (arith, length-take bufsiz (incoming l bev))),
    decode_overflow zero_fileinfo _ (length (taken bev)) zero-IsFileInfo
        (omega (arith, length-take bufsiz (incoming l bev))),
  )

  -- With a whole name, all is well exactly if it ends.
  name_decides :
      (s : Server) (stack : FileInfo) (bev : l.BufferEvent)
      → s.status ≡ head
      → maxlen ≤ length (incoming l bev)
      → length (incoming l bev) ≤ sizeof_fileinfo
      → (read_cb l m s stack bev ≡ fault) ↔ IsText (take maxlen (incoming l bev))
  unfolding read_cb read_head
  name_decides s stack bev asking whole fits =
      let bytes = incoming l bev in
      let got : (l.bufferevent_read bev bufsiz).0 ≡ bytes =
        lv.read_removed bev bufsiz ∙ take_all bufsiz bytes (omega arith) in
      let (f, found, name) = decoded_name bytes (drop (length bytes) (zeros bufsiz)) whole fits in
      elim (text_decides (take maxlen bytes)) [
        | inl (t, ended, refuted) ↦
            rw (asking, got, copied bytes (omega arith), found, name, ended)
              ((λ e. absurd (ok_ne_fault e)), (λ h. absurd (refuted h)))
        | inr (endless, no_nul) ↦
            rw (asking, got, copied bytes (omega arith), found, name, endless)
              ((λ _. no_nul), (λ _. refl))
      ]

  -- While the server waits for a header, and whatever has arrived, `read_cb` leaves what C
  -- defines, by writing past the end of its local `finfo` or by reading past the end of the name
  -- there, exactly if more bytes have arrived than a header has, or at least as many as the name
  -- has and none of those of the name is a NUL.
  pub read_cb_limit :
      (s : Server) (stack : FileInfo) (bev : l.BufferEvent)
      → s.status ≡ head
      → (read_cb l m s stack bev ≡ fault) ↔ IsHarmful (incoming l bev)
  read_cb_limit s stack bev asking =
      let n = length (incoming l bev) in
      elim (Bool-cases (ltb n maxlen)) [
        | inl short ↦
            let (_, _, _, ran, _, _) =
              read_cb-size m lv s stack bev (incoming l bev) asking refl (ltb→lt n maxlen short) in
            (
              λ e. absurd (ok_ne_fault (sym ran ∙ e)),
              λ harm. elim harm [
                | inl large ↦ absurd (omega (arith, ltb→lt n maxlen short))
                | inr (whole, _) ↦ absurd (omega (arith, ltb→lt n maxlen short))
              ],
            )
        | inr whole' ↦
            let whole = not_ltb→le n maxlen whole' in
            elim (Bool-cases (ltb sizeof_fileinfo n)) [
              | inl large' ↦
                  let large = ltb→lt sizeof_fileinfo n large' in
                  (λ _. inl large, λ _. too_many s stack bev asking large)
              | inr fits' ↦
                  let fits = not_ltb→le sizeof_fileinfo n fits' in
                  let (to, from) = name_decides s stack bev asking whole fits in
                  (
                    λ e. inr (whole, to e),
                    λ harm. elim harm [
                      | inl large ↦ absurd (omega arith)
                      | inr (_, endless) ↦ from endless
                    ],
                  )
            ]
      ]
