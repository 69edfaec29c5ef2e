-- ===== src/Transfer/Order.antt =====
-- The order of the clients does not matter if their files have different names.
use mathlib.Core.Path.{fun_ext}
use mathlib.Core.Logic.{∥∥₁_elim}
use mathlib.Core.List.{Nodup, Nodup-cons, Perm, mem-cons}
use mathlib.Core.List.Perm
use mathlib.Core.List.{Permᴰ}
use net_file_transfer.Base.{
  ℕ, ◌+◌, ◌≤◌, ◌≡◌, ◌≢◌, inl, inr, refl, sym, ap, ap₂, ◌∙◌, Bool-cases, List, [], ◌∷◌, map, Option,
  some, ok, length, bytes_eq, eq_of_bytes_eq, arith,
}
use net_file_transfer.Memory.{basename}
use net_file_transfer.LibEvent.{LibEvent, IsLibEvent}
use net_file_transfer.OpenSsl.{Md5, IsMd5}
use net_file_transfer.Stdio.{FileName, put_file}
use net_file_transfer.Server.{Server}
use net_file_transfer.Config.{Parameter, Opt, parse_commandline}
use net_file_transfer.Main.{Startup, address, server_main}
use net_file_transfer.Transfer.Programs.{Starts}
use net_file_transfer.Transfer.Visits.{
  Visit, visits, stored_files, bytes_of, Works, CanVisitAll, server_main-Served,
}

-- What a client leaves: a name and a content.
abbrev pub Deposit : Type 0
Deposit = FileName × List ℕ

abbrev pub deposits : {l : LibEvent} → List (Visit l) → List Deposit
deposits [] = []
deposits (v ∷ vs) = (basename v.outfile, v.content) ∷ deposits vs

abbrev pub names : List Deposit → List FileName
names = map (λ d. d.0)

abbrev Files : Type 0
Files = FileName → Option (List ℕ)

unfoldable put_all : Files → List Deposit → Files
put_all files [] = files
put_all files (d ∷ ds) = put_all (put_file files d.0 d.1) ds

abbrev sizes : List Deposit → ℕ
sizes [] = 0
sizes (d ∷ ds) = length d.1 + sizes ds

stored_files-put_all :
    {l : LibEvent} (vs : List (Visit l)) (files : Files)
    → stored_files files vs ≡ put_all files (deposits vs)
unfolding stored_files put_all
stored_files-put_all [] files = refl
stored_files-put_all (v ∷ vs) files = stored_files-put_all vs _

bytes_of-sizes : {l : LibEvent} (vs : List (Visit l)) → bytes_of vs ≡ sizes (deposits vs)
bytes_of-sizes [] = refl
bytes_of-sizes (v ∷ vs) = ap (λ n. length v.content + n) (bytes_of-sizes vs)

-- Two files with different names can be put in either order.
put_file_comm :
    (files : Files) (d e : Deposit)
    → d.0 ≢ e.0
    → put_file (put_file files d.0 d.1) e.0 e.1 ≡ put_file (put_file files e.0 e.1) d.0 d.1
unfolding put_file
put_file_comm files d e ne = fun_ext (λ other. elim (Bool-cases (bytes_eq e.0 other)) [
  | inl mine ↦ elim (Bool-cases (bytes_eq d.0 other)) [
    | inl his ↦ absurd (ne (eq_of_bytes_eq d.0 other his ∙ sym (eq_of_bytes_eq e.0 other mine)))
    | inr other's ↦ rw (mine, other's) refl
  ]
  | inr not_mine ↦ elim (Bool-cases (bytes_eq d.0 other)) [
    | inl his ↦ rw (not_mine, his) refl
    | inr other's ↦ rw (not_mine, other's) refl
  ]
])

abbrev pub Distinct : List Deposit → Type 0
Distinct ds = Nodup (names ds)

Distinct-ne : (d e : Deposit) (ds : List Deposit) → Distinct (d ∷ e ∷ ds) → d.0 ≢ e.0
Distinct-ne d e ds h same = (Nodup-cons.0 h).0 (mem-cons.1 ∣ inl same ∣₁)

Distinct-tail : (d : Deposit) (ds : List Deposit) → Distinct (d ∷ ds) → Distinct ds
Distinct-tail d ds h = (Nodup-cons.0 h).1

Distinct-Permᴰ : {ds es : List Deposit} → Permᴰ ds es → Distinct ds → Distinct es
Distinct-Permᴰ p = Perm.nodup (Perm.map (λ d. d.0) ∣ p ∣₁)

put_all-Permᴰ :
    {ds es : List Deposit} (files : Files)
    → Permᴰ ds es
    → Distinct ds
    → put_all files ds ≡ put_all files es
unfolding put_all
put_all-Permᴰ files Permᴰ.nil h = refl
put_all-Permᴰ files (Permᴰ.cons {a} {b} {l₁} same p) h =
    ap (λ (d : Deposit). put_all (put_file files d.0 d.1) l₁) same
    ∙ put_all-Permᴰ (put_file files b.0 b.1) p (Distinct-tail a l₁ h)
put_all-Permᴰ files (Permᴰ.swap {a} {b} {a'} {b'} {l} e e') h =
    ap (λ f. put_all f l) (put_file_comm files a b (Distinct-ne a b l h))
    ∙ ap₂ (λ (x y : Deposit). put_all (put_file (put_file files x.0 x.1) y.0 y.1) l) e' e
put_all-Permᴰ files (Permᴰ.trans p q) h =
    put_all-Permᴰ files p h ∙ put_all-Permᴰ files q (Distinct-Permᴰ p h)

sizes-Permᴰ : {ds es : List Deposit} → Permᴰ ds es → sizes ds ≡ sizes es
sizes-Permᴰ Permᴰ.nil = refl
sizes-Permᴰ (Permᴰ.cons same p) = ap₂ (λ (d : Deposit) (n : ℕ). length d.1 + n) same (sizes-Permᴰ p)
sizes-Permᴰ (Permᴰ.swap {l} e e') =
    omega (arith, ap (λ (d : Deposit). length d.1) e, ap (λ (d : Deposit). length d.1) e')
sizes-Permᴰ (Permᴰ.trans p q) = sizes-Permᴰ p ∙ sizes-Permᴰ q

-- The files and their sizes, whatever the order.
put_all-Perm :
    {ds es : List Deposit} (files : Files)
    → Perm ds es
    → Distinct ds
    → put_all files ds ≡ put_all files es
put_all-Perm files p h = ∥∥₁_elim p (hlevel) (λ q. put_all-Permᴰ files q h)

sizes-Perm : {ds es : List Deposit} → Perm ds es → sizes ds ≡ sizes es
sizes-Perm p = ∥∥₁_elim p (hlevel) sizes-Permᴰ

module _ {l : LibEvent} {m : Md5} (lv : IsLibEvent l) (mv : IsMd5 m) where
  -- Two lists of clients for the server under c, each as for serving them one after the other,
  -- that are to leave the same names and contents, only in another order, with no name twice:
  -- whatever the sessions are otherwise, on either list the server's `main` returns 0, with the
  -- same files and the same room left at the end.
  pub server_main-order :
      (u : Startup) (vs ws : List (Visit l)) (s : Server) (para p : Parameter) (options : List Opt)
      → parse_commandline para options ≡ ok (p, 0)
      → Starts u p
      → Works s.world
      → CanVisitAll l s.world vs
      → CanVisitAll l s.world ws
      → bytes_of vs ≤ s.world.space
      → Perm (deposits vs) (deposits ws)
      → Distinct (deposits vs)
      → (x y : Server) × (server_main u (visits l m vs) para options s
          ≡ ok (record { exit_code = 0; para = p; bound = some (address u p); final = x }))
        × (server_main u (visits l m ws) para options s
            ≡ ok (record { exit_code = 0; para = p; bound = some (address u p); final = y }))
        × (x.world.file ≡ y.world.file)
        × (x.world.space ≡ y.world.space)
  server_main-order u vs ws s para p options parsed starts works can can' room perm distinct =
      let same_size : bytes_of vs ≡ bytes_of ws =
        bytes_of-sizes vs ∙ sizes-Perm perm ∙ sym (bytes_of-sizes ws) in
      let (x, ran, d) =
        server_main-Served lv mv u vs s para p options parsed starts works can room in
      let (y, ran', d') =
        server_main-Served lv mv u ws s para p options parsed starts works can'
          (omega (arith, same_size)) in
      (
        x,
        y,
        ran,
        ran',
        fun_ext d.stored
            ∙ stored_files-put_all vs s.world.file
            ∙ put_all-Perm s.world.file perm distinct
            ∙ sym (stored_files-put_all ws s.world.file)
            ∙ sym (fun_ext d'.stored),
        omega (arith, d.left.space, d'.left.space, same_size),
      )
