-- ===== src/Config/Returns.antt =====
-- The command lines that `parse_commandline` takes.
use net_file_transfer.Base.{
  ℕ, ◌≡◌, ◌↔◌, refl, sym, ap, ap₂, subst, inl, inr, Bool-cases, ◌==◌, ==_iff, List, [], ◌∷◌, map,
  Option, some, none, ok, ok-injective, >>=-eq-ok, arith,
}
use net_file_transfer.Memory.{text, snprintf_s, strcpy}
use net_file_transfer.FileInfo.{maxlen}
use net_file_transfer.Config.{
  Parameter, Opt, argument, atoi, parse_option, parse_options, parse_commandline, default_host,
  default_port,
}
use net_file_transfer.Config.Names.{IsParameter}
use net_file_transfer.Config.Choice.{
  Given, host_given, infile_given, outfile_given, port_given, unknown, opt_of,
}
use net_file_transfer.Config.Meaning.{parse_commandline-choose}

argument_inv :
    (ch : ℕ) (q : Option (List ℕ)) {a : List ℕ}
    → argument (record { ch = ch; optarg = q }) ≡ ok a
    → q ≡ some a
argument_inv ch none e = cc
argument_inv ch (some b) e = ap some (ok-injective e)

-- An option with this letter and this argument.
is_opt :
    (o : Opt) {x : ℕ} {a : List ℕ}
    → o.ch ≡ x
    → argument o ≡ ok a
    → record { ch = x; optarg = some a } ≡ o
is_opt o e got =
    ap₂ (λ (c : ℕ) (q : Option (List ℕ)). record { ch = c; optarg = q }) (sym e)
      (sym (argument_inv o.ch o.optarg got))

snprintf_s-text :
    (dst src : List ℕ) (size : ℕ) {out : List ℕ}
    → snprintf_s dst size src ≡ ok out
    → (t : List ℕ) × (text src ≡ ok t)
unfolding snprintf_s
snprintf_s-text dst src size e = let (t, read, _) = >>=-eq-ok (text src) _ e in (t, read)

-- The option of a run that returns was meant.
parse_option-Given :
    (p : Parameter) (n : ℕ) (o : Opt) {r : Parameter × ℕ}
    → parse_option p n o ≡ ok r
    → (g : Given) × (opt_of g ≡ o)
unfolding parse_option
parse_option-Given p n o e = elim (Bool-cases (o.ch == b'h')) [
  | inl host ↦
      let (a, got, more) = >>=-eq-ok (argument o) _ (rw host at e) in
      let (_, ran, _) = >>=-eq-ok (snprintf_s p.host 50 a) _ more in
      let (t, read) = snprintf_s-text p.host a 50 ran in
      (host_given a t read, is_opt o ((==_iff o.ch b'h').0 host) got)
  | inr no_host ↦ elim (Bool-cases (o.ch == b'p')) [
    | inl port ↦
        let (a, got, more) = >>=-eq-ok (argument o) _ (rw (no_host, port) at e) in
        let (v, number, _) = >>=-eq-ok (atoi a) _ more in
        (port_given a v number, is_opt o ((==_iff o.ch b'p').0 port) got)
    | inr no_port ↦ elim (Bool-cases (o.ch == b'f')) [
      | inl infile ↦
          let (a, got, more) = >>=-eq-ok (argument o) _ (rw (no_host, no_port, infile) at e) in
          let (_, ran, _) = >>=-eq-ok (snprintf_s p.infile maxlen a) _ more in
          let (t, read) = snprintf_s-text p.infile a maxlen ran in
          (infile_given a t read, is_opt o ((==_iff o.ch b'f').0 infile) got)
      | inr no_infile ↦ elim (Bool-cases (o.ch == b'o')) [
        | inl outfile ↦
            let (a, got, more) =
              >>=-eq-ok (argument o) _ (rw (no_host, no_port, no_infile, outfile) at e) in
            let (_, ran, _) = >>=-eq-ok (snprintf_s p.outfile maxlen a) _ more in
            let (t, read) = snprintf_s-text p.outfile a maxlen ran in
            (outfile_given a t read, is_opt o ((==_iff o.ch b'o').0 outfile) got)
        | inr no_outfile ↦ (
          unknown o (λ h. ground (arith, no_host, h)) (λ h. ground (arith, no_port, h))
              (λ h. ground (arith, no_infile, h)) (λ h. ground (arith, no_outfile, h)),
          refl,
        )
      ]
    ]
  ]
]

parse_options-Given :
    (p : Parameter) (n : ℕ) (os : List Opt) {r : Parameter × ℕ}
    → parse_options p n os ≡ ok r
    → (gs : List Given) × (map opt_of gs ≡ os)
unfolding parse_options
parse_options-Given p n [] e = ([], refl)
parse_options-Given p n (o ∷ os) e =
    let (r₁, first, more) = >>=-eq-ok (parse_option p n o) _ e in
    let (g, is) = parse_option-Given p n o first in
    let (gs, are) = parse_options-Given r₁.0 r₁.1 os more in (g ∷ gs, ap₂ (◌∷◌) is are)

-- For parameters with arrays of the declared lengths, `parse_commandline` returns exactly if each
-- option is a text for -h, -f or -o, the text of an `int` for -p, or one that is not known: so not
-- if an argument is missing or not terminated, or a number too large.
pub parse_commandline_returns :
    (p : Parameter) (os : List Opt)
    → IsParameter p
    → ((r : Parameter × ℕ) × (parse_commandline p os ≡ ok r))
      ↔ ((gs : List Given) × (map opt_of gs ≡ os))
unfolding parse_commandline
parse_commandline_returns p os valid = (
  λ (r, e).
      let (h, copied, more) = >>=-eq-ok (strcpy p.host default_host) _ e in
      parse_options-Given (record p { host = h; port = default_port }) 0 os more,
  λ (gs, are).
      let (p', ran, _) = parse_commandline-choose p gs valid in
      subst (λ x. (r : Parameter × ℕ) × (parse_commandline p x ≡ ok r)) are (_, ran),
)
