-- ===== src/Config/Options.antt =====
-- What `parse_option` does on each option that was meant.
use net_file_transfer.Base.{
  ℕ, ◌+◌, ◌-◌, ◌<◌, ◌≤◌, ◌≡◌, ◌≢◌, refl, ◌∙◌, List, [], ◌∷◌, ◌++◌, ok, length, take, drop,
  length-append, length-drop, length-take, arith, neq→==,
}
use net_file_transfer.Memory.{text, snprintf_s, strcpy, basename, strip_slashes}
use net_file_transfer.Memory.Text.{
  IsText, IsText-take, snprintf_s_ok, strcpy-text, text_lem, text-IsText,
}
use net_file_transfer.Memory.BaseText.{
  basename-IsText, length-basename, strip_slashes-IsText, length-strip_slashes,
}
use net_file_transfer.FileInfo.{maxlen}
use net_file_transfer.Config.{Parameter, Opt, CInt, atoi, to_short, parse_option}
use net_file_transfer.Config.Choice.{
  Given, host_given, infile_given, outfile_given, port_given, unknown, opt_of, Choice, choose,
  Shows,
}

snprintf_s-cut :
    (dst src t : List ℕ) (size : ℕ)
    → text src ≡ ok t
    → 0 < size
    → length dst ≡ size
    → (out : List ℕ) × (snprintf_s dst size src ≡ ok out)
      × (text out ≡ ok (take (size - 1) t))
      × (length out ≡ size)
snprintf_s-cut dst src t size e pos fits =
    let kept = take (size - 1) t in
    let rest = drop (length kept + 1) dst in
    (
      kept ++ 0 ∷ rest,
      snprintf_s_ok dst src t size e pos (omega arith),
      text_lem kept rest (IsText-take (size - 1) t (text-IsText src t e)),
      omega (
        arith,
        length-append kept (0 ∷ rest),
        length-drop (length kept + 1) dst,
        length-take (size - 1) t,
      ),
    )

-- The base name of what was stored is copied whole.
strcpy-base :
    (dst t : List ℕ)
    → IsText t
    → length t ≤ 255
    → length dst ≡ maxlen
    → (out : List ℕ) × (strcpy dst (basename t ++ 0 ∷ []) ≡ ok out)
      × (text out ≡ ok (basename t))
      × (length out ≡ maxlen)
strcpy-base dst t h short size =
    let (out, copied, read, same) =
      strcpy-text dst (basename t ++ 0 ∷ []) (basename t)
        (text_lem (basename t) [] (basename-IsText t h))
        (omega (arith, length-basename t 255 short (omega arith), size)) in
    (out, copied, read, same ∙ size)

-- What `basename` leaves of the input file's name is written over it.
strcpy-stripped :
    (dst t : List ℕ)
    → IsText t
    → length t ≤ 255
    → length dst ≡ maxlen
    → (out : List ℕ) × (strcpy dst (strip_slashes t ++ 0 ∷ []) ≡ ok out)
      × (text out ≡ ok (strip_slashes t))
      × (length out ≡ maxlen)
strcpy-stripped dst t h short size =
    let (out, copied, read, same) =
      strcpy-text dst (strip_slashes t ++ 0 ∷ []) (strip_slashes t)
        (text_lem (strip_slashes t) [] (strip_slashes-IsText t h))
        (omega (arith, length-strip_slashes t, size)) in
    (out, copied, read, same ∙ size)

-- One option.
module _ (p : Parameter) (c : Choice) (s : Shows p c) where
  parse_option-host :
      (array t : List ℕ) (e : text array ≡ ok t)
      → (p' : Parameter) × (parse_option p c.result (opt_of (host_given array t e))
          ≡ ok (p', c.result))
        × Shows p' (choose c (host_given array t e))
  unfolding parse_option choose
  parse_option-host array t e =
      let (out, stored, read, size) =
        snprintf_s-cut p.host array t 50 e (omega arith) s.valid.host_length in
      (
        record p { host = out },
        rw stored refl,
        record {
          valid = record {
            host_length = size;
            infile_length = s.valid.infile_length;
            outfile_length = s.valid.outfile_length;
          };
          host = read;
          port = s.port;
          infile = s.infile;
          outfile = s.outfile;
        },
      )

  parse_option-outfile :
      (array t : List ℕ) (e : text array ≡ ok t)
      → (p' : Parameter) × (parse_option p c.result (opt_of (outfile_given array t e))
          ≡ ok (p', c.result))
        × Shows p' (choose c (outfile_given array t e))
  unfolding parse_option choose
  parse_option-outfile array t e =
      let (out, stored, read, size) =
        snprintf_s-cut p.outfile array t maxlen e (omega arith) s.valid.outfile_length in
      (
        record p { outfile = out },
        rw stored refl,
        record {
          valid = record {
            host_length = s.valid.host_length;
            infile_length = s.valid.infile_length;
            outfile_length = size;
          };
          host = s.host;
          port = s.port;
          infile = s.infile;
          outfile = read;
        },
      )

  parse_option-infile :
      (array t : List ℕ) (e : text array ≡ ok t)
      → (p' : Parameter) × (parse_option p c.result (opt_of (infile_given array t e))
          ≡ ok (p', c.result))
        × Shows p' (choose c (infile_given array t e))
  unfolding parse_option choose
  parse_option-infile array t e =
      let (infile, stored, read, size) =
        snprintf_s-cut p.infile array t maxlen e (omega arith) s.valid.infile_length in
      let (outfile, copied, read', size') =
        strcpy-base p.outfile (take 255 t) (IsText-take 255 t (text-IsText array t e))
          (omega (arith, length-take 255 t)) s.valid.outfile_length in
      let (stripped, cut, read'', size'') =
        strcpy-stripped infile (take 255 t) (IsText-take 255 t (text-IsText array t e))
          (omega (arith, length-take 255 t)) size in
      (
        record p { infile = stripped; outfile = outfile },
        rw (stored, read, copied, cut) refl,
        record {
          valid = record {
            host_length = s.valid.host_length;
            infile_length = size'';
            outfile_length = size';
          };
          host = s.host;
          port = s.port;
          infile = read'';
          outfile = read';
        },
      )

  parse_option-port :
      (array : List ℕ) (v : CInt) (e : atoi array ≡ ok v)
      → (p' : Parameter) × (parse_option p c.result (opt_of (port_given array v e))
          ≡ ok (p', c.result))
        × Shows p' (choose c (port_given array v e))
  unfolding parse_option choose
  parse_option-port array v e = (
    record p { port = to_short v },
    rw e refl,
    record {
      valid = record {
        host_length = s.valid.host_length;
        infile_length = s.valid.infile_length;
        outfile_length = s.valid.outfile_length;
      };
      host = s.host;
      port = refl;
      infile = s.infile;
      outfile = s.outfile;
    },
  )

  parse_option-unknown :
      (o : Opt) (nh : o.ch ≢ b'h') (np : o.ch ≢ b'p') (nf : o.ch ≢ b'f') (nout : o.ch ≢ b'o')
      → (parse_option p c.result o ≡ ok (p, 1)) × Shows p (choose c (unknown o nh np nf nout))
  unfolding parse_option choose
  parse_option-unknown o nh np nf nout = (
    rw (neq→== o.ch b'h' nh, neq→== o.ch b'p' np, neq→== o.ch b'f' nf, neq→== o.ch b'o' nout) refl,
    record {
      valid = s.valid;
      host = s.host;
      port = s.port;
      infile = s.infile;
      outfile = s.outfile;
    },
  )

  -- Each option does what it was meant to.
  pub parse_option-choose :
      (g : Given)
      → (p' : Parameter) × (parse_option p c.result (opt_of g) ≡ ok (p', (choose c g).result))
        × Shows p' (choose c g)
  unfolding choose
  parse_option-choose (host_given array t e) = parse_option-host array t e
  parse_option-choose (infile_given array t e) = parse_option-infile array t e
  parse_option-choose (outfile_given array t e) = parse_option-outfile array t e
  parse_option-choose (port_given array v e) = parse_option-port array v e
  parse_option-choose (unknown o h p' f o') =
      let (done, shown) = parse_option-unknown o h p' f o' in (p, done, shown)
