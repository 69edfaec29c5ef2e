-- ===== src/Config/Meaning.antt =====
-- `parse_commandline` makes the choices that the command line stands for.
use net_file_transfer.Base.{◌≡◌, refl, ◌∙◌, List, [], ◌∷◌, map, foldl, ok, arith}
use net_file_transfer.Memory.{text}
use net_file_transfer.Memory.Text.{strcpy-text}
use net_file_transfer.Config.{
  Parameter, default_host, default_port, parse_options, parse_commandline,
}
use net_file_transfer.Config.Names.{IsParameter}
use net_file_transfer.Config.Choice.{Given, opt_of, Choice, default_choice, choose, Shows}
use net_file_transfer.Config.Options.{parse_option-choose}

parse_options-choose :
    (p : Parameter) (c : Choice) (s : Shows p c) (gs : List Given)
    → (p' : Parameter) × (parse_options p c.result (map opt_of gs)
        ≡ ok (p', (foldl choose c gs).result))
      × Shows p' (foldl choose c gs)
unfolding parse_options
parse_options-choose p c s [] = (p, refl, s)
parse_options-choose p c s (g ∷ gs) =
    let (p₁, done, s₁) = parse_option-choose p c s g in
    let (p', rest, s') = parse_options-choose p₁ (choose c g) s₁ gs in
    (p', rw (done, rest) refl, s')

-- For parameters with arrays of the declared lengths and any list of options, each a text for -h,
-- -f or -o, the text of an `int` for -p, or one that is not known: `parse_commandline` returns,
-- and the parameters are those of the abstract choices made one after the other from the defaults,
-- in which -h sets the host, cut to 49 bytes, -p the port's lower 16 bits, -f the input file, cut
-- to 255 bytes and without trailing slashes, if it is not made of slashes only, and the output
-- file, its base name, -o the output file, and an unknown option the
-- value returned, 0 otherwise; the arrays keep their lengths.
pub parse_commandline-choose :
    (p : Parameter) (gs : List Given)
    → IsParameter p
    → (p' : Parameter) × (parse_commandline p (map opt_of gs)
        ≡ ok (p', (foldl choose default_choice gs).result))
      × Shows p' (foldl choose default_choice gs)
unfolding parse_commandline text
parse_commandline-choose p gs v =
    let (host, copied, read, size) =
      strcpy-text p.host default_host default_choice.host refl (omega (arith, v.host_length)) in
    let (p', ran, s) =
      parse_options-choose (record p { host = host; port = default_port }) default_choice
        (record {
          valid = record {
            host_length = size ∙ v.host_length;
            infile_length = v.infile_length;
            outfile_length = v.outfile_length;
          };
          host = read;
          port = refl;
          infile = tt;
          outfile = tt;
        })
        gs in
    (p', rw copied ran, s)
