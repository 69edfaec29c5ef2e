-- ===== src/Config.antt =====
-- c/config.h and c/config.c: the command line. `getopt` is the C library's; what it returns, call
-- by call, is the list of options given to `parse_commandline`.
pub mod Port
pub mod Names
pub mod Choice
pub mod Options
pub mod Meaning
pub mod Returns
use net_file_transfer.Base.{
  ℕ, zero, suc, ◌+◌, ◌-◌, ◌*◌, ◌%◌, ◌^◌, Bool, true, false, ◌||◌, ◌&&◌, List, [], ◌∷◌, ◌++◌, Option,
  none, some, Outcome, ok, fault, ◌>>=◌, ◌>>◌, require, ltb, leb, ◌==◌, if◌then◌else◌,
}
use net_file_transfer.Memory.{text, strcpy, snprintf_s, basename, strip_slashes}
use net_file_transfer.FileInfo.{maxlen}

-- `HOST` with its NUL, and `PORT`.
abbrev pub default_host : List ℕ
default_host = b'1' ∷ b'2' ∷ b'7' ∷ b'.' ∷ b'0' ∷ b'.' ∷ b'0' ∷ b'.' ∷ b'1' ∷ 0 ∷ []

abbrev pub default_port : ℕ
default_port = 9000

-- `struct parameter`. `port` is the bit pattern of a `short`.
pub record Parameter : Type 0 where
  pub port : ℕ
  pub host : List ℕ
  pub infile : List ℕ
  pub outfile : List ℕ

-- What `getopt` returned, and `optarg`: an array, or NULL.
pub record Opt : Type 0 where
  pub ch : ℕ
  pub optarg : Option (List ℕ)

abbrev pub argument : Opt → Outcome (List ℕ)
argument o = elim o.optarg [ none ↦ fault | some a ↦ ok a ]

abbrev pub is_space : ℕ → Bool
is_space c = c == 32 || (leb 9 c && leb c 13)

abbrev pub is_digit : ℕ → Bool
is_digit c = leb 48 c && leb c 57

-- `atoi`: blanks, a sign, digits. An `int` that the digits do not fit into is undefined.
unfoldable pub digits : ℕ → List ℕ → ℕ
digits acc [] = acc
digits acc (c ∷ cs) = let rest = digits (acc * 10 + (c - 48)) cs in if is_digit c then rest else acc

unfoldable pub skip_spaces : List ℕ → List ℕ
skip_spaces [] = []
skip_spaces (c ∷ cs) = let rest = skip_spaces cs in if is_space c then rest else c ∷ cs

-- The value of an `int`, as a sign and a magnitude.
pub record CInt : Type 0 where
  pub negative : Bool
  pub magnitude : ℕ

unfoldable pub signed : List ℕ → CInt
unfolding digits
signed [] = record { negative = false; magnitude = 0 }
signed (c ∷ cs) =
    if c == b'-'
    then record { negative = true; magnitude = digits 0 cs }
    else if c == b'+'
    then record { negative = false; magnitude = digits 0 cs }
    else record { negative = false; magnitude = digits 0 (c ∷ cs) }

unfoldable pub atoi : List ℕ → Outcome CInt
unfolding signed skip_spaces
atoi array = do
  t ← text array
  let v = signed (skip_spaces t)
  require (if v.negative then leb v.magnitude (2 ^ 31) else ltb v.magnitude (2 ^ 31))
  ok v

-- The conversion to `short`, as a bit pattern.
unfoldable pub to_short : CInt → ℕ
to_short v = if v.negative then (2 ^ 16 - v.magnitude % 2 ^ 16) % 2 ^ 16 else v.magnitude % 2 ^ 16

-- One case of the switch, with the new `opterr`. `basename` takes the trailing slashes off `infile`.
unfoldable pub parse_option : Parameter → ℕ → Opt → Outcome (Parameter × ℕ)
parse_option p opterr o =
    if o.ch == b'h'
    then (do a ← argument o; h ← snprintf_s p.host 50 a; ok (record p { host = h }, opterr))
    else if o.ch == b'p'
    then (do a ← argument o; v ← atoi a; ok (record p { port = to_short v }, opterr))
    else if o.ch == b'f'
    then (do
      a ← argument o
      f ← snprintf_s p.infile maxlen a
      t ← text f
      out ← strcpy p.outfile (basename t ++ 0 ∷ [])
      f' ← strcpy f (strip_slashes t ++ 0 ∷ [])
      ok (record p { infile = f'; outfile = out }, opterr))
    else if o.ch == b'o'
    then (do
      a ← argument o
      out ← snprintf_s p.outfile maxlen a
      ok (record p { outfile = out }, opterr))
    else ok (p, 1)

-- `while ((ch = getopt(...)) != -1) switch (ch) {...}`
unfoldable pub parse_options : Parameter → ℕ → List Opt → Outcome (Parameter × ℕ)
parse_options p opterr [] = ok (p, opterr)
parse_options p opterr (o ∷ os) = do
  (p', opterr') ← parse_option p opterr o
  parse_options p' opterr' os

-- `parse_commandline(p, argc, argv)`: the parameters, and the value returned.
unfoldable pub parse_commandline : Parameter → List Opt → Outcome (Parameter × ℕ)
unfolding parse_options
parse_commandline p options = do
  h ← strcpy p.host default_host
  parse_options (record p { host = h; port = default_port }) 0 options
