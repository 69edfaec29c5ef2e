-- ===== src/Config/Choice.antt =====
-- What a command line stands for, apart from the arrays.
use net_file_transfer.Base.{ℕ, ◌≡◌, ◌≢◌, List, [], ◌∷◌, Option, some, none, ok, take}
use net_file_transfer.Memory.{text, basename, strip_slashes}
use net_file_transfer.Config.{Parameter, Opt, CInt, atoi, to_short, default_port}
use net_file_transfer.Config.Names.{IsParameter}

-- An option as it was meant: with a text, a number, or one that the program does not know.
pub data Given : Type 0 where
  host_given infile_given outfile_given : (array t : List ℕ) → text array ≡ ok t → Given
  port_given : (array : List ℕ) (v : CInt) → atoi array ≡ ok v → Given
  unknown : (o : Opt) → o.ch ≢ b'h' → o.ch ≢ b'p' → o.ch ≢ b'f' → o.ch ≢ b'o' → Given

abbrev pub opt_of : Given → Opt
opt_of (host_given array t e) = record { ch = b'h'; optarg = some array }
opt_of (infile_given array t e) = record { ch = b'f'; optarg = some array }
opt_of (outfile_given array t e) = record { ch = b'o'; optarg = some array }
opt_of (port_given array v e) = record { ch = b'p'; optarg = some array }
opt_of (unknown o h p f o') = o

-- What was chosen: the texts, as far as they are set, the port, and the value returned.
pub record Choice : Type 0 where
  pub host : List ℕ
  pub port : ℕ
  pub infile : Option (List ℕ)
  pub outfile : Option (List ℕ)
  pub result : ℕ

abbrev pub default_choice : Choice
default_choice = record {
  host = b'1' ∷ b'2' ∷ b'7' ∷ b'.' ∷ b'0' ∷ b'.' ∷ b'0' ∷ b'.' ∷ b'1' ∷ [];
  port = default_port;
  infile = none;
  outfile = none;
  result = 0;
}

-- Texts are cut to what the arrays have room for; an input file names the output file too, and
-- loses its trailing slashes.
unfoldable pub choose : Choice → Given → Choice
choose c (host_given array t e) = record c { host = take 49 t }
choose c (infile_given array t e) = record c {
  infile = some (strip_slashes (take 255 t));
  outfile = some (basename (take 255 t));
}
choose c (outfile_given array t e) = record c { outfile = some (take 255 t) }
choose c (port_given array v e) = record c { port = to_short v }
choose c (unknown o h p f o') = record c { result = 1 }

-- The array holds the text, if there is to be one.
abbrev pub Holds : List ℕ → Option (List ℕ) → Type 0
Holds array none = Unit {0}
Holds array (some t) = text array ≡ ok t

pub record Shows (p : Parameter) (c : Choice) : Type 0 where
  pub valid : IsParameter p
  pub host : text p.host ≡ ok c.host
  pub port : p.port ≡ c.port
  pub infile : Holds p.infile c.infile
  pub outfile : Holds p.outfile c.outfile
