-- ===== src/Examples.antt =====
-- A small run of the whole system, at which the theorems are applied: a file `in` of three bytes,
-- which is to arrive as `out`, over byte queues and with a toy digest.
pub mod Sessions
pub mod Callbacks
pub mod Parts
pub mod Boost
pub mod Packed
pub mod Programs
pub mod Runs
pub mod Networks
pub mod Clients
pub mod Requests
use net_file_transfer.Base.{
  ℕ, List, [], ◌∷◌, ◌++◌, Option, none, some, true, false, ok, ◌≡◌, ◌≢◌, ◌<◌, ◌^◌, refl, length,
  length-append, arith,
}
use net_file_transfer.Memory.{zeros, length-zeros, text, basename}
use net_file_transfer.Memory.Text.{text_lem, IsText}
use net_file_transfer.Memory.BaseName.{basename-name}
use net_file_transfer.LibEvent.Queues.{bytes_only, queues, queues-IsLibEvent}
use net_file_transfer.OpenSsl.Toy.{toy, toy-IsMd5}
use net_file_transfer.FileInfo.{maxlen, sizeof_fileinfo}
use net_file_transfer.Stdio.{World}
use net_file_transfer.Interface.{head}
use net_file_transfer.Config.{Parameter}
use net_file_transfer.Server.{Server, request_bytes, zero_fileinfo}
use net_file_transfer.Server.Head.{zero-IsFileInfo}
use net_file_transfer.Server.Receive.{CanWrite}
use net_file_transfer.Client.{Client, Scratch, null, not_called}
use net_file_transfer.Client.Answer.{CanSend}
use net_file_transfer.Transfer.{System}
use net_file_transfer.Transfer.Session.{Ready}

abbrev pub in_name : List ℕ
in_name = b'i' ∷ b'n' ∷ []

abbrev pub out_name : List ℕ
out_name = b'o' ∷ b'u' ∷ b't' ∷ []

-- An array of MAXLEN bytes that holds a name.
abbrev pub in_array : List ℕ
in_array = in_name ++ 0 ∷ zeros 253

abbrev pub out_array : List ℕ
out_array = out_name ++ 0 ∷ zeros 252

pub in_array-text : text in_array ≡ ok in_name
in_array-text = text_lem in_name (zeros 253) (omega arith, (omega arith, tt))

pub out_array-text : text out_array ≡ ok out_name
out_array-text = text_lem out_name (zeros 252) (omega arith, (omega arith, (omega arith, tt)))

pub length-in_array : length in_array ≡ maxlen
length-in_array = omega (arith, length-zeros 253)

pub length-out_array : length out_array ≡ maxlen
length-out_array = omega (arith, length-zeros 252)

pub basename-out_name : basename out_name ≡ out_name
basename-out_name = basename-name out_name (λ e. cc) (omega arith, (omega arith, (omega arith, tt)))

-- A world in which every name holds `content`, if anything, and the disk has some room.
abbrev pub world : Option (List ℕ) → ℕ → World
world content space = record {
  file = λ name. content;
  writable = λ name. true;
  space = space;
  fwrite_short = λ room given n. 0;
  malloc = true;
  pthread_create = 0;
  pthread_join = 0;
  log = [];
}

-- The same, where `fwrite` accepts whatever it is given, as its buffer does for few bytes.
abbrev pub buffering_world : Option (List ℕ) → ℕ → World
buffering_world content space = record (world content space) { fwrite_short = λ room given n. n }

abbrev pub para : Parameter
para = record { port = 9000; host = zeros 50; infile = in_array; outfile = out_array }

-- Both sides once the client has connected, and the bytes of the file.
abbrev pub system : ℕ → List ℕ → System queues
system space content = record {
  server = record { status = head; world = world none space; loop_exit = false };
  frame = zero_fileinfo;
  server_bev = bytes_only [] (request_bytes head);
  client = record {
    status = 0;
    buf = null;
    para = para;
    str = zeros 5;
    world = world (some content) 0;
    loop_exit = not_called;
  };
  scratch = record { stack = zero_fileinfo; heap = zeros sizeof_fileinfo };
  client_bev = bytes_only [] [];
}

abbrev pub three_bytes : List ℕ
three_bytes = 7 ∷ 8 ∷ 9 ∷ []

pub can_write : (space : ℕ) → CanWrite (world none space) out_name
can_write space = record { creates = refl; joins = refl; allocates = refl; opens = refl }

pub can_send :
    (space : ℕ) (content : List ℕ)
    → length content < 2 ^ 64
    → CanSend queues
        (system space content).client
        (system space content).scratch
        in_name
        out_name
        content
can_send space content small = record {
  infile_named = in_array-text;
  infile_array = length-in_array;
  outfile_named = out_array-text;
  outfile_array = length-out_array;
  str_array = length-zeros 5;
  there = refl;
  countable = small;
  creates = refl;
  joins = refl;
  allocates = refl;
  stack = zero-IsFileInfo;
  heap = length-zeros sizeof_fileinfo;
}

pub ready :
    (space : ℕ) (content : List ℕ)
    → length content < 2 ^ 64
    → Ready queues-IsLibEvent toy-IsMd5 (system space content) in_name out_name content
ready space content small = record {
  traffic = record {
    status = refl;
    server_in = refl;
    server_out = refl;
    client_in = refl;
    client_out = refl;
  };
  can_send = can_send space content small;
  can_write = can_write space;
}
