-- ===== src/Examples/Parts.antt =====
-- The functions that the callbacks are made of, and the small programs.
use net_file_transfer.Base.{
  ℕ, map, foldl, List, [], ◌∷◌, ◌++◌, none, some, true, false, replicate, ok, fault, ◌>>=◌, ◌≡◌,
  ◌↔◌, refl, take, arith,
}
use net_file_transfer.Memory.{zeros, length-zeros, text, slash}
use net_file_transfer.Memory.Text.{text_lem}
use net_file_transfer.LibEvent.Queues.{queues, queues-IsLibEvent}
use net_file_transfer.OpenSsl.{digest}
use net_file_transfer.OpenSsl.Toy.{toy, toy-IsMd5}
use net_file_transfer.FileInfo.{FileInfo, IsFileInfo, word, encode, decode, is_data_correct}
use net_file_transfer.FileInfo.Wire.{decode-encode}
use net_file_transfer.FileInfo.Digest.{is_data_correct_lem}
use net_file_transfer.Stdio.{World}
use net_file_transfer.Interface.{WriteArg, readfile, writefile}
use net_file_transfer.Interface.Read.{readfile_lem}
use net_file_transfer.Interface.Write.{Written, writefile_lem}
use net_file_transfer.Config.{Parameter, parse_commandline}
use net_file_transfer.Config.Choice.{
  Given, infile_given, unknown, opt_of, default_choice, choose, Shows,
}
use net_file_transfer.Config.Meaning.{parse_commandline-choose}
use net_file_transfer.Config.Names.{IsParameter}
use net_file_transfer.Config.{Opt}
use net_file_transfer.Base.{◌↔◌}
use net_file_transfer.Config.Returns.{parse_commandline_returns}
use net_file_transfer.Server.{zero_fileinfo}
use net_file_transfer.Server.Head.{zero-IsFileInfo}
use net_file_transfer.Main.{Startup, af_inet, htons}
use net_file_transfer.Echo
use net_file_transfer.Echo.{main-never_adds}
use net_file_transfer.FileTest
use net_file_transfer.FileTest.{main-overflow}
use net_file_transfer.Examples.{
  in_name, in_array, in_array-text, length-in_array, out_name, out_array, out_array-text,
  length-out_array, world, para, three_bytes,
}

abbrev header : FileInfo
header = record zero_fileinfo { name = out_array; size = 3 }

header-IsFileInfo : IsFileInfo header
header-IsFileInfo = record {
  name_length = length-out_array;
  size_bound = omega arith;
  info_length = length-zeros 16;
}

decode-encode_example :
    (encode (zeros 280) header >>= λ (n, out). decode zero_fileinfo out n) ≡ ok header
decode-encode_example =
    decode-encode (zeros 280) header zero_fileinfo header-IsFileInfo zero-IsFileInfo
      (omega (arith, length-zeros 280))

is_data_correct_lem_example :
    (is_data_correct toy (replicate 1 false ++ true ∷ []) header three_bytes 3 ≡ ok 1)
    ↔ ((3 ≡ header.size) × (take word (digest toy (take 3 three_bytes)) ≡ take word header.info))
is_data_correct_lem_example = is_data_correct_lem toy 1 [] header three_bytes 3 (omega arith)

abbrev reading : WriteArg queues
reading = record { finfo = record zero_fileinfo { name = in_array }; buffer = [] }

readfile_lem_example :
    (out : WriteArg queues) × (readfile queues toy (world (some three_bytes) 0) reading ≡ ok out)
    × (out.buffer ≡ [] ++ three_bytes)
    × (out.finfo ≡ record reading.finfo { size = 3; info = digest toy three_bytes })
readfile_lem_example =
    readfile_lem queues-IsLibEvent (world (some three_bytes) 0) reading toy-IsMd5 in_array-text refl
      (omega arith)

abbrev writing : WriteArg queues
writing = record { finfo = header; buffer = three_bytes }

writefile_lem_example :
    (ret : ℕ) × (w' : World) × (args' : WriteArg queues) × (writefile queues toy
        (world none 2)
        writing
      ≡ ok (ret, w', args'))
    × Written queues (world none 2) writing out_name three_bytes ret w' args'
writefile_lem_example =
    writefile_lem toy queues-IsLibEvent (world none 2) writing out_array-text refl refl refl
      (omega arith)

para-IsParameter : IsParameter para
para-IsParameter = record {
  host_length = length-zeros 50;
  infile_length = length-in_array;
  outfile_length = length-out_array;
}

-- `d/out`.
abbrev directory : List ℕ
directory = b'd' ∷ []

directory-text : text (directory ++ slash ∷ out_array) ≡ ok (directory ++ slash ∷ out_name)
directory-text =
    text_lem (directory ++ slash ∷ out_name) (zeros 252)
      (omega arith, (omega arith, (omega arith, (omega arith, (omega arith, tt)))))

-- An input file, and an option that is not known.
abbrev givens : List Given
givens =
    infile_given in_array in_name in_array-text
    ∷ unknown (record { ch = b'?'; optarg = none }) (λ e. omega (arith, e)) (λ e. omega (arith, e))
        (λ e. omega (arith, e)) (λ e. omega (arith, e))
    ∷ []

parse_commandline-choose_example :
    (p' : Parameter) × (parse_commandline para (map opt_of givens)
      ≡ ok (p', (foldl choose default_choice givens).result))
    × Shows p' (foldl choose default_choice givens)
parse_commandline-choose_example = parse_commandline-choose para givens para-IsParameter

-- -h without its argument.
abbrev no_host : List Opt
no_host = record { ch = b'h'; optarg = none } ∷ []

parse_commandline_returns_example :
    ((r : Parameter × ℕ) × (parse_commandline para no_host ≡ ok r))
    ↔ ((gs : List Given) × (map opt_of gs ≡ no_host))
parse_commandline_returns_example = parse_commandline_returns para no_host para-IsParameter

-- Every call succeeds, and no text is an address.
abbrev startup : Startup
startup = record {
  inet_aton = λ host. none;
  event_base_new = true;
  bufferevent_socket_new = true;
  evconnlistener_new_bind = λ a. true;
  evsignal_new = true;
  event_add = true;
  bufferevent_socket_connect = λ a. true;
}

main-overflow_example : FileTest.main toy true zero_fileinfo zero_fileinfo (zeros 100) ≡ fault
main-overflow_example =
    main-overflow toy true zero_fileinfo zero_fileinfo (zeros 100) toy-IsMd5 zero-IsFileInfo
      (length-zeros 100)

-- How the echo server's `main` ends.
abbrev echo_end : Echo.Ended
echo_end = record {
  final = [];
  bound = record { sin_family = af_inet; sin_port = htons 9000; sin_addr = 0 };
  signal_added = false;
}

echo_runs : Echo.main startup (λ out. ok out) ≡ ok echo_end
unfolding Echo.main Echo.check_signal
echo_runs = refl

main-never_adds_example : echo_end.signal_added ≡ false
main-never_adds_example = main-never_adds startup (λ out. ok out) echo_runs
