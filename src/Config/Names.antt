-- ===== src/Config/Names.antt =====
-- The options -f and -o: the file names.
use net_file_transfer.Base.{
  ℕ, ◌+◌, ◌-◌, ◌<◌, ◌≡◌, ◌≢◌, refl, ap, ◌∙◌, List, [], ◌∷◌, ◌++◌, some, ok, length, take_all, drop,
  length-append, length-drop, arith,
}
use net_file_transfer.Memory.{text, snprintf_s, slash}
use net_file_transfer.Memory.Text.{IsText, snprintf_s_ok, strcpy-text, text_lem, text-IsText}
use net_file_transfer.Memory.BaseName.{NoSlash, basename-path, strip_slashes-path}
use net_file_transfer.FileInfo.{maxlen}
use net_file_transfer.Config.{Parameter, parse_option}

-- The arrays of `struct parameter` have their declared lengths.
pub record IsParameter (p : Parameter) : Type 0 where
  pub host_length : length p.host ≡ 50
  pub infile_length : length p.infile ≡ maxlen
  pub outfile_length : length p.outfile ≡ maxlen

-- A text that fits is stored whole.
pub snprintf_s-text :
    (dst src t : List ℕ) (size : ℕ)
    → text src ≡ ok t
    → length t < size
    → length dst ≡ size
    → (out : List ℕ) × (snprintf_s dst size src ≡ ok out) × (text out ≡ ok t) × (length out ≡ size)
snprintf_s-text dst src t size e short fits =
    let whole = take_all (size - 1) t (omega arith) in
    (
      t ++ 0 ∷ drop (length t + 1) dst,
      snprintf_s_ok dst src t size e (omega arith) (omega arith)
          ∙ ap (λ k. ok (k ++ 0 ∷ drop (length k + 1) dst)) whole,
      text_lem t (drop (length t + 1) dst) (text-IsText src t e),
      omega (arith, length-append t (0 ∷ drop (length t + 1) dst), length-drop (length t + 1) dst),
    )

IsText-behind : (xs ys : List ℕ) (c : ℕ) → IsText (xs ++ c ∷ ys) → IsText ys
IsText-behind [] ys c h = h.1
IsText-behind (x ∷ xs) ys c h = IsText-behind xs ys c h.1

-- What -f does with a path that fits: it is the input, and its last part the output.
pub record Named (p p' : Parameter) (path name : List ℕ) : Type 0 where
  pub infile : text p'.infile ≡ ok path
  pub outfile : text p'.outfile ≡ ok name
  pub same_host : p'.host ≡ p.host
  pub same_port : p'.port ≡ p.port
  pub valid : IsParameter p'

-- For parameters with arrays of the declared lengths, the option -f with a path of at most 255
-- bytes that ends in a non-empty name behind its last '/' makes the path the input file and the
-- name the output file, and changes neither host nor port nor the lengths of the arrays.
pub parse_option-Named :
    (p : Parameter) (opterr : ℕ) (array dir name : List ℕ)
    → IsParameter p
    → text array ≡ ok (dir ++ slash ∷ name)
    → length (dir ++ slash ∷ name) < maxlen
    → name ≢ []
    → NoSlash name
    → (p' : Parameter) × (parse_option p opterr (record { ch = b'f'; optarg = some array })
        ≡ ok (p', opterr))
      × Named p p' (dir ++ slash ∷ name) name
unfolding parse_option
parse_option-Named p opterr array dir name v e short ne bare =
    let path = dir ++ slash ∷ name in
    let base = basename-path dir name ne bare in
    let (infile, stored, read, size) =
      snprintf_s-text p.infile array path maxlen e short v.infile_length in
    let (outfile, copied, read', size') =
      strcpy-text p.outfile (name ++ 0 ∷ []) name
        (text_lem name [] (IsText-behind dir name slash (text-IsText array path e)))
        (omega (arith, length-append dir (slash ∷ name), v.outfile_length)) in
    let (stripped, cut, read'', size'') =
      strcpy-text infile (path ++ 0 ∷ []) path (text_lem path [] (text-IsText array path e))
        (omega (arith, size)) in
    (
      _,
      rw (stored, read, base, copied, strip_slashes-path dir name ne bare, cut),
      record {
        infile = read'';
        outfile = read';
        same_host = refl;
        same_port = refl;
        valid = record {
          host_length = v.host_length;
          infile_length = size'' ∙ size;
          outfile_length = size' ∙ v.outfile_length;
        };
      },
    )
