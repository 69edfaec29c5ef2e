-- ===== src/Cpp/Server/Run.antt =====
-- The server's `main`: the port of the command line.
use net_file_transfer.Base.{
  ℕ, ◌%◌, ◌^◌, ◌<◌, ◌≡◌, refl, ap, ◌∙◌, Bool, true, false, List, [], ◌∷◌, ◌++◌, some, ok, arith,
}
use net_file_transfer.Memory.Text.{text_lem}
use net_file_transfer.Memory.Decimal.{decimal, decimal-AreDigits, AreDigits-IsText}
use net_file_transfer.Log.{number}
use net_file_transfer.Stdio.{World}
use net_file_transfer.Config.{atoi, digits, to_short}
use net_file_transfer.Config.Port.{digits-decimal, atoi-AreDigits}
use net_file_transfer.Asio.{Asio, ErrorCode}
use net_file_transfer.Cpp.{Console, to_stdout}
use net_file_transfer.Cpp.Server.{Served, async_tcp_server, serve_port, main}

-- What `main` prints before the server is made.
abbrev pub listening : ℕ → Console
listening port = to_stdout "listening on port:%u...\n" (number port ∷ []) ∷ []

port_text :
    (k n : ℕ)
    → n < 10 ^ k
    → n < 2 ^ 31
    → atoi (decimal k n ++ 0 ∷ []) ≡ ok (record { negative = false; magnitude = n })
port_text k n fits small =
    let value : digits 0 (decimal k n) ≡ n = digits-decimal k n fits in
    atoi-AreDigits (decimal k n ++ 0 ∷ []) (decimal k n)
      (text_lem (decimal k n) [] (AreDigits-IsText (decimal k n) (decimal-AreDigits k n)))
      (decimal-AreDigits k n) (omega (arith, value))
    ∙ ap (λ (m : ℕ). ok (record { negative = false; magnitude = m })) value

-- On the decimal text of a port that can be bound, `main` is the server's run.
pub main-async_tcp_server_port :
    (io : Asio) (bound : ℕ → Bool) (what : List ℕ) (fuel : ℕ) (info : List ℕ) (w : World)
    (peers : List (ErrorCode × io.Socket)) (name : List ℕ) (k n : ℕ) {served : Served io}
    → n < 10 ^ k
    → n < 2 ^ 31
    → bound (n % 2 ^ 16) ≡ true
    → async_tcp_server io fuel info w peers ≡ ok served
    → main io bound what fuel info w peers (name ∷ decimal k n ∷ [])
      ≡ ok (record { exit_code = 0; lines = listening (n % 2 ^ 16); served = some served })
unfolding main serve_port to_short
main-async_tcp_server_port io bound what fuel info w peers name k n fits small can ran =
    rw (port_text k n fits small, can, ran) refl
