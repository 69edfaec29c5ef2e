-- ===== src/Asio/Pipes.antt =====
-- Plain byte lists meet what the programs assume of boost::asio.
use net_file_transfer.Base.{
  ℕ, ◌≤◌, ◌≡◌, ◌≢◌, refl, Bool, true, false, List, [], ◌∷◌, ◌++◌, length, take, drop, ltb, arith,
  if◌then◌else◌, lt→ltb, ◌==◌,
}
use net_file_transfer.Asio.{Asio, IsAsio, ErrorCode, success, eof, failure}

pub record Pipe : Type 0 where
  pub received : List ℕ
  pub broken : Bool
  pub written : List ℕ
  pub ended : Bool

abbrev end_of : Bool → ErrorCode
end_of true = failure 1
end_of false = eof

abbrev read_pipe : Pipe → ℕ → ErrorCode × List ℕ × Pipe
read_pipe p n =
    if ltb (length p.received) n
    then (end_of p.broken, p.received, record p { received = [] })
    else (success, take n p.received, record p { received = drop n p.received })

-- Host names all have the endpoints 0 and 1, and only endpoint 1 accepts.
abbrev pub pipes : Asio
pipes = record {
  message = λ e. [];
  Endpoint = ℕ;
  Socket = Pipe;
  incoming = λ p. p.received;
  ending = λ p. end_of p.broken;
  sent = λ p. p.written;
  sent_all = λ p. p.ended;
  healthy = λ p. true;
  async_resolve = λ host port. (success, 0 ∷ 1 ∷ []);
  async_connect = λ e. (
    if e == 1 then success else failure 1,
    record { received = []; broken = false; written = []; ended = false },
  );
  async_read = read_pipe;
  async_write = λ p d. (success, record p { written = p.written ++ d });
  shutdown_send = λ p. record p { ended = true };
  close = λ p. p;
}

not_less : (a b : ℕ) → b ≤ a → ltb a b ≡ false
not_less a b h = ground arith

end_of_ne_success : (b : Bool) → end_of b ≢ success
end_of_ne_success true e = cc
end_of_ne_success false e = cc

pub pipes-IsAsio : IsAsio pipes
pipes-IsAsio = record {
  read_full = λ p n h. rw (not_less (length p.received) n h) (refl, refl, refl, refl);
  read_rest = λ p n h. rw (lt→ltb (length p.received) n h) (refl, refl);
  ending_ne_success = λ p. end_of_ne_success p.broken;
  write_all = λ p d h. (refl, refl, refl);
  shutdown_sent = λ p. refl;
  shutdown_ends = λ p. refl;
  close_sent = λ p. refl;
  close_ends = λ p h. h;
  connect_sent = λ e h. refl;
}
