-- ===== src/Examples/Runs.antt =====
-- Runs of the server's callbacks.
use net_file_transfer.Base.{ℕ, List, [], ◌∷◌, none, true, ◌≡◌, refl, inl, inr, arith}
use net_file_transfer.Memory.{slash}
use net_file_transfer.LibEvent.Queues.{bytes_only, queues, queues-IsLibEvent, Queues}
use net_file_transfer.OpenSsl.Toy.{toy}
use net_file_transfer.FileInfo.{FileInfo}
use net_file_transfer.Log.{write_log, simplog_debug}
use net_file_transfer.Interface.{file_data}
use net_file_transfer.Server.{Server, zero_fileinfo, logging, signal_cb}
use net_file_transfer.Server.Receive.{read_cb-wait}
use net_file_transfer.Server.Protocol.{
  Step, received, signalled, Reaches, here, next, IsBase, Follows,
}
use net_file_transfer.Server.Steps.{Step-Follows, Reaches-SameElsewhere}
use net_file_transfer.Examples.{out_name, out_array, world}

abbrev three_announced : FileInfo
three_announced = record zero_fileinfo { name = out_array; size = 3 }

-- A server that waits for three bytes, and has two.
abbrev receiving : Server
receiving = record { status = file_data; world = world none 100; loop_exit = true }

abbrev two_waiting : Queues
two_waiting = bytes_only (7 ∷ 8 ∷ []) []

abbrev waiting : Server
waiting = record receiving {
  world = logging (write_log simplog_debug "接收文件..." []) (world none 100);
}

waits : Step queues toy receiving waiting
waits = received three_announced three_announced two_waiting two_waiting (
    read_cb-wait toy queues-IsLibEvent receiving three_announced two_waiting refl
      (λ e. omega (arith, e)))

Step-Follows_example : Follows receiving waiting
Step-Follows_example = Step-Follows waits

stops : Reaches queues toy receiving (signal_cb waiting)
stops = next (next here waits) (signalled refl)

-- `d/out`.
abbrev path : List ℕ
path = b'd' ∷ slash ∷ out_name

slashed_path : ¬ IsBase path
slashed_path (inl e) = cc
slashed_path (inr h) = h.1.0 refl

Reaches-SameElsewhere_example : (signal_cb waiting).world.file path ≡ none
Reaches-SameElsewhere_example = Reaches-SameElsewhere stops path slashed_path
