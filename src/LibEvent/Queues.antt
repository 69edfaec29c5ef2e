-- ===== src/LibEvent/Queues.antt =====
-- Plain byte queues meet what the program assumes of libevent.
use net_file_transfer.Base.{ℕ, Bool, true, false, none, refl, List, [], ◌++◌, length, take, drop}
use net_file_transfer.LibEvent.{LibEvent, IsLibEvent, Callbacks, null_ctx}

pub record Queues : Type 0 where
  pub input : List ℕ
  pub output : List ℕ
  pub callbacks : Callbacks
  pub enabled : Bool

-- A bufferevent with no callbacks.
abbrev pub bytes_only : List ℕ → List ℕ → Queues
bytes_only input output = record {
  input = input;
  output = output;
  callbacks = record { readcb = none; writecb = none; eventcb = none; cbarg = null_ctx };
  enabled = false;
}

abbrev pub queues : LibEvent
queues = record {
  EvBuffer = List ℕ;
  contents = λ b. b;
  evbuffer_new = [];
  evbuffer_get_length = length;
  evbuffer_add = λ b d. b ++ d;
  evbuffer_remove = λ b n. (take n b, drop n b);
  BufferEvent = Queues;
  get_input = λ v. v.input;
  get_output = λ v. v.output;
  with_input = λ v b. record v { input = b };
  bufferevent_socket_new = bytes_only [] [];
  bufferevent_setcb = λ v r w e c. record v {
    callbacks = record { readcb = r; writecb = w; eventcb = e; cbarg = c };
  };
  bufferevent_getcb = λ v. v.callbacks;
  reading = λ v. v.enabled;
  bufferevent_enable = λ v. record v { enabled = true };
  bufferevent_disable = λ v. v;
  bufferevent_read = λ v n. (take n v.input, record v { input = drop n v.input });
  bufferevent_write = λ v d. record v { output = v.output ++ d };
  bufferevent_write_buffer = λ v b. (record v { output = v.output ++ b }, []);
  sent = λ v n. (take n v.output, record v { output = drop n v.output });
  arrived = λ v d. record v { input = v.input ++ d };
}

pub queues-IsLibEvent : IsLibEvent queues
queues-IsLibEvent = record {
  length_contents = λ b. refl;
  new_contents = refl;
  add_contents = λ b d. refl;
  removed = λ b n. refl;
  remove_contents = λ b n. refl;
  with_input_input = λ v b. refl;
  with_input_output = λ v b. refl;
  socket_new_input = refl;
  socket_new_output = refl;
  setcb_input = λ v r w e c. refl;
  setcb_output = λ v r w e c. refl;
  enable_input = λ v. refl;
  enable_output = λ v. refl;
  disable_input = λ v. refl;
  disable_output = λ v. refl;
  setcb_getcb = λ v r w e c. refl;
  enable_getcb = λ v. refl;
  write_getcb = λ v d. refl;
  enable_reading = λ v. refl;
  write_reading = λ v d. refl;
  read_removed = λ v n. refl;
  read_input = λ v n. refl;
  read_output = λ v n. refl;
  write_input = λ v d. refl;
  write_output = λ v d. refl;
  write_buffer_input = λ v b. refl;
  write_buffer_output = λ v b. refl;
  write_buffer_emptied = λ v b. refl;
  sent_bytes = λ v n. refl;
  sent_input = λ v n. refl;
  sent_output = λ v n. refl;
  arrived_input = λ v d. refl;
  arrived_output = λ v d. refl;
}
