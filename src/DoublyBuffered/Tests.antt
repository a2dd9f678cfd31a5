-- ===== src/DoublyBuffered/Tests.antt =====
-- A run of the protocol, and the laws at concrete values.
use lib_net_co_rpc.Prelude.{ℕ, ◌+◌, ◌≡◌, ◌≢◌, refl, true, false, arith}
use lib_net_co_rpc.DoublyBuffered.{DoublyBufferedData, get_data, unsafe_read, modify, plain}
use lib_net_co_rpc.DoublyBuffered.Laws.{modify_order}
use lib_net_co_rpc.DoublyBuffered.Protocol.{
  outside, has_wrapper, locked, reading, first_write, System, update, get_wrapper, start_read,
  load_index, lock_modify, start, Reach, here, next,
}
use lib_net_co_rpc.DoublyBuffered.Safety.{no_torn_read}

-- Thread 0 reads the first copy while the writer is at the second.
abbrev one_reader : System
one_reader = record start {
  registered = update (λ i. false) 0 true;
  reader = update (update (update (λ i. outside) 0 has_wrapper) 0 locked) 0 (reading false);
  writer = first_write;
}

one_reader-Reach : Reach 1 one_reader
one_reader-Reach =
    next
      (next (next (next here (get_wrapper 0 (omega arith) refl refl)) (start_read 0 refl))
        (load_index 0 refl))
      (lock_modify refl)

no_torn_read_example : one_reader.reader 0 ≢ reading true
no_torn_read_example = no_torn_read one_reader-Reach refl 0

-- counts the calls of `fn`
abbrev bump : ℕ → ℕ → ℕ × ℕ × ℕ
bump x calls = (0, x + 10, calls + 1)

abbrev pair : DoublyBufferedData ℕ
pair = record { data_0 = 1; data_1 = 2; index = false }

modify_runs : modify (plain bump) pair 0 ≡ record {
  assertion = true;
  buffers = record { data_0 = 11; data_1 = 12; index = true };
  state = 2;
}
unfolding modify
modify_runs = refl

modify_order_example :
    let m = modify (plain bump) pair 0 in
    (m.buffers.index ≡ true)
    × (unsafe_read m.buffers ≡ 12)
    × (get_data false m.buffers ≡ 11)
    × (m.state ≡ 2)
    × (m.assertion ≡ true)
modify_order_example = modify_order pair 0 bump
