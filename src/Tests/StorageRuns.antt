-- ===== src/Tests/StorageRuns.antt =====
-- The theorems on the storage types, at concrete states.
use arb_revm.Base.{
  List, [], arith, false, if◌then◌else◌, ltb, refl, some, true, ℕ, ◌-◌, ◌==◌, ◌^◌, ◌∷◌, ◌≡◌,
}
use arb_revm.Base.Int.{negsuc}
use arb_revm.Journal.{ok, ◌>>◌}
use arb_revm.Journal.Memory.{Memory}
use arb_revm.Tests.Toy.{
  toy, toy-Lawful, list_space, list_apart, map_apart, disjoint, slot_of_list, with_words, map_space,
}
use arb_revm.Storage.Space.{StorageSlot}
use arb_revm.Storage.Slot.{
  get_i64, set_i64, get_i256, set_checked, set_saturating_with_warning,
  i256_to_u256_twos_complement, u256_twos_complement_to_i256,
}
use arb_revm.Storage.Slot.Signed.{twos_complement_of_word, get_i256-set, get_i64-set_i64}
use arb_revm.Storage.Queue.{open_queue}
use arb_revm.Storage.Queue.Fifo.{contents, IsQueue}
use arb_revm.Storage.Queue.Fifo.Calls.{Call, put, get, run, list_run, run_refines}
use arb_revm.Storage.BlockHashes.{
  open_block_hashes, block_hash, record_new_l1_block, fill_hash, ring_index,
}
use arb_revm.Storage.BlockHashes.Ring
use arb_revm.Storage.BlockHashes.Ring.{block_hash-record_new_l1_block}
use arb_revm.Storage.AddressTable.{register, lookup, lookup_index}
use arb_revm.Storage.Retryables.{RetryableRecord, use_window, timeout_with_windows}
use arb_revm.Storage.Retryables.Windows.{timeout_with_windows-use_window}
use arb_revm.Storage.Bytes
use arb_revm.Storage.Bytes.{set_fresh}
use arb_revm.Storage.Bytes.Spelling.{AreBytes}
use arb_revm.Storage.Bytes.RoundTrip.{get-set_fresh}
use arb_revm.Storage.AddressSet.{add, remove, is_member}
use arb_revm.Storage.AddressSet.Members.{address_set, is_member-add, is_member-remove}
use arb_revm.Storage.AddressTable.RoundTrip.{lookup-register}
use arb_revm.Storage.AddressTable.Registration

-- A queue with the one entry 41.
abbrev queue_state : Memory
queue_state =
    with_words (λ a k. if k == 256 then 3 else if k == 257 then 2 else if k == 258 then 41 else 0)

queue_state-IsQueue : IsQueue toy toy-Lawful list_space queue_state
queue_state-IsQueue = record {
  past_pointers = rw (slot_of_list 1 (omega arith)) (omega arith);
  in_order = rw (slot_of_list 0 (omega arith), slot_of_list 1 (omega arith)) (omega arith);
  in_u64 = rw (slot_of_list 0 (omega arith)) (omega arith);
}

abbrev calls : List Call
calls = put 42 ∷ get ∷ get ∷ get ∷ []

run_refines_example :
    (run toy (open_queue toy list_space) calls queue_state).0
    ≡ ok (list_run (contents toy toy-Lawful list_space queue_state) calls)
run_refines_example =
    run_refines toy toy-Lawful list_space (list_apart (2 ^ 64) (omega arith)) calls queue_state
      queue_state-IsQueue (rw (slot_of_list 0 (omega arith)) (omega arith))

-- The next L1 block is 5.
abbrev ring_state : Memory
ring_state = with_words (λ a k. if k == 256 then 5 else k)

block_hash-record_new_l1_block_example :
    (block_hash toy
      (open_block_hashes toy list_space)
      6
      (record_new_l1_block toy (open_block_hashes toy list_space) 8 99 11 ring_state).1).0
    ≡ ok (
        if 6 == 8
        then 99
        else if ltb
            (Ring.word_at toy toy-Lawful list_space (list_apart 257 (omega arith)) ring_state 0)
            6
        then fill_hash toy 11 99 6
        else Ring.word_at toy toy-Lawful list_space
            (list_apart 257 (omega arith))
            ring_state
            (ring_index 6))
block_hash-record_new_l1_block_example =
    block_hash-record_new_l1_block toy toy-Lawful list_space (list_apart 257 (omega arith)) 11 99 8
      6 ring_state (rw (slot_of_list 0 (omega arith)) (omega arith)) (omega arith) (omega arith)
      (omega arith)

-- An empty address table.
abbrev empty_state : Memory
empty_state = with_words (λ a k. 0)

lookup-register_example :
    let s' = (register toy (Registration.table toy toy-Lawful 7 [] (0 ∷ [])) 5 empty_state).1 in
    ((register toy (Registration.table toy toy-Lawful 7 [] (0 ∷ [])) 5 empty_state).0 ≡ ok 0)
    × ((lookup toy (Registration.table toy toy-Lawful 7 [] (0 ∷ [])) 5 s').0 ≡ ok (some 0))
    × ((lookup_index toy (Registration.table toy toy-Lawful 7 [] (0 ∷ [])) 0 s').0 ≡ ok (some 5))
lookup-register_example =
    lookup-register toy toy-Lawful 7 [] (0 ∷ []) (list_apart (2 ^ 64) (omega arith))
      (map_apart (2 ^ 160) (omega arith)) disjoint 5 empty_state (omega arith) (omega arith) refl

abbrev a_slot : StorageSlot
a_slot = record { account = 7; slot = 1 }

get_i256-set_example :
    (((set_checked toy a_slot (negsuc 4) >> get_i256 toy a_slot) empty_state).0 ≡ ok (negsuc 4))
    × (((set_saturating_with_warning toy a_slot (negsuc 4) >> get_i256 toy a_slot) empty_state).0
        ≡ ok (negsuc 4))
get_i256-set_example =
    get_i256-set toy toy-Lawful a_slot empty_state (negsuc 4) (omega arith, omega arith)

get_i64-set_i64_example :
    ((set_i64 toy a_slot (negsuc 4) >> get_i64 toy a_slot) empty_state).0 ≡ ok (negsuc 4)
get_i64-set_i64_example =
    get_i64-set_i64 toy toy-Lawful a_slot empty_state (negsuc 4) (omega arith, omega arith)

twos_complement_of_word_example :
    i256_to_u256_twos_complement (u256_twos_complement_to_i256 (2 ^ 256 - 3)) ≡ 2 ^ 256 - 3
twos_complement_of_word_example = twos_complement_of_word (2 ^ 256 - 3) (omega arith)

-- A ticket that times out at 1000 with two windows left.
abbrev ticket_slots : ℕ → StorageSlot
ticket_slots i = record { account = 7; slot = i }

abbrev ticket : RetryableRecord
ticket = record {
  id = 1;
  storage = list_space;
  num_tries = ticket_slots 0;
  from = ticket_slots 1;
  to_raw = ticket_slots 2;
  callvalue = ticket_slots 3;
  beneficiary = ticket_slots 4;
  timeout = ticket_slots 5;
  timeout_windows_left = ticket_slots 6;
  calldata = map_space;
}

abbrev ticket_state : Memory
ticket_state = with_words (λ a k. if k == 5 then 1000 else if k == 6 then 2 else 0)

timeout_with_windows-use_window_example :
    ((use_window toy ticket 1000 2 >> timeout_with_windows toy ticket) ticket_state).0
    ≡ (timeout_with_windows toy ticket ticket_state).0
timeout_with_windows-use_window_example =
    timeout_with_windows-use_window toy toy-Lawful ticket ticket_state refl (omega arith)
      (omega arith)

-- Every word is 1000.
abbrev full_state : Memory
full_state = with_words (λ a k. 1000)

get-set_fresh_example :
    ((set_fresh toy list_space (1 ∷ 2 ∷ 255 ∷ []) >> Bytes.get toy list_space) ticket_state).0
    ≡ ok (1 ∷ 2 ∷ 255 ∷ [])
unfolding AreBytes
get-set_fresh_example =
    get-set_fresh toy toy-Lawful list_space (list_apart (2 ^ 64) (omega arith)) (1 ∷ 2 ∷ 255 ∷ [])
      ticket_state (omega arith, (omega arith, (omega arith, tt))) (omega arith)

is_member-add_example :
    ((add toy (address_set toy toy-Lawful 7 [] (0 ∷ [])) 5
        >> is_member toy (address_set toy toy-Lawful 7 [] (0 ∷ [])) 5)
      empty_state).0
    ≡ ok true
is_member-add_example =
    is_member-add toy toy-Lawful 7 [] (0 ∷ []) disjoint 5 empty_state (omega arith) (omega arith)

-- Every address at position 1000 of 1000.
is_member-remove_example :
    ((remove toy (address_set toy toy-Lawful 7 [] (0 ∷ [])) 5
        >> is_member toy (address_set toy toy-Lawful 7 [] (0 ∷ [])) 5)
      full_state).0
    ≡ ok false
is_member-remove_example =
    is_member-remove toy toy-Lawful 7 [] (0 ∷ []) disjoint 5 full_state (omega arith) (omega arith)
