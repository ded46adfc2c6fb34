-- ===== src/Tests/Events.antt =====
-- The event loop with a degenbot of two pools and a codec for four texts.
use Prim.Native.Nat.{suc}
use cream_bots.Prelude.{
  ℕ, String, String_discrete, Option, none, some, List, [], ◌∷◌, ◌≡◌, refl, Result, ok, raise,
  value_error, manager_error, assertion_error, key_error, external_update_error, if◌then◌else◌,
  holds, ◌==◌,
}
use cream_bots.Prelude.Int.{pos, negsuc}
use cream_bots.Prelude.Dict.{get}
use cream_bots.Prelude.Exec.{Exec}
use cream_bots.Events.{
  EventLog, Message, Codec, PoolStore, State, ExternalUpdate, liquidity_change, price_change,
}
use cream_bots.Events.Decoding.{Header}
use cream_bots.Events.Updates.{
  process_sync_event, process_swap_event, process_burn_event, process_mint_event,
}
use cream_bots.Events.Listening.{process_uniswap_events}
use cream_bots.Events.Registered.{process_uniswap_events-IsRegistered}
use cream_bots.Events.Queued.{Queued, process_uniswap_events-Queued}
use cream_bots.Events.Stalled.{process_uniswap_events_stalls}
use cream_bots.Events.Burned.{process_burn_event_puts, process_mint_event_puts}
use cream_bots.Events.Synced.{process_sync_event_puts, process_swap_event_puts}

-- A manager knows one pool, named by its own text; the store counts the calls that changed it.
-- Empty reserves and a price of zero are refused.
abbrev count : Exec ℕ (Unit {0})
count n = (suc n, ok tt)

abbrev update : String → ExternalUpdate → Exec ℕ (Unit {0})
update helper (liquidity_change _ _ _ _) n = (suc n, ok tt)
update helper (price_change _ _ _ price) n =
    if price == 0 then (n, raise external_update_error) else (suc n, ok tt)

abbrev two_pools : PoolStore
two_pools = record {
  Store = ℕ;
  Manager = String;
  Helper = String;
  helper_address = λ h. h;
  get_pool = λ m a _ n. if holds (String_discrete m a) then (n, ok a) else (n, raise manager_error);
  delitem = λ m a n. if holds (String_discrete m a) then (suc n, ok tt) else (n, raise key_error);
  v2_manager = λ a n. (suc n, ok a);
  v3_manager = λ a n. (suc n, ok a);
  external_update = update;
  update_reserves =
      λ h r0 r1 _ n. if r0 == 0 then (n, raise external_update_error) else (suc n, ok tt);
  update_snapshot = λ _ _. count;
}

abbrev event : String → String → EventLog
event address signature = record {
  address = some address;
  block_number = some "0x07";
  event_data = some "0x";
  topics = some (signature ∷ []);
}

abbrev sync_event : EventLog
sync_event = event "pool b" "Sync(uint112,uint112)"

abbrev swap_event : EventLog
swap_event = event "pool a" "Swap(address,address,int256,int256,uint160,uint128,int24)"

abbrev created_event : EventLog
created_event = event "factory a" "PairCreated(address,address,address,uint256)"

abbrev load : String → Result EventLog
load text =
    if holds (String_discrete text "sync")
    then ok sync_event
    else if holds (String_discrete text "swap")
    then ok swap_event
    else if holds (String_discrete text "created")
    then ok created_event
    else raise value_error

abbrev texts : Codec
texts = record {
  to_checksum_address = ok;
  int_16 = λ _. ok (pos 7);
  loads = load;
  keccak = λ s. s;
  decode_int24 = λ _. ok (pos 1);
  decode_burn = λ _. ok 5;
  decode_mint = λ _. ok 5;
  decode_sync = λ _. ok (30, 40);
  decode_swap = λ _. ok (0, 9, pos 2);
  decode_pair_created = λ _. ok "pool c";
  decode_pool_created = λ _. ok "pool c";
}

abbrev channel : String → Message
channel text = record { type_name = "message"; first_block = none; event_data = some text }

abbrev messages : List Message
messages = channel "created" ∷ channel "no json" ∷ channel "sync" ∷ channel "swap" ∷ []

abbrev running : Option String → State two_pools
running first = record {
  store = 0;
  pool_managers = ("factory a", "pool a") ∷ ("factory b", "pool b") ∷ [];
  puts = "pool z" ∷ [];
  first_event = first;
}

-- The Sync event is put, the Swap event is refused, the text that is no JSON is passed over.
puts_test :
    (process_uniswap_events texts two_pools messages (running (some "0x01"))).puts
    ≡ "pool z" ∷ "pool b" ∷ []
unfolding process_uniswap_events String_discrete
puts_test = refl

process_uniswap_events-IsRegistered_example :
    get String_discrete "factory a"
      (process_uniswap_events texts two_pools messages (running (some "0x01"))).pool_managers
    ≡ some "pool a"
unfolding get String_discrete
process_uniswap_events-IsRegistered_example =
    process_uniswap_events-IsRegistered two_pools texts "factory a" "pool a" messages
      (running (some "0x01")) refl

process_uniswap_events-Queued_example :
    Queued texts two_pools messages
      ("pool z" ∷ [])
      (process_uniswap_events texts two_pools messages (running (some "0x01")))
process_uniswap_events-Queued_example =
    process_uniswap_events-Queued texts two_pools messages (running (some "0x01"))

process_uniswap_events_stalls_example :
    process_uniswap_events texts two_pools messages (running none) ≡ running none
process_uniswap_events_stalls_example =
    process_uniswap_events_stalls texts two_pools messages (running none) refl
      (refl, (refl, (refl, (refl, tt))))

abbrev sync_fields : Header
sync_fields = record { event_address = "pool b"; event_block = pos 7; event_data = "0x" }

abbrev swap_fields : Header
swap_fields = record { event_address = "pool a"; event_block = pos 7; event_data = "0x" }

process_sync_event_puts_example :
    ((process_sync_event two_pools texts sync_event (running none)).0.puts
      ≡ "pool z" ∷ "pool b" ∷ [])
    × ((process_sync_event two_pools texts sync_event (running none)).1 ≡ ok tt)
unfolding process_sync_event String_discrete
process_sync_event_puts_example =
    process_sync_event_puts two_pools texts sync_event (running none) (running none) sync_fields
      (30, 40) "pool b" refl refl refl

process_swap_event_puts_example :
    ((process_swap_event two_pools texts swap_event (running none)).0.puts ≡ "pool z" ∷ [])
    × ((process_swap_event two_pools texts swap_event (running none)).1 ≡ ok tt)
unfolding process_swap_event String_discrete
process_swap_event_puts_example =
    process_swap_event_puts two_pools texts swap_event (running none) (running none) swap_fields 0 9
      (pos 2) "pool a" refl refl refl

-- Burn and Mint events have four topics; the pool "pool b" refuses a Burn by a failed assertion.
abbrev change_event : String → EventLog
change_event address = record {
  address = some address;
  block_number = some "0x07";
  event_data = some "0x";
  topics = some ("signature" ∷ "owner" ∷ "0x01" ∷ "0x01" ∷ []);
}

abbrev change : String → ExternalUpdate → Exec ℕ (Unit {0})
change helper (liquidity_change _ (negsuc _) _ _) n =
    if holds (String_discrete helper "pool b") then (n, raise assertion_error) else (suc n, ok tt)
change helper (liquidity_change _ (pos _) _ _) n = (suc n, ok tt)
change helper (price_change _ _ _ _) n = (suc n, ok tt)

abbrev strict_pools : PoolStore
strict_pools = record two_pools { external_update = change }

abbrev watching : State strict_pools
watching = record {
  store = 0;
  pool_managers = ("factory a", "pool a") ∷ ("factory b", "pool b") ∷ [];
  puts = "pool z" ∷ [];
  first_event = some "0x01";
}

process_burn_event_puts_example :
    (process_burn_event strict_pools texts (change_event "pool b") watching).0.puts ≡ "pool z" ∷ []
unfolding process_burn_event String_discrete
process_burn_event_puts_example =
    process_burn_event_puts strict_pools texts (change_event "pool b") watching watching sync_fields
      "pool b" 5 (pos 1) (pos 1) refl refl refl

process_mint_event_puts_test :
    (process_mint_event strict_pools texts (change_event "pool a") watching).0.puts
    ≡ "pool z" ∷ "pool a" ∷ []
unfolding process_mint_event String_discrete
process_mint_event_puts_test =
    process_mint_event_puts strict_pools texts (change_event "pool a") watching watching swap_fields
      "pool a" 5 (pos 1) (pos 1) refl refl refl

-- After the failed assertion the pool has left its manager: the call changed the store.
removed_test : (process_burn_event strict_pools texts (change_event "pool b") watching).0.store ≡ 1
unfolding process_burn_event String_discrete
removed_test = refl
