-- ===== src/Eth/Events.antt =====
-- The events of main/network/eth_network.c and the bits that other tasks wait for.
use esp32_deskflow.Prelude.{◌≡◌, arith, true, false, ◌&&◌, List, [], ◌∷◌, ◌++◌}
use esp32_deskflow.Eth.{EthState, Bits, Event, disconnected, eth_event_handler}

-- The handlers run one after the other.
unfoldable pub run : List Event → EthState → Bits → EthState × Bits
unfolding eth_event_handler
run [] st bits = (st, bits)
run (e ∷ events) st bits = let after = eth_event_handler e st bits in run events after.0 after.1

-- The bits agree with the state.
pub record IsLinked (st : EthState) (bits : Bits) : Type 0 where
  pub bound : st.bound ≡ true
  pub up : bits.link_up ≡ st.link_up
  pub apart : (bits.link_up && bits.link_down) ≡ false
  pub ip : bits.has_ip ≡ st.has_ip

event-IsLinked :
    (e : Event) (st : EthState) (bits : Bits)
    → IsLinked st bits
    → IsLinked (eth_event_handler e st bits).0 (eth_event_handler e st bits).1
unfolding eth_event_handler
event-IsLinked e st bits w = ground arith

-- After any events the link bit says what the state says, the two link bits are never set together, and
-- the address bit says what the state says.
pub run-IsLinked :
    (events : List Event) (st : EthState) (bits : Bits)
    → IsLinked st bits
    → IsLinked (run events st bits).0 (run events st bits).1
unfolding run
run-IsLinked [] st bits w = w
run-IsLinked (e ∷ events) st bits w =
    let after = eth_event_handler e st bits in
    run-IsLinked events after.0 after.1 (event-IsLinked e st bits w)

address_stays :
    (e : Event) (st : EthState) (bits : Bits)
    → bits.has_ip ≡ true
    → (eth_event_handler e st bits).1.has_ip ≡ true
unfolding eth_event_handler
address_stays e st bits has = ground arith

stays_bound :
    (e : Event) (st : EthState) (bits : Bits)
    → st.bound ≡ true
    → (eth_event_handler e st bits).0.bound ≡ true
unfolding eth_event_handler
stays_bound e st bits set_up = ground arith

-- Once the address bit is set, no event clears it: when the link has gone down at the end, a task that
-- waits for an address still goes on at once.
pub address_outlives_link :
    (events : List Event) (st : EthState) (bits : Bits)
    → st.bound ≡ true
    → bits.has_ip ≡ true
    → ((run (events ++ disconnected ∷ []) st bits).0.link_up ≡ false)
      × ((run (events ++ disconnected ∷ []) st bits).1.has_ip ≡ true)
unfolding run eth_event_handler
address_outlives_link [] st bits set_up has = (ground arith, ground arith)
address_outlives_link (e ∷ events) st bits set_up has =
    let after = eth_event_handler e st bits in
    address_outlives_link events after.0 after.1 (stays_bound e st bits set_up)
      (address_stays e st bits has)
