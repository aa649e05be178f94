-- ===== src/Acceptor/Tests.antt =====
-- Runs of src/acceptor.rs on a small pool.
use fix_engine.Base.{bytes_eq, codes, err, false, ok, refl, some, true, ◌%◌, ◌+◌, ◌^◌, ◌≡◌}
use fix_engine.Acceptor.{
  get_session_mut, get_connection_mut, get_session, get_connection, Acceptor, new, active_count,
  already_connected, find_by_comp_id, accept_connection, evict_idle, release_connection,
}
use fix_engine.Acceptor.Pool.{AcceptorConfig, default_config}
use fix_engine.Acceptor.Accept.{accept_connection-opens}
use fix_engine.Acceptor.Unique.{Unique, here, next, accepted, released, evicted, Reach-Unique}

abbrev two_slots : AcceptorConfig
two_slots = record default_config { connection_pool_size = 2 }

abbrev one_open : Acceptor
one_open = (accept_connection (new two_slots) (codes "10.0.0.1") (codes "BUY") 5 6).0

-- A change reaches the session of the slot with the number, and no other.
changed_session_only :
    ((get_session_mut one_open 2 (λ s. record s { inbound_seq_num = 9 })).1 ≡ true)
    × ((get_session_mut one_open 1 (λ s. s)).1 ≡ false)
    × ((get_connection_mut one_open 7 (λ c. c)).1 ≡ false)
unfolding get_session_mut get_connection_mut get_session accept_connection new get_connection
changed_session_only = (refl, refl, refl)

Reach-Unique_example : Unique (evict_idle (release_connection one_open 2).0 100 900).0.connections
Reach-Unique_example = Reach-Unique two_slots (
    next
      (next (next here (accepted (new two_slots) (codes "10.0.0.1") (codes "BUY") 5 6))
        (released one_open 2))
      (evicted (release_connection one_open 2).0 100 900))

sell_accepted :
    (accept_connection one_open (codes "10.0.0.2") (codes "SELL") 7 8).1 ≡ ok one_open.next_conn_id
unfolding accept_connection new bytes_eq
sell_accepted = refl

accept_connection-opens_example :
    let b = (accept_connection one_open (codes "10.0.0.2") (codes "SELL") 7 8).0 in
    (find_by_comp_id b (codes "SELL") ≡ some one_open.next_conn_id)
    × (active_count b ≡ active_count one_open + 1)
    × (find_by_comp_id b (codes "BUY") ≡ find_by_comp_id one_open (codes "BUY"))
    × (b.next_conn_id ≡ (one_open.next_conn_id + 1) % 2 ^ 64)
    × ((accept_connection b (codes "10.0.0.3") (codes "SELL") 9 10).1
        ≡ err (already_connected (codes "SELL")))
unfolding bytes_eq
accept_connection-opens_example =
    accept_connection-opens one_open (codes "10.0.0.2") (codes "SELL") (codes "10.0.0.3")
      (codes "BUY") 7 8 9 10 sell_accepted refl
