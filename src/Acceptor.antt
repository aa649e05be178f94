-- ===== src/Acceptor.antt =====
-- src/acceptor.rs: the acceptor's pool of connection slots. Times of connections are counts of
-- milliseconds; `now` is the clock reading of the new session.
pub mod Pool
pub mod Unique
pub mod Accept
pub mod Tests
use fix_engine.Base.{
  Bool, Bytes, List, Option, Result, [], bytes_eq, codes, err, false, if◌then◌else◌, ltb, none, not,
  ok, some, true, ℕ, ◌%◌, ◌&&◌, ◌++◌, ◌+◌, ◌-◌, ◌==◌, ◌^◌, ◌||◌, ◌∷◌,
}
use fix_engine.Acceptor.Pool.{
  AcceptorConfig, PooledConnection, AcceptorError, AcceptorStats, empty_slot, empty_slots,
  is_available, is_in_use, is_active, Slots, find, update_first, count, in_use, draining,
  pool_exhausted, comp_id_not_allowed, already_connected, connection_not_found, auth_required,
}
use fix_engine.Decimal.{decimal}
use mathlib.Core.Option
use fix_engine.Session
use fix_engine.Session.{Session, SessionConfig, from_secs, acceptor, daily}

pub record Acceptor : Type 0 where
  pub config : AcceptorConfig
  pub connections : List PooledConnection
  pub next_conn_id : ℕ
  pub total_accepted : ℕ
  pub total_rejected : ℕ

unfoldable pub new : AcceptorConfig → Acceptor
unfolding empty_slots
new config = record {
  config = config;
  connections = empty_slots 0 config.connection_pool_size;
  next_conn_id = config.connection_pool_size;
  total_accepted = 0;
  total_rejected = 0;
}

unfoldable pub contains : Bytes → List Bytes → Bool
contains id [] = false
contains id (x ∷ xs) = bytes_eq x id || contains id xs

abbrev is_empty : List Bytes → Bool
is_empty [] = true
is_empty (_ ∷ _) = false

unfoldable pub is_comp_id_allowed : Acceptor → Bytes → Bool
unfolding contains
is_comp_id_allowed a comp_id =
    if is_empty a.config.allowed_comp_ids then true else contains comp_id a.config.allowed_comp_ids

abbrev pub serves : Bytes → PooledConnection → Bool
serves comp_id c = is_active c.state && bytes_eq c.remote_comp_id comp_id

abbrev pub id_of : Option PooledConnection → Option ℕ
id_of none = none
id_of (some c) = some c.id

unfoldable pub find_by_comp_id : Acceptor → Bytes → Option ℕ
unfolding find
find_by_comp_id a comp_id = id_of (find (serves comp_id) a.connections)

session_config : AcceptorConfig → ℕ → Bytes → SessionConfig
session_config config conn_id comp_id = record {
  session_id = codes "ACC-" ++ decimal conn_id;
  fix_version = config.default_fix_version;
  sender_comp_id = codes "VELOCITAS";
  target_comp_id = comp_id;
  role = acceptor;
  heartbeat_interval = config.default_heartbeat_interval;
  reconnect_interval = from_secs 0;
  max_reconnect_attempts = 0;
  sequence_reset_policy = daily;
  validate_comp_ids = true;
  max_msg_rate = 50_000;
}

-- What a slot becomes for a new connection.
unfoldable pub opened :
    AcceptorConfig → ℕ → Bytes → Bytes → ℕ → ℕ → PooledConnection → PooledConnection
unfolding session_config
opened config conn_id remote_addr comp_id current_time_ms now c = record {
  id = conn_id;
  state = in_use;
  session = some (Session.new (session_config config conn_id comp_id) now);
  remote_comp_id = comp_id;
  remote_address = remote_addr;
  connected_at_ms = current_time_ms;
  last_active_ms = current_time_ms;
  bytes_received = 0;
  bytes_sent = 0;
}

abbrev pub rejected : Acceptor → AcceptorError → Acceptor × Result ℕ AcceptorError
rejected a e = (record a { total_rejected = (a.total_rejected + 1) % 2 ^ 64 }, err e)

abbrev pub is_some {ℓ} : {A : Type ℓ} → Option A → Bool
is_some none = false
is_some (some _) = true

abbrev pub slot_free : PooledConnection → Bool
slot_free c = is_available c.state

unfoldable pub accept_connection :
    Acceptor → Bytes → Bytes → ℕ → ℕ → Acceptor × Result ℕ AcceptorError
unfolding is_comp_id_allowed find_by_comp_id find update_first opened
accept_connection a remote_addr comp_id current_time_ms now =
    if a.config.require_auth
    then rejected a auth_required
    else if not (is_comp_id_allowed a comp_id)
    then rejected a (comp_id_not_allowed comp_id)
    else if is_some (find_by_comp_id a comp_id)
    then rejected a (already_connected comp_id)
    else if not (is_some (find slot_free a.connections))
    then rejected a pool_exhausted
    else (
      record a {
        next_conn_id = (a.next_conn_id + 1) % 2 ^ 64;
        connections =
            update_first slot_free
              (opened a.config a.next_conn_id remote_addr comp_id current_time_ms now)
              a.connections;
        total_accepted = (a.total_accepted + 1) % 2 ^ 64;
      },
      ok a.next_conn_id,
    )

abbrev pub cleared : PooledConnection → PooledConnection
cleared c = empty_slot c.id

abbrev pub holds : ℕ → PooledConnection → Bool
holds conn_id c = (c.id == conn_id) && not (is_available c.state)

unfoldable pub release_connection : Acceptor → ℕ → Acceptor × Result (Unit {0}) AcceptorError
unfolding find update_first
release_connection a conn_id =
    if is_some (find (holds conn_id) a.connections)
    then (record a { connections = update_first (holds conn_id) cleared a.connections }, ok tt)
    else (a, err (connection_not_found conn_id))

unfoldable pub get_connection : Acceptor → ℕ → Option PooledConnection
unfolding find
get_connection a conn_id = find (λ c. c.id == conn_id) a.connections

abbrev session_of : Option PooledConnection → Option Session
session_of none = none
session_of (some c) = c.session

unfoldable pub get_session : Acceptor → ℕ → Option Session
unfolding get_connection
get_session a conn_id = session_of (get_connection a conn_id)

-- The slot is changed as the caller likes; the answer is whether there is one.
unfoldable pub get_connection_mut :
    Acceptor → ℕ → (PooledConnection → PooledConnection) → Acceptor × Bool
unfolding find update_first
get_connection_mut a conn_id change = (
  record a { connections = update_first (λ c. c.id == conn_id) change a.connections },
  is_some (find (λ c. c.id == conn_id) a.connections),
)

abbrev pub changed_session : (Session → Session) → PooledConnection → PooledConnection
changed_session change c = record c { session = Option.map change c.session }

-- The session of the slot is changed, where it has one.
unfoldable pub get_session_mut : Acceptor → ℕ → (Session → Session) → Acceptor × Bool
unfolding get_connection_mut get_session
get_session_mut a conn_id change =
    ((get_connection_mut a conn_id (changed_session change)).0, is_some (get_session a conn_id))

-- `match ... { Some(c) if c.state == InUse => ... }`, on the first slot with the id.
unfoldable pub drains : PooledConnection → PooledConnection
drains c = record c { state = if is_in_use c.state then draining else c.state }

abbrev in_use_at : Option PooledConnection → Bool
in_use_at none = false
in_use_at (some c) = is_in_use c.state

unfoldable pub drain_connection : Acceptor → ℕ → Acceptor × Result (Unit {0}) AcceptorError
unfolding find update_first drains
drain_connection a conn_id =
    if in_use_at (find (λ c. c.id == conn_id) a.connections)
    then (
      record a { connections = update_first (λ c. c.id == conn_id) drains a.connections },
      ok tt,
    )
    else (a, err (connection_not_found conn_id))

unfoldable pub active_count : Acceptor → ℕ
unfolding count
active_count a = count (λ c. is_active c.state) a.connections

abbrev pub idle : ℕ → ℕ → PooledConnection → Bool
idle max_idle_ms current_time_ms c =
    is_in_use c.state && ltb max_idle_ms (current_time_ms - c.last_active_ms)

unfoldable pub evict_slots : (PooledConnection → Bool) → Slots → Slots
evict_slots p [] = []
evict_slots p (c ∷ cs) = (if p c then cleared c else c) ∷ evict_slots p cs

unfoldable pub evict_idle : Acceptor → ℕ → ℕ → Acceptor × ℕ
unfolding evict_slots count
evict_idle a max_idle_ms current_time_ms = (
  record a { connections = evict_slots (idle max_idle_ms current_time_ms) a.connections },
  count (idle max_idle_ms current_time_ms) a.connections,
)

unfoldable pub total : (PooledConnection → ℕ) → Slots → ℕ
total f [] = 0
total f (c ∷ cs) = (f c + total f cs) % 2 ^ 64

unfoldable pub stats : Acceptor → AcceptorStats
unfolding active_count count total
stats a = record {
  active_connections = active_count a;
  pool_available = count slot_free a.connections;
  total_accepted = a.total_accepted;
  total_rejected = a.total_rejected;
  total_bytes_received = total (λ c. c.bytes_received) a.connections;
  total_bytes_sent = total (λ c. c.bytes_sent) a.connections;
}
