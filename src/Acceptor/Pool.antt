-- ===== src/Acceptor/Pool.antt =====
-- src/acceptor.rs: the configuration, the slots and the errors of the pool, and its searches.
use fix_engine.Base.{
  Bool, Bytes, List, Option, [], codes, false, if◌then◌else◌, none, some, suc, true, zero, ℕ, ◌+◌,
  ◌∷◌,
}
use fix_engine.Session.{Session, from_secs}

pub record AcceptorConfig : Type 0 where
  pub bind_address : Bytes
  pub port : ℕ
  pub max_connections : ℕ
  pub connection_pool_size : ℕ
  pub accept_timeout_ms : ℕ
  pub allowed_comp_ids : List Bytes
  pub require_auth : Bool
  pub default_heartbeat_interval : ℕ
  pub default_fix_version : Bytes

abbrev pub default_config : AcceptorConfig
default_config = record {
  bind_address = codes "0.0.0.0";
  port = 9_878;
  max_connections = 1_024;
  connection_pool_size = 256;
  accept_timeout_ms = 5_000;
  allowed_comp_ids = [];
  require_auth = false;
  default_heartbeat_interval = from_secs 30;
  default_fix_version = codes "FIX.4.4";
}

pub data ConnectionState : Type 0 where
  available in_use draining closed : ConnectionState

pub record PooledConnection : Type 0 where
  pub id : ℕ
  pub state : ConnectionState
  pub session : Option Session
  pub remote_comp_id : Bytes
  pub remote_address : Bytes
  pub connected_at_ms : ℕ
  pub last_active_ms : ℕ
  pub bytes_received : ℕ
  pub bytes_sent : ℕ

pub data AcceptorError : Type 0 where
  pool_exhausted : AcceptorError
  comp_id_not_allowed already_connected : Bytes → AcceptorError
  connection_not_found : ℕ → AcceptorError
  auth_required : AcceptorError

pub record AcceptorStats : Type 0 where
  pub active_connections : ℕ
  pub pool_available : ℕ
  pub total_accepted : ℕ
  pub total_rejected : ℕ
  pub total_bytes_received : ℕ
  pub total_bytes_sent : ℕ

-- A slot that holds no connection.
abbrev pub empty_slot : ℕ → PooledConnection
empty_slot id = record {
  id = id;
  state = available;
  session = none;
  remote_comp_id = [];
  remote_address = [];
  connected_at_ms = 0;
  last_active_ms = 0;
  bytes_received = 0;
  bytes_sent = 0;
}

-- `for i in from..from + n`.
unfoldable pub empty_slots : ℕ → ℕ → List PooledConnection
empty_slots from zero = []
empty_slots from (suc n) = empty_slot from ∷ empty_slots (from + 1) n

abbrev pub is_available : ConnectionState → Bool
is_available available = true
is_available _ = false

abbrev pub is_in_use : ConnectionState → Bool
is_in_use in_use = true
is_in_use _ = false

-- In use or draining.
abbrev pub is_active : ConnectionState → Bool
is_active in_use = true
is_active draining = true
is_active _ = false

abbrev pub Slots : Type 0
Slots = List PooledConnection

-- `.iter().find(p)`.
unfoldable pub find : (PooledConnection → Bool) → Slots → Option PooledConnection
find p [] = none
find p (c ∷ cs) = let later = find p cs in if p c then some c else later

-- Change the first slot that passes the test, as through `.iter_mut().find(p)`.
unfoldable pub update_first :
    (PooledConnection → Bool) → (PooledConnection → PooledConnection) → Slots → Slots
update_first p f [] = []
update_first p f (c ∷ cs) = let later = update_first p f cs in if p c then f c ∷ cs else c ∷ later

unfoldable pub count : (PooledConnection → Bool) → Slots → ℕ
count p [] = 0
count p (c ∷ cs) = let later = count p cs in if p c then later + 1 else later
