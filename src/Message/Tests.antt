-- ===== src/Message/Tests.antt =====
-- Runs of src/message.rs on concrete bytes.
use fix_engine.Base.{}
