-- ===== src/Engine/Context.antt =====
-- src/engine.rs: what the context lets a callback do.
use fix_engine.Base.{Bool, Bytes, List, [], false, if◌then◌else◌, true, ℕ, ◌++◌, ◌+◌, ◌∷◌}
use fix_engine.Engine.{EngineContext}
use fix_engine.Session.{next_outbound_seq_num, on_logout_sent, on_message_sent}

-- `send_raw`, of a message that is serialized already.
unfoldable pub send_raw :
    (List Bytes → Bytes → Bool) → (ℕ → ℕ) → EngineContext → Bytes → EngineContext × Bool
unfolding on_message_sent next_outbound_seq_num
send_raw accepts clock ctx bytes =
    if accepts ctx.sent bytes
    then (
      record {
        session = (next_outbound_seq_num (on_message_sent ctx.session (clock ctx.reads))).0;
        sent = ctx.sent ++ (bytes ∷ []);
        reads = ctx.reads + 1;
      },
      true,
    )
    else (ctx, false)

-- `next_seq_num`, without a step.
unfoldable pub next_seq_num : EngineContext → ℕ
next_seq_num ctx = ctx.session.outbound_seq_num

unfoldable pub request_stop : EngineContext → EngineContext
unfolding on_logout_sent
request_stop ctx = record ctx { session = on_logout_sent ctx.session }
