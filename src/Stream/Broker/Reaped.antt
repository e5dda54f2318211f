-- ===== src/Stream/Broker/Reaped.antt =====
-- What becomes of the processes of a broker. `ZMQ_BrokerProcess`, src/digitaltwin/streaming.py.
use digital_twin_framework.Prelude.{◌+◌, List, [], ◌∷◌, is_some, if◌then◌else◌, ◌≡◌}
use digital_twin_framework.Stream.Broker.{Broker, Resistance, System, stop, start, crash}

pub data Call : Type 0 where
  starting : System → Call
  stopping : Resistance → Call
  crashing : Call

unfoldable pub call : Call → Broker → Broker
call (starting w) b = (start w b).1
call (stopping r) b = (stop r b).1
call crashing b = crash b

unfoldable pub calls : List Call → Broker → Broker
unfolding call
calls [] b = b
calls (x ∷ xs) b = calls xs (call x b)

-- Each process that was spawned was reaped, but for those that nothing could end and the one that the
-- broker holds. If there were none of the former, there are addresses exactly if it holds one.
pub record IsReaped (b : Broker) : Type 0 where
  pub counted : b.spawned ≡ b.reaped + b.left + (if is_some b.proc then 1 else 0)
  pub addressed : b.left ≡ 0 → is_some b.addrs ≡ is_some b.proc
