-- ===== src/Links.antt =====
-- src/lib.rs: `Link`, the queue between two nodes, as the supervisor holds it: `LinkKind`,
-- `make_output`, `make_input`, `close` and `abort`. A standard link keeps its sender until it is closed. A feeder
-- is outside the repository: what is here is which of its two calls were made, and whether it still
-- gives out handles is a parameter.
use accumulator.Common.{Bool, true, false, if◌then◌else◌, Run, returns, panics}

pub data LinkKind : Type 0 where
  standard : (sender : Bool) → LinkKind
  feeder : (shut_down cancelled : Bool) → LinkKind

-- A `LinkSender` or a `LinkReceiver`, by its kind.
pub data LinkHandle : Type 0 where
  standard_handle : LinkHandle
  feeder_handle : LinkHandle

unfoldable pub make_output : (feeder_gives : Bool) → LinkKind → Run LinkHandle
make_output feeder_gives (standard true) = returns standard_handle
make_output feeder_gives (standard false) = panics
make_output feeder_gives (feeder shut_down cancelled) =
    if feeder_gives then returns feeder_handle else panics

unfoldable pub make_input : (feeder_gives : Bool) → LinkKind → Run LinkHandle
make_input feeder_gives (standard sender) = returns standard_handle
make_input feeder_gives (feeder shut_down cancelled) =
    if feeder_gives then returns feeder_handle else panics

unfoldable pub close : LinkKind → LinkKind
close (standard sender) = standard false
close (feeder shut_down cancelled) = feeder true cancelled

unfoldable pub abort_link : LinkKind → LinkKind
abort_link (standard sender) = standard false
abort_link (feeder shut_down cancelled) = feeder shut_down true
