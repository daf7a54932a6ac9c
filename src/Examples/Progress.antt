-- ===== src/Examples/Progress.antt =====
-- Fetches that start, at concrete inputs.
use bdev_ubi.Channel.{State}
use bdev_ubi.Poll.Busy.{Busy}
use bdev_ubi.Poll.Turn.{Turn}
use bdev_ubi.Examples.{test_channel, fresh, three_waiting}

-- Three stripes wait for a fetch.
abbrev three_asked : State
three_asked = record fresh { ch = record test_channel { stripe_fetch_queue = three_waiting } }
