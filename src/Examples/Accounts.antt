-- ===== src/Examples/Accounts.antt =====
-- The requests of a channel: the theorem at a concrete run.
use bdev_ubi.Prelude.{◌+◌, ◌≡◌, refl, [], arith}
use bdev_ubi.Poll.{entries}
use bdev_ubi.System.{submitted, polled}
use bdev_ubi.Account.{queued, Account, open_account, book, step, AccountReach, quiet, start, later}
use bdev_ubi.Account.Once.{AccountReach-once}
use bdev_ubi.Examples.{fresh, write_io, willing, write_supported}
use bdev_ubi.Examples.Contents.{read_0, read_supported}

-- A write arrives and the poller runs; a read arrives, and the poller runs again.
abbrev write_booked : Account
write_booked = book willing {s = fresh} (submitted write_io write_supported) (open_account fresh)

abbrev first_poll : Account
first_poll = book willing {s = quiet write_booked.state} (polled willing (entries [])) write_booked

abbrev read_booked : Account
read_booked = book willing {s = quiet first_poll.state} (submitted read_0 read_supported) first_poll

abbrev second_poll : Account
second_poll = book willing {s = quiet read_booked.state} (polled willing (entries [])) read_booked

account_run : AccountReach (open_account fresh) second_poll
account_run =
    later
      (later
        (later
          (later start (step willing (submitted write_io write_supported) tt (λ r. omega arith)))
          (step willing (polled willing (entries [])) refl (λ r. omega arith)))
        (step willing (submitted read_0 read_supported) tt (λ r. omega arith)))
      (step willing (polled willing (entries [])) refl (λ r. omega arith))

AccountReach-once_example :
    queued 6 second_poll.state.ch.io
      + second_poll.pending 6
      + second_poll.completed 6
      + second_poll.lost 6
    ≡ second_poll.arrived 6
AccountReach-once_example = AccountReach-once refl account_run 6
