-- ===== src/Account/Once.antt =====
-- Each request that arrives is completed once, or has been lost.
use bdev_ubi.Prelude.{ℕ, ◌+◌, ◌≡◌, subst, ap, [], arith, if◌then◌else◌}
use bdev_ubi.Channel.{Env, State}
use bdev_ubi.System.{
  Step, submitted, polled, buf_got, stripe_written, io_done, data_flushed, metadata_written,
  metadata_flushed, elsewhere,
}
use bdev_ubi.Account.{
  batch_answers, is_it, queued, answers, arrives, gives_up, open_account, Uses, Account,
  AccountStep, step, AccountReach, start, later,
}
use bdev_ubi.Account.Balance.{
  known, get_buf-known, data_flushed-known, metadata_written-known, metadata_flushed-known,
  io_done-known, submit-known, ubi_io_poll-known, stripe_written-known,
}

Step-known :
    (env : Env) (r : ℕ) {s t : State} (st : Step s t)
    → Uses env st
    → known env r t + gives_up r st ≡ known env r s + answers r st + arrives r st
Step-known env r {s} (submitted io supported) uses = omega (arith, submit-known env r io s)
Step-known env r {s} {t} (polled env' batch) uses =
    subst (λ v. known v r t + 0 ≡ known v r s + batch_answers r batch + 0) uses
      (omega (arith, ubi_io_poll-known env' r batch s))
Step-known env r {s} {t} (buf_got env' u success) uses =
    subst (λ v. known v r t + 0 ≡ known v r s + is_it r u.bdev_io + 0) uses
      (omega (arith, get_buf-known env' r u success s))
Step-known env r {s} (stripe_written slot success) uses =
    omega (arith, stripe_written-known env r slot success s)
Step-known env r {s} (io_done u success) uses = omega (arith, io_done-known env r u success s)
Step-known env r {s} {t} (data_flushed env' u success) uses =
    subst
      (λ v.
        known v r t + (if success then 0 else is_it r u.bdev_io)
        ≡ known v r s + is_it r u.bdev_io + 0)
      uses (omega (arith, data_flushed-known env' r u success s))
Step-known env r {s} {t} (metadata_written env' u success) uses =
    subst (λ v. known v r t + 0 ≡ known v r s + is_it r u.bdev_io + 0) uses
      (omega (arith, metadata_written-known env' r u success s))
Step-known env r {s} (metadata_flushed u success) uses =
    omega (arith, metadata_flushed-known env r u success s)
Step-known env r {s} (elsewhere b k) uses = omega arith

-- Where a request is, and what has become of it.
abbrev accounted : Account → ℕ → ℕ
accounted a r = queued r a.state.ch.io + a.pending r + a.completed r + a.lost r

AccountStep-eq :
    {a b : Account}
    → AccountStep a b
    → (r : ℕ) → accounted a r ≡ a.arrived r
    → accounted b r ≡ b.arrived r
AccountStep-eq {a} (step env st uses due) r h = omega (arith, h, due r, Step-known env r st uses)

-- From a time on at which a channel has no requests in its queue, whatever steps are taken, as long as
-- no callback for a request runs that no call has promised, or more often than promised: for each
-- request, its places in the queue, the callbacks that are to come for it, the calls of
-- spdk_bdev_io_complete for it and the times it has been lost are together the times it has arrived. It
-- is lost only by a write that the base bdev refuses, and by a data flush that fails. So a request that
-- has arrived once is completed at most once, and not while it waits or a callback for it is to come; and
-- it is completed once neither holds any more, unless it has been lost.
pub AccountReach-once :
    {s : State} {b : Account}
    → s.ch.io ≡ []
    → AccountReach (open_account s) b
    → (r : ℕ) → queued r b.state.ch.io + b.pending r + b.completed r + b.lost r ≡ b.arrived r
AccountReach-once empty start r = omega (arith, ap (queued r) empty)
AccountReach-once empty (later path st) r = AccountStep-eq st r (AccountReach-once empty path r)
