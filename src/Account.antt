-- ===== src/Account.antt =====
-- How often a request is completed: the requests that arrive at a channel, those that it has in its
-- queue, the callbacks that are to come for them, and the calls of spdk_bdev_io_complete.
pub mod Balance
pub mod Once
use bdev_ubi.Prelude.{
  ℕ, ◌+◌, ◌-◌, ◌≤◌, ◌≡◌, Bool, Option, none, some, List, [], ◌∷◌, is_nonzero, ◌==◌, if◌then◌else◌,
}
use bdev_ubi.Channel.{
  BdevIo, UbiBdevIo, Call, prep_readv, read_base, write_base, flush_data, flush_metadata,
  write_metadata, get_buf, io_complete, Env, State,
}
use bdev_ubi.Poll.{IoOp, Cqe, Batch, entries, peek_error, stripe_fetch_op, bdev_io_op}
use bdev_ubi.System.{
  Step, submitted, polled, buf_got, stripe_written, io_done, data_flushed, metadata_written,
  metadata_flushed, elsewhere,
}

-- Whether a request is the one with a number, as 0 or 1.
abbrev pub is_it : ℕ → BdevIo → ℕ
is_it r io = if io.id == r then 1 else 0

abbrev pub queued : ℕ → List BdevIo → ℕ
queued r [] = 0
queued r (io ∷ ios) = is_it r io + queued r ios

-- Whether a call promises a callback for a request: it has been accepted; a buffer is not there at once.
abbrev pub promises : Env → ℕ → List Call → Call → ℕ
promises env r before (prep_readv u offset) = is_it r u.bdev_io
promises env r before (read_base u start n) =
    if is_nonzero (env.ret before (read_base u start n)) then 0 else is_it r u.bdev_io
promises env r before (write_base u start n) =
    if is_nonzero (env.ret before (write_base u start n)) then 0 else is_it r u.bdev_io
promises env r before (flush_data u start n) =
    if is_nonzero (env.ret before (flush_data u start n)) then 0 else is_it r u.bdev_io
promises env r before (flush_metadata u start n) =
    if is_nonzero (env.ret before (flush_metadata u start n)) then 0 else is_it r u.bdev_io
promises env r before (write_metadata u m n) =
    if is_nonzero (env.ret before (write_metadata u m n)) then 0 else is_it r u.bdev_io
promises env r before (get_buf u len) = elim (env.buf_now before u) [
  | none ↦ is_it r u.bdev_io
  | some success ↦ 0
]
promises env r before _ = 0

abbrev pub ends : ℕ → Call → ℕ
ends r (io_complete io success) = is_it r io
ends r _ = 0

-- A write that the base bdev refuses is not heard of again.
abbrev pub drops : Env → ℕ → List Call → Call → ℕ
drops env r before (write_base u start n) =
    if is_nonzero (env.ret before (write_base u start n)) then is_it r u.bdev_io else 0
drops env r before _ = 0

-- The callbacks that some calls promise for a request, how often they complete it, and how often they
-- drop it.
abbrev pub promised : Env → ℕ → List Call → ℕ
promised env r [] = 0
promised env r (c ∷ calls) = promises env r calls c + promised env r calls

abbrev pub ended : ℕ → List Call → ℕ
ended r [] = 0
ended r (c ∷ calls) = ends r c + ended r calls

abbrev pub dropped : Env → ℕ → List Call → ℕ
dropped env r [] = 0
dropped env r (c ∷ calls) = drops env r calls c + dropped env r calls

-- The callbacks that a completion queue entry stands for.
abbrev pub op_answers : ℕ → IoOp → ℕ
op_answers r (stripe_fetch_op slot) = 0
op_answers r (bdev_io_op u) = is_it r u.bdev_io

abbrev pub cqes_answer : ℕ → List Cqe → ℕ
cqes_answer r [] = 0
cqes_answer r (c ∷ cs) = op_answers r c.op + cqes_answer r cs

abbrev pub batch_answers : ℕ → Batch → ℕ
batch_answers r (entries cs) = cqes_answer r cs
batch_answers r (peek_error eagain) = 0

-- How many callbacks for a request a step runs, and how often the request arrives with it.
abbrev pub answers : ℕ → {s t : State} → Step s t → ℕ
answers r (polled env batch) = batch_answers r batch
answers r (buf_got env u success) = is_it r u.bdev_io
answers r (io_done u success) = is_it r u.bdev_io
answers r (data_flushed env u success) = is_it r u.bdev_io
answers r (metadata_written env u success) = is_it r u.bdev_io
answers r (metadata_flushed u success) = is_it r u.bdev_io
answers r _ = 0

abbrev pub arrives : ℕ → {s t : State} → Step s t → ℕ
arrives r (submitted io supported) = is_it r io
arrives r _ = 0

-- A flush request whose data flush fails is not heard of again.
abbrev pub gives_up : ℕ → {s t : State} → Step s t → ℕ
gives_up r (data_flushed env u success) = if success then 0 else is_it r u.bdev_io
gives_up r _ = 0

-- The libraries answer in a step as `env` says.
abbrev pub Uses : Env → {s t : State} → Step s t → Type 0
Uses env (polled env' batch) = env' ≡ env
Uses env (buf_got env' u success) = env' ≡ env
Uses env (data_flushed env' u success) = env' ≡ env
Uses env (metadata_written env' u success) = env' ≡ env
Uses env _ = Unit

-- A channel, and for each request how many callbacks are to come for it, how often it has been
-- completed, how often it has been lost, and how often it has arrived. The calls are those of a step.
pub record Account : Type 0 where
  pub state : State
  pub pending : ℕ → ℕ
  pub completed : ℕ → ℕ
  pub lost : ℕ → ℕ
  pub arrived : ℕ → ℕ

-- The account of a channel on which nothing has arrived.
abbrev pub open_account : State → Account
open_account s = record {
  state = s;
  pending = λ r. 0;
  completed = λ r. 0;
  lost = λ r. 0;
  arrived = λ r. 0;
}

abbrev pub quiet : State → State
quiet s = record s { calls = [] }

abbrev pub book : Env → {s t : State} → Step s t → Account → Account
book env {s} {t} st a = record {
  state = t;
  pending = λ r. a.pending r - answers r st + promised env r t.calls;
  completed = λ r. a.completed r + ended r t.calls;
  lost = λ r. a.lost r + dropped env r t.calls + gives_up r st;
  arrived = λ r. a.arrived r + arrives r st;
}

-- A step in which no callback runs that is not to come.
pub data AccountStep (a : Account) : Account → Type 0 where
  step :
      (env : Env) {t : State} (st : Step (quiet a.state) t)
      → Uses env st
      → ((r : ℕ) → answers r st ≤ a.pending r)
      → AccountStep a (book env st a)

pub data AccountReach (a : Account) : Account → Type 0 where
  start : AccountReach a a
  later : {b c : Account} → AccountReach a b → AccountStep b c → AccountReach a c
