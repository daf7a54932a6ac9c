-- ===== src/Create.antt =====
-- src/lib/bdev_ubi.c: the creation of a bdev, from bdev_ubi_create to ubi_finish_create, and its end
-- in ubi_destruct.
pub mod Finish
pub mod Stages
pub mod Balance
pub mod Placed
use Prim.Native.String.{String}
use bdev_ubi.Prelude.{
  ℕ, ◌+◌, ◌-◌, ◌%◌, ◌^◌, Bool, true, false, ℤ, pos, is_nonzero, Option, none, some, List, [], ◌∷◌,
  if◌then◌else◌,
}
use bdev_ubi.Errno.{ok, err, eio, enomem, einval}
use bdev_ubi.Layout.{Layout, Request, init_layout_params}
use bdev_ubi.Metadata.{Metadata}
use bdev_ubi.Bdev.{UbiBdev, not_fetched}
use bdev_ubi.Load.{ubi_finish_read_metadata}
use bdev_ubi.Resources.{
  Act, acquire, release, memory, name, context, desc, claim, io_device, registration, base_channel,
}

-- struct spdk_ubi_bdev_opts. The null pointer is `none`.
pub record Opts : Type 0 where
  pub name : Option String
  pub image_path : Option String
  pub base_bdev_name : Option String
  pub stripe_size_kb : ℕ
  pub no_sync : Bool
  pub copy_on_read : Bool
  pub directio : Bool

-- What the calls of SPDK and of the C library answer; a switch of the test control that makes one
-- fail counts as its answer. `strdup` fails without a name, too.
pub record Answers : Type 0 where
  pub calloc : Bool
  pub strdup : Bool
  pub open_base : ℤ
  pub claim_base : ℤ
  pub base_blocklen : ℕ
  pub base_blockcnt : ℕ
  pub stat : Option ℕ
  pub get_io_channel : Bool
  pub read_blocks : ℤ
  pub register : ℤ

-- `struct ubi_create_context` and what of the bdev decides its end: whether it has a name and a
-- descriptor of the base bdev. `done` is the status that done_fn was called with.
pub record Creation : Type 0 where
  pub bdev : Option UbiBdev
  pub named : Bool
  pub opened : Bool
  pub registered_io_device : Bool
  pub acts : List Act
  pub done : Option ℤ

abbrev pub did : Act → Creation → Creation
did a c = record c { acts = a ∷ c.acts }

-- The memory from calloc.
abbrev pub zeroed : UbiBdev
zeroed = record {
  blocklen = 0;
  blockcnt = 0;
  stripe_size_kb = 0;
  stripe_block_count = 0;
  stripe_shift = 0;
  data_offset_blocks = 0;
  image_block_count = 0;
  alignment_bytes = 0;
  no_sync = false;
  copy_on_read = false;
  directio = false;
  stripe_status = λ i. not_fetched;
  metadata = record {
    magic = 0 ∷ 0 ∷ 0 ∷ 0 ∷ 0 ∷ 0 ∷ 0 ∷ 0 ∷ 0 ∷ [];
    version_major = (0, 0);
    version_minor = (0, 0);
    stripe_size_kb = 0;
    stripe_headers = λ i. (0, 0);
  };
  stripes_fetched = 0;
  stripes_flushed = 0;
}

-- What ubi_init_layout_params reads.
abbrev pub request_of : Answers → Opts → Request
request_of a o = record {
  blocklen = a.base_blocklen;
  blockcnt = a.base_blockcnt;
  stripe_size_kb = o.stripe_size_kb;
  stat = a.stat;
}

-- What bdev_ubi_create writes into the bdev once it has its layout.
unfoldable pub configured : Answers → Opts → Layout → UbiBdev
configured a o l = record zeroed {
  blocklen = a.base_blocklen;
  blockcnt = (a.base_blockcnt + 2 ^ 64 - l.data_offset_blocks) % 2 ^ 64;
  stripe_size_kb = o.stripe_size_kb;
  stripe_block_count = l.stripe_block_count;
  stripe_shift = l.stripe_shift;
  data_offset_blocks = l.data_offset_blocks;
  image_block_count = l.image_block_count;
  alignment_bytes = 4096;
  no_sync = o.no_sync;
  copy_on_read = o.copy_on_read;
  directio = o.directio;
}

-- What ubi_finish_create gives back on a failure.
pub clean_up : Creation → Creation
clean_up c =
    let c1 = if c.opened then did (release desc) (did (release claim) c) else c in
    let c2 = if c.registered_io_device then did (release io_device) c1 else c1 in
    let c3 = if c.named then did (release name) c2 else c2 in
    elim c.bdev [ none ↦ c | some b ↦ did (release memory) c3 ]

pub ubi_finish_create : Answers → ℤ → Creation → Creation
unfolding clean_up
ubi_finish_create a status c =
    let status' = if is_nonzero status then status else a.register in
    let c1 = if is_nonzero status' then clean_up c else did (acquire registration) c in
    record c1 { acts = release context ∷ c1.acts; done = some status' }

pub configure_base_bdev : Answers → Creation → ℤ × Creation
configure_base_bdev a c =
    let opened = did (acquire desc) c in
    if is_nonzero a.open_base
    then (a.open_base, c)
    else if is_nonzero a.claim_base
    then (a.claim_base, did (release desc) opened)
    else (pos 0, record (did (acquire claim) opened) { opened = true })

pub ubi_start_read_metadata : Answers → Creation → Creation
unfolding ubi_finish_create
ubi_start_read_metadata a c =
    let c1 = did (acquire base_channel) c in
    if a.get_io_channel
    then (if is_nonzero a.read_blocks then ubi_finish_create a a.read_blocks c1 else c1)
    else ubi_finish_create a enomem c

-- bdev_ubi_create from the call of ubi_init_layout_params on.
pub lay_out : Answers → Opts → Creation → Creation
unfolding ubi_finish_create ubi_start_read_metadata
lay_out a o c = elim (init_layout_params (request_of a o)) [
  | err rc ↦ ubi_finish_create a rc c
  | ok l ↦ ubi_start_read_metadata a (record (did (acquire io_device) c) {
    bdev = some (configured a o l);
    registered_io_device = true;
  })
]

pub bdev_ubi_create : Answers → Option Opts → Creation → Creation
unfolding ubi_finish_create configure_base_bdev lay_out
bdev_ubi_create a none c = ubi_finish_create a einval c
bdev_ubi_create a (some o) c =
    let c1 = record (did (acquire memory) c) { bdev = some zeroed } in
    let c2 = record (did (acquire name) c1) { named = true } in
    let (rc, c3) = configure_base_bdev a c2 in
    if a.calloc
    then (if a.strdup
        then (if is_nonzero rc then ubi_finish_create a rc c3 else lay_out a o c3)
        else ubi_finish_create a enomem c1)
    else ubi_finish_create a enomem c

-- The callback of the read of the metadata, which has left `m` in the bdev.
pub finish_read_metadata : Answers → Bool → Metadata → Creation → Creation
unfolding ubi_finish_create
finish_read_metadata a success m c = elim c.bdev [
  | none ↦ c
  | some b ↦
      let (status, b') = ubi_finish_read_metadata success (record b { metadata = m }) in
      ubi_finish_create a status (record (did (release base_channel) c) { bdev = some b' })
]

-- The context comes from the caller.
abbrev pub asked : Creation
asked = record {
  bdev = none;
  named = false;
  opened = false;
  registered_io_device = false;
  acts = acquire context ∷ [];
  done = none;
}

-- A creation to its end: the callback runs if the read was started.
unfoldable pub create : Answers → Option Opts → Bool → Metadata → Creation
unfolding bdev_ubi_create finish_read_metadata
create a opts success m =
    let c = bdev_ubi_create a opts asked in
    elim c.done [ some status ↦ c | none ↦ finish_read_metadata a success m c ]

-- ubi_destruct with _device_unregister_cb and ubi_close_base_bdev, which SPDK calls once the bdev is
-- unregistered.
pub ubi_destruct : List Act → List Act
ubi_destruct acts =
    release memory
    ∷ release name
    ∷ release io_device
    ∷ release desc
    ∷ release claim
    ∷ release registration
    ∷ acts
