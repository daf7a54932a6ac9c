-- ===== src/Data/Cluster/Plain.antt =====
-- A bdev from the time on at which its channels are opened.
use bdev_ubi.Prelude.{ℕ, ◌≡◌, ◌≢◌, refl, sym, subst, false, [], All, arith}
use bdev_ubi.Bdev.{UbiBdev, inflight, ubi_get_stripe_status}
use bdev_ubi.Channel.{IoChannel}
use bdev_ubi.Open.Balance.{Idle}
use bdev_ubi.System.Fresh.{Idle-Exclusive}
use bdev_ubi.Data.{Outside, shown}
use bdev_ubi.Data.Sim.{SplitIo, Right, Sized}
use bdev_ubi.Data.Cluster.{Cluster, shared, DataReach, Shows}
use bdev_ubi.Data.Cluster.Served.{DataReach-Shows}

-- The plain device starts with the blocks that the bdev shows at the start.
abbrev pub opened : {V : Type 0} → Outside V → UbiBdev → (ℕ → IoChannel) → (ℕ → V) → Cluster V
opened x b channels base = record {
  bdev = b;
  channels = channels;
  base = base;
  plain = shown x b base;
  loaded = λ k m. 0;
  written = λ k m. false;
  reads = [];
}

module _ {V : Type 0} (x : Outside V) (n : ℕ) (b : UbiBdev) (channels : ℕ → IoChannel)
    (base : ℕ → V) (z : Sized n x.blocklen b)
    (settled : (i : ℕ) → ubi_get_stripe_status b i ≢ inflight)
    (idle : (k : ℕ) → Idle (channels k)) where
  pub opened-Shows : Shows x n (opened x b channels base)
  opened-Shows = record {
    exclusive =
        Idle-Exclusive n (shared (opened x b channels base)) (omega (arith, z.whole)) settled idle;
    sized = z;
    queues = λ k. subst (All (SplitIo b)) (sym (idle k).no_requests) tt;
    loading = λ k m small active. absurd (ground (arith, (idle k).free m small, active));
    copied = λ k m small active done j e. absurd (ground (arith, done));
    shows = λ j. refl;
    reads = tt;
  }

  opened-reach : {d : Cluster V} → DataReach x (opened x b channels base) d → Shows x n d
  opened-reach r = DataReach-Shows x n opened-Shows r

-- For a bdev laid out as ubi_init_layout_params does it, over an image of whole stripes, at most
-- 32767 of them, that does not change and whose reads are full, with no stripe being fetched and
-- with all channels as ubi_create_channel_cb leaves them: whatever steps the channels take, as
-- long as io_uring_submit does not fail, each end of a read or write of a stripe is reported for a
-- slot in use, the write of a stripe that is reported has been carried out, and reads and writes
-- do not cross the end of a stripe, with blocks and bytes numbered in 64 bits: in the state
-- reached the bdev shows in every block what a plain device would show on which the same writes of
-- clients have been carried out, and each read, of any channel, was given in every block what that
-- device held when the read was made.
pub DataReach-plain :
    {V : Type 0} (x : Outside V) (n : ℕ) (b : UbiBdev) (channels : ℕ → IoChannel) (base : ℕ → V)
    → Sized n x.blocklen b
    → ((i : ℕ) → ubi_get_stripe_status b i ≢ inflight)
    → ((k : ℕ) → Idle (channels k))
    → {d : Cluster V} → DataReach x (opened x b channels base) d
    → ((j : ℕ) → shown x d.bdev d.base j ≡ d.plain j) × All Right d.reads
DataReach-plain x n b channels base z settled idle r =
    let q = opened-reach x n b channels base z settled idle r in (q.shows, q.reads)
