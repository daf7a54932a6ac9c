-- ===== src/Examples/Opening.antt =====
-- The creation of a channel at concrete answers.
use bdev_ubi.Prelude.{◌≡◌, refl, true, pos, negsuc, []}
use bdev_ubi.Channel.{IoChannel}
use bdev_ubi.Resources.{legal}
use bdev_ubi.Open.{Opening, ubi_create_channel_cb, ubi_destroy_channel_cb}
use bdev_ubi.Open.Balance.{Released, Settled, create_channel-Settled, destroy_channel-Released}

abbrev new_channel : IoChannel
new_channel = record {
  blocks_read = 0;
  blocks_written = 0;
  stripes_fetched = 0;
  active_reads = 0;
  stripe_fetches = λ i. record { active = true; stripe_idx = 7; buf_aligned = 0 };
  stripe_fetch_queue = record { entries = λ i. 0; head = 3; tail = 9 };
  has_reads = 0;
  io = [];
}

-- The image file is not found.
abbrev no_image : Opening
no_image = record {
  register_poller = true;
  get_io_channel = true;
  open_image = negsuc 0;
  queue_init = pos 0;
}

abbrev opens : Opening
opens = record no_image { open_image = pos 5 }

create_channel-Settled_example :
    Settled
      (ubi_create_channel_cb no_image new_channel).0
      (ubi_create_channel_cb no_image new_channel).1
      (ubi_create_channel_cb no_image new_channel).2
create_channel-Settled_example = create_channel-Settled no_image new_channel

opened : (ubi_create_channel_cb opens new_channel).0 ≡ pos 0
unfolding ubi_create_channel_cb
opened = refl

destroy_channel-Released_example :
    (legal (ubi_destroy_channel_cb (ubi_create_channel_cb opens new_channel).2) ≡ true)
    × Released (ubi_destroy_channel_cb (ubi_create_channel_cb opens new_channel).2)
destroy_channel-Released_example = destroy_channel-Released opens new_channel opened
