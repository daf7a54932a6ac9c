-- ===== src/Examples/Lifecycle.antt =====
-- The creation of a bdev, and the removal of a base bdev, at concrete answers.
use bdev_ubi.Prelude.{
  [], ◌∷◌, List, none, ◌≢◌, ◌⊎◌, All, ◌≤◌, ◌≡◌, refl, true, false, pos, some, arith,
}
use bdev_ubi.Errno.{ok, enomem}
use bdev_ubi.Layout.{Layout, layout_of, init_layout_params}
use bdev_ubi.Layout.Accept.{InRange}
use bdev_ubi.Metadata.{Metadata, ubi_new_disk}
use bdev_ubi.Fetch.Bounds.{Placed}
use bdev_ubi.Resources.{holds, legal, base_channel}
use bdev_ubi.Create.{Opts, Answers, zeroed, request_of, configured, create, ubi_destruct}
use bdev_ubi.Create.Finish.{Settled, GivenBack}
use bdev_ubi.Create.Balance.{create-Settled, destruct-GivenBack}
use bdev_ubi.Create.Placed.{configured-Placed}
use bdev_ubi.Removal.{Entry, remove_event, other_event, ubi_handle_base_bdev_event}
use bdev_ubi.Removal.Owner.{Owner, handle_event-Owner}
use bdev_ubi.Load.{ubi_finish_read_metadata}

-- A base bdev of 20 MiB, an image of 4 MiB and 100 bytes, and no failure.
abbrev pub all_well : Answers
all_well = record {
  calloc = true;
  strdup = true;
  open_base = pos 0;
  claim_base = pos 0;
  base_blocklen = 512;
  base_blockcnt = 40960;
  stat = some 4194404;
  get_io_channel = true;
  read_blocks = pos 0;
  register = pos 0;
}

abbrev pub options : Opts
options = record {
  name = some "ubi0";
  image_path = some "/images/disk.raw";
  base_bdev_name = some "malloc0";
  stripe_size_kb = 256;
  no_sync = false;
  copy_on_read = true;
  directio = true;
}

abbrev pub blank : Metadata
blank = zeroed.metadata

created : (create all_well (some options) true blank).done ≡ some (pos 0)
unfolding create ubi_finish_read_metadata ubi_new_disk init_layout_params
created = refl

create-Settled_example : Settled all_well (create all_well (some options) true blank)
create-Settled_example = create-Settled all_well (some options) true blank

destruct-GivenBack_example :
    (legal (ubi_destruct (create all_well (some options) true blank).acts) ≡ true)
    × GivenBack (record (create all_well (some options) true blank) {
      acts = ubi_destruct (create all_well (some options) true blank).acts;
    })
    × (holds base_channel (ubi_destruct (create all_well (some options) true blank).acts) ≡ false)
destruct-GivenBack_example =
    destruct-GivenBack all_well (some options) true blank (pos 0) created refl

options-InRange : InRange (request_of all_well options) 4194404
options-InRange = record { device = omega arith; image = omega arith }

options_accepted :
    init_layout_params (request_of all_well options)
    ≡ ok (layout_of (request_of all_well options) 4194404)
unfolding init_layout_params
options_accepted = refl

abbrev pub chosen : Layout
chosen = layout_of (request_of all_well options) 4194404

configured-Placed_example :
    Placed (configured all_well options chosen)
    × ((configured all_well options chosen).image_block_count
        ≤ (configured all_well options chosen).blockcnt)
configured-Placed_example =
    configured-Placed all_well options 4194404 chosen options-InRange (omega arith) refl
      options_accepted

-- The read of the metadata is refused: the channel of the base bdev is never put back.
abbrev refused : Answers
refused = record all_well { read_blocks = enomem }

channel_lost :
    (holds base_channel (create refused (some options) true blank).acts ≡ true)
    × ((create refused (some options) true blank).done ≡ some enomem)
unfolding create init_layout_params
channel_lost = (refl, refl)

abbrev two_bdevs : List Entry
two_bdevs = record { ubi_bdev = 10; base_bdev = 1 } ∷ record { ubi_bdev = 20; base_bdev = 2 } ∷ []

handle_event-Owner_example :
    (((e : Entry) × Owner two_bdevs 2 e
        × (ubi_handle_base_bdev_event two_bdevs remove_event 2 ≡ some e.ubi_bdev))
      ⊎ (All (λ f. f.base_bdev ≢ 2) two_bdevs
          × (ubi_handle_base_bdev_event two_bdevs remove_event 2 ≡ none)))
    × (ubi_handle_base_bdev_event two_bdevs other_event 2 ≡ none)
handle_event-Owner_example = handle_event-Owner two_bdevs 2
