-- ===== src/Resources.antt =====
-- What the creation of a bdev and of a channel acquires and gives back, in order. The resources are
-- those that src/lib/bdev_ubi.c and src/lib/bdev_ubi_io_channel.c name.
use bdev_ubi.Prelude.{ℕ, Bool, true, false, ◌&&◌, not, List, [], ◌∷◌, ◌==◌, if◌then◌else◌}

pub data Resource : Type 0 where
  -- of a bdev: its memory, its name, the context of its creation, the descriptor of the base bdev and
  -- the claim on it, the registrations as io_device and as bdev
  memory name context desc claim io_device registration : Resource
  -- of a channel, but for the second also of the creation of a bdev
  poller base_channel image_file ring : Resource

pub data Act : Type 0 where
  acquire release : Resource → Act

abbrev pub number : Resource → ℕ
number memory = 0
number name = 1
number context = 2
number desc = 3
number claim = 4
number io_device = 5
number registration = 6
number poller = 7
number base_channel = 8
number image_file = 9
number ring = 10

-- Whether a resource is held after some acts, which stand newest first.
abbrev pub holds : Resource → List Act → Bool
holds r [] = false
holds r (acquire r' ∷ acts) = if number r == number r' then true else holds r acts
holds r (release r' ∷ acts) = if number r == number r' then false else holds r acts

-- Nothing is acquired that is held, and nothing released that is not.
abbrev pub legal : List Act → Bool
legal [] = true
legal (acquire r ∷ acts) = not (holds r acts) && legal acts
legal (release r ∷ acts) = holds r acts && legal acts
