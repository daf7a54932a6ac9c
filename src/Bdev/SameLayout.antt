-- ===== src/Bdev/SameLayout.antt =====
-- Two bdevs that are laid out alike on their base bdevs.
use bdev_ubi.Prelude.{◌≡◌, refl, sym, ◌∙◌}
use bdev_ubi.Bdev.{UbiBdev}
use bdev_ubi.Bdev.Kept.{Kept}

pub record SameLayout (b b' : UbiBdev) : Type 0 where
  pub blocklen : b'.blocklen ≡ b.blocklen
  pub size : b'.stripe_size_kb ≡ b.stripe_size_kb
  pub shift : b'.stripe_shift ≡ b.stripe_shift
  pub offset : b'.data_offset_blocks ≡ b.data_offset_blocks
  pub image : b'.image_block_count ≡ b.image_block_count

pub SameLayout-refl : (b : UbiBdev) → SameLayout b b
SameLayout-refl b = record {
  blocklen = refl;
  size = refl;
  shift = refl;
  offset = refl;
  image = refl;
}

pub SameLayout-back : {b b' : UbiBdev} → SameLayout b b' → SameLayout b' b
SameLayout-back h = record {
  blocklen = sym h.blocklen;
  size = sym h.size;
  shift = sym h.shift;
  offset = sym h.offset;
  image = sym h.image;
}

pub SameLayout-trans : {b c d : UbiBdev} → SameLayout b c → SameLayout c d → SameLayout b d
SameLayout-trans h k = record {
  blocklen = k.blocklen ∙ h.blocklen;
  size = k.size ∙ h.size;
  shift = k.shift ∙ h.shift;
  offset = k.offset ∙ h.offset;
  image = k.image ∙ h.image;
}

pub Kept-SameLayout : {b b' : UbiBdev} → Kept b b' → SameLayout b b'
Kept-SameLayout k = record {
  blocklen = k.blocklen;
  size = k.size;
  shift = k.shift;
  offset = k.offset;
  image = k.image;
}
