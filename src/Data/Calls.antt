-- ===== src/Data/Calls.antt =====
-- A call that is right keeps the bdev showing what a plain device shows.
use bdev_ubi.Prelude.{
  ℕ, ◌+◌, ◌-◌, ◌*◌, ◌/◌, ◌%◌, ◌^◌, ◌<◌, ◌≤◌, ◌≡◌, ◌≢◌, ap, sym, subst, ◌∙◌, ap₂, Bool, true, false,
  ◌&&◌, not, ltb, if◌then◌else◌, arith, two_pow_pos,
}
use native.Mathlib.Nat.{mul-div_cancel}
use bdev_ubi.Metadata.{Metadata}
use bdev_ubi.Bdev.{UbiBdev, inflight, fetched, ubi_get_stripe_status}
use bdev_ubi.Channel.{
  BdevIo, UbiBdevIo, StripeFetch, prep_readv, read_base, write_base, write_metadata,
}
use bdev_ubi.ReadWrite.{is_fetched}
use bdev_ubi.Request.{stripe_of}
use bdev_ubi.Poll.Serve.{OnBase}
use bdev_ubi.Data.{overwrite, World, Outside, in_range, effect, request}
use bdev_ubi.Data.Sim.{Split, Sized, Busy, Away, Proper, Sim}

div_lt : (j m n : ℕ) → 0 < m → j / m < n → j < n * m
div_lt j m n pos h = grind arith

lt_div : (j m n : ℕ) → 0 < m → j < n * m → j / m < n
lt_div j m n pos h = grind arith

module _ (n blocklen : ℕ) (b : UbiBdev) (z : Sized n blocklen b) where
  -- The blocks of the image are those of its stripes.
  pub in_image : (j : ℕ) → stripe_of b j < n → j < b.image_block_count
  unfolding stripe_of
  in_image j h =
      subst (λ t. j < t) (sym z.whole)
        (div_lt j (2 ^ b.stripe_shift) n (two_pow_pos b.stripe_shift) h)

  pub stripe_in_image : (j : ℕ) → j < b.image_block_count → stripe_of b j < n
  unfolding stripe_of
  stripe_in_image j h =
      lt_div j (2 ^ b.stripe_shift) n (two_pow_pos b.stripe_shift) (subst (λ t. j < t) z.whole h)

-- Whether a block is shown from the image.
abbrev pub from_image : UbiBdev → ℕ → Bool
from_image b j =
    ltb j b.image_block_count && not (is_fetched (ubi_get_stripe_status b (stripe_of b j)))

module _ (n blocklen : ℕ) (b : UbiBdev) (z : Sized n blocklen b) (io : BdevIo)
    (p : Split b io) where
  -- A request on the base bdev: none of its blocks is shown from the image.
  not_from_image :
      (j : ℕ)
      → OnBase b io
      → io.offset_blocks ≤ j
      → j < io.offset_blocks + io.num_blocks
      → from_image b j ≡ false
  not_from_image j on low high = ground (arith, p.one_stripe j low high)

  -- It touches no stripe that is being fetched.
  apart :
      (j i : ℕ)
      → OnBase b io
      → ubi_get_stripe_status b i ≡ inflight
      → i < n
      → stripe_of b j ≡ i
      → in_range io.offset_blocks io.num_blocks j ≡ false
  apart j i on busy inside e =
      let mine = in_image n blocklen b z j in ground (arith, p.one_stripe j, mine)

  -- A read of the image: all its blocks are shown from the image.
  all_from_image :
      (j : ℕ)
      → io.offset_blocks < b.image_block_count
      → ubi_get_stripe_status b (stripe_of b io.offset_blocks) ≢ fetched
      → io.offset_blocks ≤ j
      → j < io.offset_blocks + io.num_blocks
      → from_image b j ≡ true
  all_from_image j inside fresh low high =
      let first = stripe_in_image n blocklen b z io.offset_blocks inside in
      ground (arith, p.one_stripe j low high, in_image n blocklen b z j, first)

-- A run of blocks that is moved by a distance.
overwrite-shift :
    {V : Type 0} (x : Outside V) (first distance count : ℕ) (new old : ℕ → V) (j : ℕ)
    → overwrite x (first + distance) count new old (j + distance)
      ≡ (if in_range first count j then new (j - first) else old (j + distance))
overwrite-shift x first distance count new old j =
    let back : j + distance - (first + distance) ≡ j - first = omega arith in
    ground (arith, ap new back)

module _ {V : Type 0} (x : Outside V) (n : ℕ) (b : UbiBdev) (slots : ℕ → StripeFetch)
    (z : Sized n x.blocklen b) (busy : Busy n b slots) (foreign : ℕ → Type 0)
    (away : Away n b foreign) (w : World V) (sim : Sim x b slots foreign w) where
  start_block :
      (u : UbiBdevIo) (start : ℕ)
      → start ≡ (u.bdev_io.offset_blocks + b.data_offset_blocks) % 2 ^ 64
      → Split b u.bdev_io
      → start ≡ u.bdev_io.offset_blocks + b.data_offset_blocks
  start_block u start at split = omega (arith, at, split.blocks)

  -- The client's write to blocks that are on the base bdev.
  pub write_base-Sim :
      (u : UbiBdevIo) (start count : ℕ)
      → Proper n b slots (write_base u start count)
      → Sim x b slots foreign (effect x (write_base u start count) w)
  write_base-Sim u start count (on, at, len, split) =
      let after = λ (j : ℕ).
        ap₂ (λ (s c : ℕ). overwrite x s c (x.payload u) w.base (j + b.data_offset_blocks))
          (start_block u start at split) len
        ∙ overwrite-shift x u.bdev_io.offset_blocks b.data_offset_blocks u.bdev_io.num_blocks
            (x.payload u) w.base j in
      record {
        loading = sim.loading;
        copied = λ k small active done j e.
            let (inflight_k, inside) = busy k small active in
            let far =
              apart n x.blocklen b z u.bdev_io split j (slots k).stripe_idx on inflight_k inside
                e in
            ground (arith, after j, far, sim.copied k small active done j e);
        spared = λ i out j e.
            let (inflight_i, inside) = away i out in
            let far = apart n x.blocklen b z u.bdev_io split j i on inflight_i inside e in
            ground (arith, after j, far, sim.spared i out j e);
        shows = λ j.
            ground
              (arith, after j, sim.shows j, not_from_image n x.blocklen b z u.bdev_io split j on);
        reads = sim.reads;
      }

  pub write_metadata-Sim :
      (u : UbiBdevIo) (m : Metadata) (count : ℕ)
      → Proper n b slots (write_metadata u m count)
      → Sim x b slots foreign (effect x (write_metadata u m count) w)
  write_metadata-Sim u m count short = record {
    loading = sim.loading;
    copied = λ k small active done j e. ground (arith, sim.copied k small active done j e);
    spared = λ i out j e. ground (arith, sim.spared i out j e);
    shows = λ j. ground (arith, sim.shows j);
    reads = sim.reads;
  }

  pub read_base-Sim :
      (u : UbiBdevIo) (start count : ℕ)
      → Proper n b slots (read_base u start count)
      → Sim x b slots foreign (request x (read_base u start count) w)
  read_base-Sim u start count (on, at, len, split) = record {
    loading = sim.loading;
    copied = sim.copied;
    spared = sim.spared;
    shows = sim.shows;
    reads = (λ i h. from_base i (omega (arith, h, len)), sim.reads);
  }
    where
      from_base :
          (i : ℕ)
          → i < u.bdev_io.num_blocks
          → w.base (start + i) ≡ w.plain (u.bdev_io.offset_blocks + i)
      from_base i h =
          let j : ℕ = u.bdev_io.offset_blocks + i in
          let at_j : start + i ≡ j + b.data_offset_blocks =
            omega (arith, start_block u start at split) in
          let there =
            not_from_image n x.blocklen b z u.bdev_io split j on (omega arith) (omega (arith, h)) in
          ap w.base at_j ∙ ground (arith, there, sim.shows j)

  pub prep_readv-Sim :
      (u : UbiBdevIo) (offset : ℕ)
      → Proper n b slots (prep_readv u offset)
      → Sim x b slots foreign (request x (prep_readv u offset) w)
  prep_readv-Sim u offset (inside, fresh, at, split) = record {
    loading = sim.loading;
    copied = sim.copied;
    spared = sim.spared;
    shows = sim.shows;
    reads = (λ i h. from_file i h, sim.reads);
  }
    where
      first_block : offset / x.blocklen ≡ u.bdev_io.offset_blocks
      first_block =
          let bytes : offset ≡ u.bdev_io.offset_blocks * x.blocklen =
            at ∙ omega (arith, split.bytes, ap (λ t. u.bdev_io.offset_blocks * t) z.length) in
          let pos : 0 < x.blocklen = omega (arith, z.positive, z.length) in
          ap (λ t. t / x.blocklen) bytes ∙ mul-div_cancel u.bdev_io.offset_blocks pos

      from_file :
          (i : ℕ)
          → i < u.bdev_io.num_blocks
          → x.image (offset / x.blocklen + i) ≡ w.plain (u.bdev_io.offset_blocks + i)
      from_file i h =
          let j : ℕ = u.bdev_io.offset_blocks + i in
          let there =
            all_from_image n x.blocklen b z u.bdev_io split j inside fresh (omega arith)
              (omega (arith, h)) in
          ap (λ t. x.image (t + i)) first_block ∙ ground (arith, there, sim.shows j)
