-- ===== src/System/Exclusive.antt =====
-- A stripe is fetched by one channel, in one place, and no fetch is lost.
use bdev_ubi.Prelude.{
  ℕ, ◌+◌, ◌*◌, ◌^◌, ◌<◌, ◌≤◌, ◌≡◌, ◌≢◌, refl, ◌∙◌, sym, inl, inr, ◌==◌, ==_iff, Bool-cases, arith,
  subst, length,
}
use bdev_ubi.FetchQueue.{fetch_queue_size}
use bdev_ubi.FetchQueue.Contents.{contents}
use bdev_ubi.Bdev.{StripeStatus, inflight, not_fetched, ubi_get_stripe_status}
use bdev_ubi.Bdev.Kept.{Kept}
use bdev_ubi.Channel.{IoChannel, State}
use bdev_ubi.Ownership.{occurrences, mark, Owned, Mine, Passes, Fits}
use bdev_ubi.Ownership.Fetching.{room}
use bdev_ubi.System.Steps.{Step-Kept}
use bdev_ubi.System.Shared.{Shared, view, put, SharedStep, by, SharedReach, start, later}
use bdev_ubi.System.Moving.{Step-Moves}

abbrev status : Shared → ℕ → StripeStatus
status g i = ubi_get_stripe_status g.bdev i

abbrev names : Shared → ℕ → ℕ → ℕ
names g k i = occurrences (g.channels k) i

-- On an image of at most `n` stripes: each channel is in order, no two channels name a stripe, and
-- each stripe that is being fetched is named by a channel.
pub record Exclusive (n : ℕ) (g : Shared) : Type 0 where
  pub fits : Fits n g.bdev
  pub each : (k : ℕ) → Owned n (view g k)
  pub alone : (k l i : ℕ) → 0 < names g k i → 0 < names g l i → k ≡ l
  pub someone : (i : ℕ) → status g i ≡ inflight → (k : ℕ) × (0 < names g k i)

-- A stripe that is named is being fetched.
pub named-status :
    (n : ℕ) (s : State) (i : ℕ)
    → Owned n s
    → 0 < occurrences s.ch i
    → ubi_get_stripe_status s.bdev i ≡ inflight
named-status n s i o h = ground (arith, o.once i)

module _ (n : ℕ) (g : Shared) (k : ℕ) (t : State) (e : Exclusive n g) (o : Owned n t)
    (p : (i : ℕ) → Passes (view g k) t i) (kept : Kept g.bdev t.bdev) where
  -- Another channel's stripe keeps its status.
  undisturbed : (l i : ℕ) → l ≢ k → 0 < names g l i → ubi_get_stripe_status t.bdev i ≡ inflight
  undisturbed l i other h =
      let was = named-status n (view g l) i (e.each l) h in
      elim (p i).others [
        | inl same ↦ same ∙ was
        | inr (inl fresh) ↦ cc
        | inr (inr mine) ↦ absurd (other (e.alone l k i h mine))
      ]

  -- Nor does the channel take it.
  untaken : (l i : ℕ) → l ≢ k → 0 < names g l i → 0 < occurrences t.ch i → ⊥
  untaken l i other h h' =
      let was = named-status n (view g l) i (e.each l) h in
      elim ((p i).taken h') [ inl fresh ↦ cc | inr mine ↦ other (e.alone l k i h mine) ]

  -- A channel after the step: the one that took it, or another.
  by_channel :
      (P : ℕ → IoChannel → Type 0)
      → P k t.ch
      → ((l : ℕ) → l ≢ k → P l (g.channels l))
      → (l : ℕ) → P l ((put k t g).channels l)
  by_channel P here there l = elim (Bool-cases (l == k)) [
    | inl h ↦ rw h (let same : l ≡ k = ground (arith, h) in subst (λ m. P m t.ch) (sym same) here)
    | inr h ↦ rw h (there l (λ same. ground (arith, h, same)))
  ]

  put-here : (put k t g).channels k ≡ t.ch
  put-here = rw ((==_iff k k).1 refl) refl

  put-there : (l : ℕ) → l ≢ k → (put k t g).channels l ≡ g.channels l
  put-there l other = elim (Bool-cases (l == k)) [
    | inl h ↦ absurd (other ((==_iff l k).0 h))
    | inr h ↦ rw h refl
  ]

  put-alone : (a l i : ℕ) → 0 < names (put k t g) a i → 0 < names (put k t g) l i → a ≡ l
  put-alone a l i =
      by_channel (λ a ch. 0 < occurrences ch i → 0 < names (put k t g) l i → a ≡ l)
        (λ mine.
          by_channel (λ l ch. 0 < occurrences ch i → k ≡ l) (λ _. refl)
            (λ l other h. absurd (untaken l i other h mine)) l)
        (λ a other h.
          by_channel (λ l ch. 0 < occurrences ch i → a ≡ l)
            (λ mine. absurd (untaken a i other h mine)) (λ l _ h'. e.alone a l i h h') l)
        a

  put-someone :
      (i : ℕ) → ubi_get_stripe_status t.bdev i ≡ inflight → (l : ℕ) × (0 < names (put k t g) l i)
  put-someone i asked = elim (p i).others [
    | inr mine ↦ held_by_k mine
    | inl same ↦ from_before (e.someone i (sym same ∙ asked))
  ]
    where
      held_by_k : Mine (view g k) i → (l : ℕ) × (0 < names (put k t g) l i)
      held_by_k mine =
          (k, subst (λ ch. 0 < occurrences ch i) (sym put-here) ((p i).held asked mine))

      from_before : ((l : ℕ) × (0 < names g l i)) → (l : ℕ) × (0 < names (put k t g) l i)
      from_before (l, h) = elim (Bool-cases (l == k)) [
        | inl here ↦ held_by_k (inr (subst (λ m. 0 < names g m i) ((==_iff l k).0 here) h))
        | inr other ↦ (
          l,
          subst (λ ch. 0 < occurrences ch i)
              (sym (put-there l (λ same. ground (arith, other, same)))) h,
        )
      ]

  others_owned : (l : ℕ) → l ≢ k → (i : ℕ) → names g l i ≤ mark (ubi_get_stripe_status t.bdev i)
  others_owned l other i =
      let disturbed = undisturbed l i other in ground (arith, disturbed, (e.each l).once i)

  put-each : (l : ℕ) → Owned n (view (put k t g) l)
  put-each l =
      let q =
        by_channel (λ l ch. Ordered ch) (record { ring = o.ring; once = o.once; below = o.below })
          (λ l other. record {
            ring = (e.each l).ring;
            once = others_owned l other;
            below = (e.each l).below;
          })
          l in
      record { ring = q.ring; once = q.once; below = q.below }
    where
      Ordered : IoChannel → Type 0
      Ordered ch = Owned n (record { bdev = t.bdev; ch = ch; calls = t.calls })

  put-Exclusive : Exclusive n (put k t g)
  put-Exclusive = record {
    fits =
        subst (λ m. m ≤ n * 2 ^ t.bdev.stripe_shift) (sym kept.image)
          (subst (λ m. g.bdev.image_block_count ≤ n * 2 ^ m) (sym kept.shift) e.fits);
    each = put-each;
    alone = put-alone;
    someone = put-someone;
  }

pub SharedStep-Exclusive :
    (n : ℕ) {g h : Shared} → n < fetch_queue_size → SharedStep g h → Exclusive n g → Exclusive n h
SharedStep-Exclusive n {g} small (by k {t} st due) e =
    let (o, p) = Step-Moves n st small e.fits due (e.each k) in
    put-Exclusive n g k t e o p (Step-Kept st)

-- On an image of at most 32767 stripes, with any number of channels on one bdev, whatever steps they
-- take in whatever order, as long as each end of a read or write of a stripe is reported for a slot
-- in use: if at the start every channel is in order, no two name a stripe, and every stripe that is
-- being fetched is named, this stays so. So a stripe that is being fetched stands in one ring entry
-- or active slot of one channel, and no other stripe stands in any.
pub SharedReach-Exclusive :
    (n : ℕ) {g h : Shared} → n < fetch_queue_size → Exclusive n g → SharedReach g h → Exclusive n h
SharedReach-Exclusive n small e start = e
SharedReach-Exclusive n small e (later r st) =
    SharedStep-Exclusive n small st (SharedReach-Exclusive n small e r)

-- On an image of at most 32767 stripes, from a state in which every channel is in order, no two name a
-- stripe, and every stripe that is being fetched is named: whatever steps the channels take, as long as
-- each end of a read or write of a stripe is reported for a slot in use, in the state reached the ring
-- of each channel has room for any stripe of the image that nobody has asked for.
pub SharedReach-room :
    (n : ℕ) {g h : Shared}
    → n < fetch_queue_size
    → Exclusive n g
    → SharedReach g h
    → (k stripe : ℕ) → stripe < n
    → ubi_get_stripe_status h.bdev stripe ≡ not_fetched
    → length (contents (h.channels k).stripe_fetch_queue) + 1 < fetch_queue_size
SharedReach-room n {h = h} small e r k stripe inside fresh =
    room n (view h k) stripe small ((SharedReach-Exclusive n small e r).each k) inside fresh
