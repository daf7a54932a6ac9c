-- ===== src/Ownership/Passing.antt =====
-- The promises of several steps add up.
use bdev_ubi.Prelude.{
  ℕ, ◌+◌, ◌<◌, ◌≤◌, count, ◌≡◌, ◌≢◌, if◌then◌else◌, ◌==◌, ◌⊎◌, inl, inr, sym, ◌∙◌, subst, arith, ap,
  ap₂,
}
use bdev_ubi.Bdev.{StripeStatus, inflight, fetched, not_fetched, ubi_get_stripe_status}
use bdev_ubi.Channel.{State, max_active_stripe_fetches}
use bdev_ubi.FetchQueue.Contents.{contents, IsValid}
use bdev_ubi.Ownership.{header, slot_count, occurrences, mark, Owned, Passes, Moves}

-- The promise for one stripe, by its statuses and occurrences before and behind a step.
abbrev Asked : StripeStatus → ℕ → Type 0
Asked a x = (a ≡ not_fetched) ⊎ (0 < x)

module _ (a b c : StripeStatus) (x y z : ℕ) (others : (b ≡ a) ⊎ Asked a x)
    (others' : (c ≡ b) ⊎ Asked b y) (taken : 0 < y → Asked a x) where
  chain-others : (c ≡ a) ⊎ Asked a x
  chain-others = ground arith

  onward : Asked b y → Asked a x
  onward h = ground arith

  chain-held :
      (b ≡ inflight → Asked a x → 0 < y)
      → (c ≡ inflight → Asked b y → 0 < z)
      → c ≡ inflight
      → Asked a x
      → 0 < z
  chain-held held held' = ground arith

  chain-fetched : y ≤ mark b → b ≡ fetched → c ≡ fetched
  chain-fetched once h = ground arith

Passes-trans :
    (n : ℕ) (s t u : State) (i : ℕ) → Owned n t → Passes s t i → Passes t u i → Passes s u i
Passes-trans n s t u i o h k =
    let a = ubi_get_stripe_status s.bdev i in
    let b = ubi_get_stripe_status t.bdev i in
    let c = ubi_get_stripe_status u.bdev i in
    let x = occurrences s.ch i in
    let y = occurrences t.ch i in
    let z = occurrences u.ch i in
    let asked = onward a b c x y z h.others k.others h.taken in
    record {
      others = chain-others a b c x y z h.others k.others h.taken;
      marked = elim k.marked [
        | inr (e, m) ↦ inr (e, asked m)
        | inl e ↦ elim h.marked [
          | inl f ↦ inl (e ∙ f)
          | inr (f, m) ↦ inr (chain-fetched a b c x y z h.others k.others h.taken (o.once i) f, m)
        ]
      ];
      taken = λ p. asked (k.taken p);
      held = chain-held a b c x y z h.others k.others h.taken h.held k.held;
    }

pub Moves-trans : (n : ℕ) (s t u : State) → Moves n s t → Moves n t u → Moves n s u
Moves-trans n s t u h k o =
    let (o', p) = h o in let (o'', q) = k o' in (o'', λ i. Passes-trans n s t u i o' (p i) (q i))

-- How a step changes what is named, stripe by stripe.
module _ (n : ℕ) (s t : State)
    (valid : IsValid s.ch.stripe_fetch_queue → IsValid t.ch.stripe_fetch_queue) where
  -- Nothing changes.
  pub same-Moves :
      ((i : ℕ) → occurrences t.ch i ≡ occurrences s.ch i)
      → ((i : ℕ) → ubi_get_stripe_status t.bdev i ≡ ubi_get_stripe_status s.bdev i)
      → ((i : ℕ) → header t i ≡ header s i)
      → Moves n s t
  same-Moves names statuses headers o = (
    record {
      ring = valid o.ring;
      once = λ i. ground (arith, names i, statuses i, o.once i);
      below = λ i h. ground (arith, names i, o.below i h);
    },
    λ i. record {
      others = inl (statuses i);
      marked = inl (headers i);
      taken = λ h. inr (ground (arith, names i));
      held = λ e m. ground (arith, names i, statuses i);
    },
  )

  -- A stripe that nobody has asked for is asked for.
  pub gain-Moves :
      (j : ℕ)
      → j < n
      → ubi_get_stripe_status s.bdev j ≡ not_fetched
      → (Owned n s → (i : ℕ) → occurrences t.ch i ≡ occurrences s.ch i + (if i == j then 1 else 0))
      → ((i : ℕ)
          → ubi_get_stripe_status t.bdev i
            ≡ (if i == j then inflight else ubi_get_stripe_status s.bdev i))
      → ((i : ℕ) → header t i ≡ header s i)
      → Moves n s t
  gain-Moves j inside fresh names statuses headers o = (
    record {
      ring = valid o.ring;
      once = λ i. ground (arith, names o i, statuses i, o.once i, fresh);
      below = λ i h. ground (arith, names o i, o.below i h);
    },
    λ i. record {
      others = ground (arith, statuses i, fresh);
      marked = inl (headers i);
      taken = λ h. ground (arith, names o i, fresh);
      held = λ e m. ground (arith, names o i, statuses i, fresh);
    },
  )

  -- A stripe of the channel's own is given up.
  pub lose-Moves :
      (j : ℕ) (status : StripeStatus)
      → status ≢ inflight
      → ((i : ℕ) → occurrences t.ch i + (if i == j then 1 else 0) ≡ occurrences s.ch i)
      → ((i : ℕ)
          → ubi_get_stripe_status t.bdev i
            ≡ (if i == j then status else ubi_get_stripe_status s.bdev i))
      → ((i : ℕ) → (header t i ≡ header s i) ⊎ ((status ≡ fetched) × (i ≡ j)))
      → Moves n s t
  lose-Moves j status over names statuses headers o = (
    record {
      ring = valid o.ring;
      once = λ i. ground (arith, names i, statuses i, o.once i);
      below = λ i h. ground (arith, names i, o.below i h);
    },
    λ i. record {
      others = ground (arith, names i, statuses i);
      marked = elim (headers i) [
        | inl e ↦ inl e
        | inr (e, f) ↦ inr (ground (arith, statuses i, e, f), inr (ground (arith, names i, f)))
      ];
      taken = λ h. inr (ground (arith, names i));
      held = λ e m. ground (arith, names i, statuses i, over);
    },
  )

-- A step that leaves the ring, the slots and the statuses alone.
pub record Quiet (s t : State) : Type 0 where
  pub ring : t.ch.stripe_fetch_queue ≡ s.ch.stripe_fetch_queue
  pub slots : t.ch.stripe_fetches ≡ s.ch.stripe_fetches
  pub statuses : t.bdev.stripe_status ≡ s.bdev.stripe_status
  pub headers : t.bdev.metadata.stripe_headers ≡ s.bdev.metadata.stripe_headers

pub Quiet-trans : {s t u : State} → Quiet s t → Quiet t u → Quiet s u
Quiet-trans h k = record {
  ring = k.ring ∙ h.ring;
  slots = k.slots ∙ h.slots;
  statuses = k.statuses ∙ h.statuses;
  headers = k.headers ∙ h.headers;
}

pub Quiet-Moves : (n : ℕ) (s t : State) → Quiet s t → Moves n s t
unfolding ubi_get_stripe_status
Quiet-Moves n s t q =
    same-Moves n s t (subst IsValid (sym q.ring))
      (λ i.
        ap₂ (λ r f. count i (contents r) + slot_count f i max_active_stripe_fetches) q.ring q.slots)
      (λ i. ap (λ f. f i) q.statuses) (λ i. ap (λ f. (f i).0) q.headers)
