-- ===== src/Request/Admission.antt =====
-- A request that waits in the queue has had its stripe asked for.
use bdev_ubi.Prelude.{
  ℕ, ◌/◌, ◌^◌, ◌<◌, ◌≡◌, ◌≢◌, refl, sym, ap, subst, ◌∙◌, inl, inr, ◌⊎◌, true, false, not, List, [],
  ◌∷◌, ◌++◌, All, arith, if_cases, if_intro, ltb, ◌&&◌, ◌==◌,
}
use bdev_ubi.Bdev.{UbiBdev, not_fetched, inflight, ubi_get_stripe_status, ubi_set_stripe_status}
use bdev_ubi.Bdev.Kept.{Kept, Kept-refl, set-Kept}
use bdev_ubi.Bdev.Stripe.{get-set_status}
use bdev_ubi.Channel.{BdevIo, IoType, read, write, flush, State}
use bdev_ubi.Channel.Evolve.{Evolves}
use bdev_ubi.Request.{
  ubi_io_type_supported, stripe_of, wants_stripe, end_block, is_not_fetched, insert_io,
  enqueue_fetch, ubi_submit_request,
}

-- A supported request for blocks of the image, if it wants its stripe, finds it asked for.
pub record AdmittedIo (b : UbiBdev) (io : BdevIo) : Type 0 where
  pub supported : ubi_io_type_supported io.type ≡ true
  pub asked :
      wants_stripe b io ≡ true
      → io.offset_blocks < b.image_block_count
      → ubi_get_stripe_status b (stripe_of b io.offset_blocks) ≢ not_fetched

abbrev pub Admitted : State → Type 0
Admitted s = All (AdmittedIo s.bdev) s.ch.io

All-append {ℓ κ} :
    {A : Type ℓ} (P : A → Type κ) (xs ys : List A) → All P xs → All P ys → All P (xs ++ ys)
All-append P [] ys h k = k
All-append P (x ∷ xs) ys h k = (h.0, All-append P xs ys h.1 k)

All-suffix {ℓ κ} : {A : Type ℓ} (P : A → Type κ) (xs ys : List A) → All P (xs ++ ys) → All P ys
All-suffix P [] ys h = h
All-suffix P (x ∷ xs) ys h = All-suffix P xs ys h.1

All-map {ℓ κ} :
    {A : Type ℓ} (P Q : A → Type κ) → ((a : A) → P a → Q a) → (xs : List A) → All P xs → All Q xs
All-map P Q f [] h = h
All-map P Q f (x ∷ xs) h = (f x h.0, All-map P Q f xs h.1)

wants-Kept : (b b' : UbiBdev) (io : BdevIo) → Kept b b' → wants_stripe b' io ≡ wants_stripe b io
unfolding wants_stripe
wants-Kept b b' io k = ground (arith, k.copying)

stripe-Kept : (b b' : UbiBdev) (n : ℕ) → Kept b b' → stripe_of b' n ≡ stripe_of b n
unfolding stripe_of
stripe-Kept b b' n k = ap (λ t. n / 2 ^ t) k.shift

AdmittedIo-Kept : (b b' : UbiBdev) → Kept b b' → (io : BdevIo) → AdmittedIo b io → AdmittedIo b' io
AdmittedIo-Kept b b' k io a = record {
  supported = a.supported;
  asked = λ w h e.
      a.asked (sym (wants-Kept b b' io k) ∙ w) (subst (λ n. io.offset_blocks < n) k.image h) (
        k.statuses _
          (ap (ubi_get_stripe_status b') (sym (stripe-Kept b b' io.offset_blocks k)) ∙ e));
}

-- Every step that only evolves the channel keeps the queue admitted.
pub Evolves-Admitted : {s t : State} → Evolves s t → Admitted s → Admitted t
Evolves-Admitted {s} {t} e a =
    All-map (AdmittedIo s.bdev) (AdmittedIo t.bdev) (AdmittedIo-Kept s.bdev t.bdev e.kept) t.ch.io
      (All-suffix (AdmittedIo s.bdev) e.taken t.ch.io (subst (All (AdmittedIo s.bdev)) e.queue a))

inflight-Kept : (b : UbiBdev) (i : ℕ) → Kept b (ubi_set_stripe_status b i inflight)
inflight-Kept b i = set-Kept b i inflight (λ e. cc)

-- A request at the end of the queue.
inserted : (io : BdevIo) (s : State) → Admitted s → AdmittedIo s.bdev io → Admitted (insert_io io s)
inserted io s a h = All-append (AdmittedIo s.bdev) s.ch.io (io ∷ []) a (h, tt)

-- The stripe of a request is marked before the request is inserted.
enqueued :
    (io : BdevIo) (s : State)
    → ubi_io_type_supported io.type ≡ true
    → Admitted s
    → Admitted (insert_io io (enqueue_fetch (stripe_of s.bdev io.offset_blocks) s))
enqueued io s h a =
    let stripe = stripe_of s.bdev io.offset_blocks in
    let b = ubi_set_stripe_status s.bdev stripe inflight in
    let k = inflight-Kept s.bdev stripe in
    inserted io (enqueue_fetch stripe s)
      (All-map (AdmittedIo s.bdev) (AdmittedIo b) (AdmittedIo-Kept s.bdev b k) s.ch.io a)
      (record {
        supported = h;
        asked = λ _ _. ground (
          arith,
          get-set_status s.bdev stripe (stripe_of b io.offset_blocks) inflight,
          stripe-Kept s.bdev b io.offset_blocks k,
        );
      })

-- ubi_submit_request keeps the queue admitted.
pub submit-Admitted :
    (io : BdevIo) (s : State)
    → ubi_io_type_supported io.type ≡ true
    → Admitted s
    → Admitted (ubi_submit_request io s)
unfolding ubi_submit_request
submit-Admitted io s h a =
    if_cases Admitted (wants_stripe s.bdev io) _ _
      (λ wanted.
        if_cases Admitted (not (stripe == stripe_of s.bdev (end_block io))) _ _ (λ _. a)
          (λ _.
            if_cases Admitted
              (ltb io.offset_blocks s.bdev.image_block_count
                && is_not_fetched (ubi_get_stripe_status s.bdev stripe))
              _ _ (λ _. enqueued io s h a)
              (λ t.
                inserted io s a
                  (record { supported = h; asked = λ _ inside. fetch_asked t inside }))))
      (λ unwanted.
        inserted io s a
          (record { supported = h; asked = λ wanted _ _. wants_both unwanted wanted }))
  where
    stripe : ℕ
    stripe = stripe_of s.bdev io.offset_blocks

    wants_both : wants_stripe s.bdev io ≡ false → wants_stripe s.bdev io ≡ true → ⊥
    wants_both e f = cc

    fetch_asked :
        (ltb io.offset_blocks s.bdev.image_block_count
            && is_not_fetched (ubi_get_stripe_status s.bdev stripe))
          ≡ false
        → io.offset_blocks < s.bdev.image_block_count
        → ubi_get_stripe_status s.bdev stripe ≢ not_fetched
    fetch_asked t inside = ground arith

pub submit-Kept : (io : BdevIo) (s : State) → Kept s.bdev (ubi_submit_request io s).bdev
unfolding ubi_submit_request
submit-Kept io s =
    let same = Kept-refl s.bdev in
    let kept = λ (t : State). Kept s.bdev t.bdev in
    if_intro kept (wants_stripe s.bdev io) _ _
      (if_intro kept _ _ _ same
        (if_intro kept _ _ _ (inflight-Kept s.bdev (stripe_of s.bdev io.offset_blocks)) same))
      same

-- The types that reach the driver.
pub supported_type :
    (t : IoType) → ubi_io_type_supported t ≡ true → (t ≡ read) ⊎ (t ≡ write) ⊎ (t ≡ flush)
unfolding ubi_io_type_supported
supported_type read h = inl refl
supported_type write h = inr (inl refl)
supported_type flush h = inr (inr refl)
supported_type _ h = cc
