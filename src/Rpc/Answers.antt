-- ===== src/Rpc/Answers.antt =====
-- Each RPC request is answered once, and the answer tells what has become of the bdev.
use Prim.Native.String.{String}
use bdev_ubi.Prelude.{
  zero, suc, ◌≡◌, ◌⊎◌, inl, inr, refl, ap, Bool, true, false, ◌&&◌, not, ℤ, pos, negsuc, is_nonzero,
  Option, none, some, List, [], ◌∷◌, if◌then◌else◌, if_cases, arith,
}
use bdev_ubi.Metadata.{Metadata}
use bdev_ubi.Create
use bdev_ubi.Create.{Creation, create}
use bdev_ubi.Create.Finish.{GivenBack, InUse, Settled, ChannelBack}
use bdev_ubi.Resources.{base_channel, context, holds}
use bdev_ubi.Create.Balance.{create-Settled}
use bdev_ubi.Json.{Json}
use bdev_ubi.Rpc.{
  Response, string_result, bool_result, Handled, free_rpc_construct_ubi, rpc_construct_ubi_decoders,
  default_params, opts_of, bdev_ubi_create_done, decode_failed, rpc_bdev_ubi_create,
  rpc_delete_ubi_decoders, Unregister, bdev_ubi_delete, rpc_bdev_ubi_delete_cb, delete_answers,
  rpc_bdev_ubi_delete,
}

abbrev pub is_result : Response → Bool
is_result (string_result name) = true
is_result (bool_result b) = true
is_result _ = false

-- No bdev has been made, or all that it took has been given back, but for the channel of the base bdev if
-- the read of the metadata was refused.
abbrev pub NoBdev : Create.Answers → Option Creation → Type 0
NoBdev a none = Unit
NoBdev a (some c) =
    GivenBack c × ((holds base_channel c.acts ≡ false) ⊎ (is_nonzero a.read_blocks ≡ true))

abbrev pub NewBdev : Option Creation → Type 0
NewBdev none = ⊥
NewBdev (some c) = InUse c × (holds base_channel c.acts ≡ false) × (holds context c.acts ≡ false)

-- One answer, which is a result exactly if there is a new bdev.
pub record Answered (a : Create.Answers) (h : Handled) : Type 0 where
  pub answer : Response
  pub once : h.responses ≡ answer ∷ []
  pub outcome : if is_result answer then NewBdev h.creation else NoBdev a h.creation

status_result :
    (status : ℤ) (name : Option String)
    → is_result (bdev_ubi_create_done status name) ≡ not (is_nonzero status)
unfolding bdev_ubi_create_done
status_result (pos zero) name = refl
status_result (pos (suc n)) name = refl
status_result (negsuc n) name = refl

ended :
    (a : Create.Answers) (c : Creation) (status : ℤ)
    → (if is_nonzero status then GivenBack c else InUse c)
    → ChannelBack a status c
    → holds context c.acts ≡ false
    → if not (is_nonzero status) then NewBdev (some c) else NoBdev a (some c)
ended a c status outcome channel freed = by_status (is_nonzero status) outcome channel
  where
    by_status :
        (failed : Bool)
        → (if failed then GivenBack c else InUse c)
        → (holds base_channel c.acts ≡ false)
          ⊎ ((is_nonzero a.read_blocks ≡ true) × (failed ≡ true))
        → if not failed then NewBdev (some c) else NoBdev a (some c)
    by_status true given (inl back) = (given, inl back)
    by_status true given (inr (refused, e)) = (given, inr refused)
    by_status false used (inl back) = (used, back, freed)
    by_status false used (inr (refused, e)) = cc

module _ {P : Type 0} (json : Json P) (params : P) where
  Settled-Answered :
      (a : Create.Answers) (name : Option String) (freed : List String) (c : Creation)
      → Settled a c
      → Answered a (record {
        responses = elim c.done [ none ↦ [] | some status ↦ bdev_ubi_create_done status name ∷ [] ];
        freed = freed;
        creation = some c;
      })
  Settled-Answered a name freed c s = record {
    answer = bdev_ubi_create_done s.status name;
    once = rw s.called refl;
    outcome =
        rw (status_result s.status name) (ended a c s.status s.outcome s.channel s.context_freed);
  }

  -- Whatever the parameters of the request are, and whatever the libraries answer, bdev_ubi_create
  -- sends one answer. With a result the new bdev is registered and holds its base bdev, and the context
  -- of the creation and its channel of the base bdev have been given back; with an error no creation
  -- was started, or all that it took has been given back, but for that channel if the read of the
  -- metadata was refused.
  pub create-Answered :
      (a : Create.Answers) (success : Bool) (m : Metadata)
      → Answered a (rpc_bdev_ubi_create json params a success m)
  unfolding rpc_bdev_ubi_create
  create-Answered a success m =
      let d = json.decode_object params rpc_construct_ubi_decoders default_params in
      if_cases (Answered a) d.0 _ _
        (λ _. record { answer = decode_failed; once = refl; outcome = tt })
        (λ _.
          Settled-Answered a d.1.name (free_rpc_construct_ubi d.1) _
            (create-Settled a (some (opts_of d.1)) success m))

-- One answer, which is a result exactly if the bdev is unregistered in the end.
pub record Deleted (u : Unregister) (failed : Bool) (name : Option String) (h : Handled)
    : Type 0 where
  pub answer : Response
  pub once : h.responses ≡ answer ∷ []
  pub told :
      is_result answer
      ≡ not failed && not (is_nonzero (u.rc name)) && not (is_nonzero (u.bdeverrno name))

abbrev callback_value : Unregister → Option String → ℤ
callback_value u name = if is_nonzero (u.rc name) then u.rc name else u.bdeverrno name

called-once :
    (u : Unregister) (name : Option String) → bdev_ubi_delete u name ≡ callback_value u name ∷ []
unfolding bdev_ubi_delete
called-once u name = ground arith

callback_told :
    (u : Unregister) (name : Option String)
    → is_result (rpc_bdev_ubi_delete_cb (callback_value u name))
      ≡ not (is_nonzero (u.rc name)) && not (is_nonzero (u.bdeverrno name))
unfolding rpc_bdev_ubi_delete_cb
callback_told u name = ground arith

-- Whatever the parameters of the request are, bdev_ubi_delete sends one answer, and it is a result
-- exactly if the parameters decode, the unregistration is accepted, and it ends with 0.
pub delete-Deleted :
    {P : Type 0} (json : Json P) (params : P) (u : Unregister)
    → let (failed, req) =
        json.decode_object params rpc_delete_ubi_decoders (record { name = none }) in
      Deleted u failed req.name (rpc_bdev_ubi_delete json params u)
unfolding rpc_bdev_ubi_delete bdev_ubi_delete rpc_bdev_ubi_delete_cb
delete-Deleted json params u =
    let (failed, req) =
      json.decode_object params rpc_delete_ubi_decoders (record { name = none }) in
    if_cases (Deleted u failed req.name) failed _ _
      (λ e. record { answer = decode_failed; once = refl; told = rw e refl })
      (λ e. record {
        answer = rpc_bdev_ubi_delete_cb (callback_value u req.name);
        once = ap delete_answers (called-once u req.name);
        told = rw e (callback_told u req.name);
      })
