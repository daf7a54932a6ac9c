-- ===== src/Rpc.antt =====
-- src/lib/bdev_ubi_rpc.c: the methods bdev_ubi_create and bdev_ubi_delete, with bdev_ubi_delete and
-- ubi_write_config_json of src/lib/bdev_ubi.c. The memory of the context that rpc_bdev_ubi_create
-- allocates without a test is taken to be there.
pub mod Answers
pub mod Config
use Prim.Native.String.{String}
use bdev_ubi.Prelude.{
  ℕ, Bool, true, false, ℤ, pos, negsuc, is_neg, is_nonzero, Option, none, some, List, [], ◌∷◌, ◌++◌,
  if◌then◌else◌,
}
use bdev_ubi.Metadata.{Metadata}
use bdev_ubi.Bdev.{UbiBdev}
use bdev_ubi.Create.{Opts, Creation, create}
use bdev_ubi.Create
use bdev_ubi.Json.{
  Decoder, decode_string, decode_uint32, decode_bool, Json, WriteCall, object_begin, named_string,
  named_object_begin, named_uint32, named_bool, object_end,
}

-- struct rpc_construct_ubi. The null pointer is `none`.
pub record RpcConstructUbi : Type 0 where
  pub name : Option String
  pub image_path : Option String
  pub base_bdev_name : Option String
  pub stripe_size_kb : ℕ
  pub no_sync : Bool
  pub copy_on_read : Bool
  pub directio : Bool

-- The calls of the JSON-RPC server that answer a request, with the name of a new bdev as the text of
-- the result.
pub data Response : Type 0 where
  internal_error : String → Response
  error_response : ℤ → Response
  invalid_params : ℤ → Response
  string_result : Option String → Response
  bool_result : Bool → Response

-- What a method has done when its request has run to its end: the answers in order, the strings freed,
-- and for a creation that was started its end.
pub record Handled : Type 0 where
  pub responses : List Response
  pub freed : List String
  pub creation : Option Creation

-- free, which does nothing with the null pointer
abbrev pub freeing : Option String → List String → List String
freeing none rest = rest
freeing (some s) rest = s ∷ rest

abbrev pub free_rpc_construct_ubi : RpcConstructUbi → List String
free_rpc_construct_ubi req =
    freeing req.name (freeing req.image_path (freeing req.base_bdev_name []))

pub rpc_construct_ubi_decoders : List (Decoder RpcConstructUbi)
rpc_construct_ubi_decoders =
    record {
      name = "name";
      field = decode_string (λ s r. record r { name = some s });
      optional = false;
    }
    ∷ record {
      name = "image_path";
      field = decode_string (λ s r. record r { image_path = some s });
      optional = false;
    }
    ∷ record {
      name = "base_bdev";
      field = decode_string (λ s r. record r { base_bdev_name = some s });
      optional = false;
    }
    ∷ record {
      name = "stripe_size_kb";
      field = decode_uint32 (λ n r. record r { stripe_size_kb = n });
      optional = false;
    }
    ∷ record {
      name = "no_sync";
      field = decode_bool (λ b r. record r { no_sync = b });
      optional = true;
    }
    ∷ record {
      name = "copy_on_read";
      field = decode_bool (λ b r. record r { copy_on_read = b });
      optional = true;
    }
    ∷ record {
      name = "directio";
      field = decode_bool (λ b r. record r { directio = b });
      optional = true;
    }
    ∷ []

-- The values before the decoding.
pub default_params : RpcConstructUbi
default_params = record {
  name = none;
  image_path = none;
  base_bdev_name = none;
  stripe_size_kb = 0;
  no_sync = false;
  copy_on_read = true;
  directio = true;
}

abbrev pub opts_of : RpcConstructUbi → Opts
opts_of req = record {
  name = req.name;
  image_path = req.image_path;
  base_bdev_name = req.base_bdev_name;
  stripe_size_kb = req.stripe_size_kb;
  no_sync = req.no_sync;
  copy_on_read = req.copy_on_read;
  directio = req.directio;
}

-- The second argument is the name of the bdev, which is read only on success.
pub bdev_ubi_create_done : ℤ → Option String → Response
bdev_ubi_create_done status name =
    if is_neg status
    then error_response status
    else if is_nonzero status
    then invalid_params status
    else string_result name

abbrev pub decode_failed : Response
decode_failed = internal_error "spdk_json_decode_object failed"

module _ {P : Type 0} (json : Json P) where
  -- The last three arguments are what the libraries answer during the creation, whether the metadata
  -- is read, and the metadata.
  pub rpc_bdev_ubi_create : P → Create.Answers → Bool → Metadata → Handled
  unfolding default_params bdev_ubi_create_done
  rpc_bdev_ubi_create params a success m =
      let (failed, req) = json.decode_object params rpc_construct_ubi_decoders default_params in
      let c = create a (some (opts_of req)) success m in
      if failed
      then record {
        responses = decode_failed ∷ [];
        freed = free_rpc_construct_ubi req;
        creation = none;
      }
      else record {
        responses = elim c.done [
          | none ↦ []
          | some status ↦ bdev_ubi_create_done status req.name ∷ []
        ];
        freed = free_rpc_construct_ubi req;
        creation = some c;
      }

-- struct rpc_delete_ubi
pub record RpcDeleteUbi : Type 0 where
  pub name : Option String

pub rpc_delete_ubi_decoders : List (Decoder RpcDeleteUbi)
rpc_delete_ubi_decoders =
    record {
      name = "name";
      field = decode_string (λ s r. record r { name = some s });
      optional = false;
    }
    ∷ []

-- spdk_bdev_unregister_by_name: its result for a name, and the number that it hands the callback at the
-- end of the unregistration, which it runs if the result is 0.
pub record Unregister : Type 0 where
  pub rc : Option String → ℤ
  pub bdeverrno : Option String → ℤ

-- The values that the callback is called with.
pub bdev_ubi_delete : Unregister → Option String → List ℤ
bdev_ubi_delete u name = if is_nonzero (u.rc name) then u.rc name ∷ [] else u.bdeverrno name ∷ []

pub rpc_bdev_ubi_delete_cb : ℤ → Response
rpc_bdev_ubi_delete_cb bdeverrno =
    if is_nonzero bdeverrno then error_response bdeverrno else bool_result true

abbrev pub delete_answers : List ℤ → List Response
delete_answers [] = []
delete_answers (e ∷ es) = rpc_bdev_ubi_delete_cb e ∷ delete_answers es

module _ {P : Type 0} (json : Json P) where
  pub rpc_bdev_ubi_delete : P → Unregister → Handled
  unfolding bdev_ubi_delete rpc_bdev_ubi_delete_cb
  rpc_bdev_ubi_delete params u =
      let (failed, req) =
        json.decode_object params rpc_delete_ubi_decoders (record { name = none }) in
      if failed
      then record { responses = decode_failed ∷ []; freed = []; creation = none }
      else record {
        responses = delete_answers (bdev_ubi_delete u req.name);
        freed = freeing req.name [];
        creation = none;
      }

-- A bdev with the names that ubi_write_config_json writes: its own, that of its base bdev, and its
-- image_path.
pub record Labelled : Type 0 where
  pub name : String
  pub base_bdev : String
  pub image_path : String
  pub bdev : UbiBdev

pub ubi_write_config_json : Labelled → List WriteCall
ubi_write_config_json l =
    object_begin
    ∷ named_string "method" "bdev_ubi_create"
    ∷ named_object_begin "params"
    ∷ named_string "name" l.name
    ∷ named_string "base_bdev" l.base_bdev
    ∷ named_string "image_path" l.image_path
    ∷ named_uint32 "stripe_size_kb" l.bdev.stripe_size_kb
    ∷ named_bool "copy_on_read" l.bdev.copy_on_read
    ∷ named_bool "directio" l.bdev.directio
    ∷ named_bool "no_sync" l.bdev.no_sync
    ∷ object_end
    ∷ object_end
    ∷ []
