-- ===== src/Examples/Remote.antt =====
-- RPC requests at concrete parameters, with a small JSON library.
use Prim.Native.String.{String}
use bdev_ubi.Prelude.{
  ◌≡◌, refl, ap, true, false, pos, negsuc, none, some, List, [], ◌∷◌, if◌then◌else◌, arith,
}
use bdev_ubi.Create.{configured, create}
use bdev_ubi.Json.{
  Value, text_value, number_value, bool_value, Member, WriteCall, object_begin, named_string,
  named_object_begin, named_uint32, named_bool, Json, JsonLaws, accepts, has_key, put_members,
  write_members, write_value,
}
use bdev_ubi.Rpc.{
  Unregister, rpc_bdev_ubi_create, rpc_delete_ubi_decoders, rpc_bdev_ubi_delete, decode_failed,
  Labelled, ubi_write_config_json,
}
use bdev_ubi.Rpc.Answers.{Answered, create-Answered, Deleted, delete-Deleted}
use bdev_ubi.Rpc.Config.{
  saved_opts, create-incomplete, config-recreates, Wish, wish_members, wish_opts, create-wish,
}
use bdev_ubi.Examples.{test_bdev}
use bdev_ubi.Examples.Lifecycle.{all_well, blank, chosen}

abbrev read_members : List WriteCall → List Member
read_members (named_string k s ∷ calls) =
    record { key = k; value = text_value s } ∷ read_members calls
read_members (named_uint32 k n ∷ calls) =
    record { key = k; value = number_value n } ∷ read_members calls
read_members (named_bool k b ∷ calls) =
    record { key = k; value = bool_value b } ∷ read_members calls
read_members _ = []

abbrev read_config : List WriteCall → String × List Member
read_config (object_begin ∷ named_string k method ∷ named_object_begin p ∷ calls) =
    (method, read_members calls)
read_config _ = ("", [])

read-write_value :
    (k : String) (v : Value) (calls : List WriteCall)
    → read_members (write_value k v ∷ calls) ≡ record { key = k; value = v } ∷ read_members calls
read-write_value k (text_value s) calls = refl
read-write_value k (number_value n) calls = refl
read-write_value k (bool_value b) calls = refl

read-write_members : (ms : List Member) → read_members (write_members ms) ≡ ms
read-write_members [] = refl
read-write_members (m ∷ ms) =
    cc (read-write_value m.key m.value (write_members ms), read-write_members ms)

-- A parsed object is the list of its members.
abbrev small_json : Json (List Member)
small_json = record {
  decode_object =
      λ {R} ms table r. if accepts table ms then (false, put_members table ms r) else (true, r);
  load_config = read_config;
}

small_json-laws : JsonLaws small_json (λ ms. ms)
small_json-laws = record {
  decoded = λ table ms r h. rw h refl;
  refused = λ table ms r h. rw h refl;
  loaded = λ method ms. ap (λ ms. (method, ms)) (read-write_members ms);
}

abbrev label : Labelled
label = record {
  name = "ubi0";
  base_bdev = "malloc0";
  image_path = "/images/disk.raw";
  bdev = test_bdev;
}

config-recreates_example :
    ((read_config (ubi_write_config_json label)).0 ≡ "bdev_ubi_create")
    × ((rpc_bdev_ubi_create small_json
          (read_config (ubi_write_config_json label)).1
          all_well
          true
          blank).creation
        ≡ some (create all_well (some (saved_opts label)) true blank))
    × (ubi_write_config_json (record label { bdev = configured all_well (saved_opts label) chosen })
        ≡ ubi_write_config_json label)
config-recreates_example =
    config-recreates small_json (λ ms. ms) small_json-laws all_well true blank label all_well chosen
      (omega arith)

-- The parameters of the README's first example, with the stripe size in mebibytes.
abbrev in_mebibytes : List Member
in_mebibytes =
    record { key = "name"; value = text_value "ubi0" }
    ∷ record { key = "base_bdev"; value = text_value "aio0" }
    ∷ record { key = "image_path"; value = text_value "/opt/images/large-image.raw" }
    ∷ record { key = "stripe_size_mb"; value = number_value 1 }
    ∷ []

create-incomplete_example :
    ((rpc_bdev_ubi_create small_json in_mebibytes all_well true blank).responses
      ≡ decode_failed ∷ [])
    × ((rpc_bdev_ubi_create small_json in_mebibytes all_well true blank).creation ≡ none)
unfolding has_key
create-incomplete_example =
    create-incomplete small_json (λ ms. ms) small_json-laws all_well true blank in_mebibytes refl

create-Answered_example : Answered all_well (
    rpc_bdev_ubi_create small_json
      (read_config (ubi_write_config_json label)).1
      all_well
      true
      blank)
create-Answered_example =
    create-Answered small_json (read_config (ubi_write_config_json label)).1 all_well true blank

-- There is a bdev, but it is not one of this module.
abbrev not_ours : Unregister
not_ours = record { rc = λ name. negsuc 18; bdeverrno = λ name. pos 0 }

delete-Deleted_example :
    Deleted not_ours
      (small_json.decode_object in_mebibytes rpc_delete_ubi_decoders (record { name = none })).0
      (small_json.decode_object in_mebibytes rpc_delete_ubi_decoders
        (record { name = none })).1.name
      (rpc_bdev_ubi_delete small_json in_mebibytes not_ours)
delete-Deleted_example = delete-Deleted small_json in_mebibytes not_ours

-- Fetches for reads are switched off, the rest is left to the defaults.
abbrev wish : Wish
wish = record {
  name = "ubi0";
  image_path = "/images/disk.raw";
  base_bdev = "malloc0";
  stripe_size_kb = 256;
  no_sync = none;
  copy_on_read = some false;
  directio = none;
}

create-wish_example :
    (rpc_bdev_ubi_create small_json (wish_members wish) all_well true blank).creation
    ≡ some (create all_well (some (wish_opts wish)) true blank)
create-wish_example = create-wish small_json (λ ms. ms) small_json-laws all_well true blank wish
