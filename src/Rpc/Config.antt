-- ===== src/Rpc/Config.antt =====
-- A saved configuration creates the bdev again.
use Prim.Native.String.{String}
use bdev_ubi.Prelude.{
  ℕ, Bool-cases, inl, inr, if◌then◌else◌, ◌<◌, ◌^◌, ◌≡◌, refl, ap, ◌∙◌, Bool, true, false, ◌&&◌,
  Option, none, some, List, [], ◌∷◌, ltb, arith,
}
use bdev_ubi.Layout.{Layout}
use bdev_ubi.Metadata.{Metadata}
use bdev_ubi.Create
use bdev_ubi.Create.{Opts, configured, create}
use bdev_ubi.Json.{
  Json, JsonLaws, text_value, number_value, bool_value, Member, accepts, has_key, put_members,
  put_member, put_value, known, takes, distinct_keys, all_known, none_missing,
}
use bdev_ubi.Rpc.{
  rpc_construct_ubi_decoders, default_params, opts_of, decode_failed, rpc_bdev_ubi_create, Labelled,
  ubi_write_config_json,
}

-- The options that a bdev was created with.
abbrev pub saved_opts : Labelled → Opts
saved_opts l = record {
  name = some l.name;
  image_path = some l.image_path;
  base_bdev_name = some l.base_bdev;
  stripe_size_kb = l.bdev.stripe_size_kb;
  no_sync = l.bdev.no_sync;
  copy_on_read = l.bdev.copy_on_read;
  directio = l.bdev.directio;
}

-- The parameters that are saved.
abbrev saved_members : Labelled → List Member
saved_members l =
    record { key = "name"; value = text_value l.name }
    ∷ record { key = "base_bdev"; value = text_value l.base_bdev }
    ∷ record { key = "image_path"; value = text_value l.image_path }
    ∷ record { key = "stripe_size_kb"; value = number_value l.bdev.stripe_size_kb }
    ∷ record { key = "copy_on_read"; value = bool_value l.bdev.copy_on_read }
    ∷ record { key = "directio"; value = bool_value l.bdev.directio }
    ∷ record { key = "no_sync"; value = bool_value l.bdev.no_sync }
    ∷ []

saved-accepts :
    (l : Labelled)
    → l.bdev.stripe_size_kb < 2 ^ 32
    → accepts rpc_construct_ubi_decoders (saved_members l) ≡ true
unfolding rpc_construct_ubi_decoders has_key known takes distinct_keys all_known none_missing
saved-accepts l h = ground arith

put_members-saved :
    (l : Labelled)
    → opts_of (put_members rpc_construct_ubi_decoders (saved_members l) default_params)
      ≡ saved_opts l
unfolding rpc_construct_ubi_decoders put_members put_member put_value default_params
put_members-saved l = refl

-- An optional flag of a request.
abbrev pub flag : String → Option Bool → List Member → List Member
flag k none ms = ms
flag k (some b) ms = record { key = k; value = bool_value b } ∷ ms

abbrev pub given : Bool → Option Bool → Bool
given default none = default
given default (some b) = b

-- What a client may ask for.
pub record Wish : Type 0 where
  pub name : String
  pub image_path : String
  pub base_bdev : String
  pub stripe_size_kb : ℕ
  pub no_sync : Option Bool
  pub copy_on_read : Option Bool
  pub directio : Option Bool

abbrev pub wish_members : Wish → List Member
wish_members w =
    record { key = "name"; value = text_value w.name }
    ∷ record { key = "image_path"; value = text_value w.image_path }
    ∷ record { key = "base_bdev"; value = text_value w.base_bdev }
    ∷ record { key = "stripe_size_kb"; value = number_value w.stripe_size_kb }
    ∷ flag "no_sync" w.no_sync (flag "copy_on_read" w.copy_on_read (flag "directio" w.directio []))

-- The options for a wish, with the defaults of README.md.
abbrev pub wish_opts : Wish → Opts
wish_opts w = record {
  name = some w.name;
  image_path = some w.image_path;
  base_bdev_name = some w.base_bdev;
  stripe_size_kb = w.stripe_size_kb;
  no_sync = given false w.no_sync;
  copy_on_read = given true w.copy_on_read;
  directio = given true w.directio;
}

wish-accepts :
    (w : Wish) → accepts rpc_construct_ubi_decoders (wish_members w) ≡ ltb w.stripe_size_kb (2 ^ 32)
unfolding rpc_construct_ubi_decoders has_key known takes distinct_keys all_known none_missing
wish-accepts w = ground arith

put_members-wish :
    (w : Wish)
    → opts_of (put_members rpc_construct_ubi_decoders (wish_members w) default_params) ≡ wish_opts w
unfolding rpc_construct_ubi_decoders put_members put_member put_value default_params
put_members-wish w = ground arith

-- The four members that a request must have.
abbrev pub complete : List Member → Bool
complete ms =
    has_key "name" ms
    && has_key "image_path" ms
    && has_key "base_bdev" ms
    && has_key "stripe_size_kb" ms

incomplete-accepts :
    (ms : List Member) → complete ms ≡ false → none_missing rpc_construct_ubi_decoders ms ≡ false
unfolding rpc_construct_ubi_decoders none_missing
incomplete-accepts ms h = ground (arith, h)

module _ {P : Type 0} (json : Json P) (object : List Member → P) (laws : JsonLaws json object)
    (a : Create.Answers) (success : Bool) (m : Metadata) where
  -- With a JSON library as SPDK documents it: a request without a name, an image_path, a base_bdev or a
  -- stripe_size_kb is answered by an error, and no creation is started.
  pub create-incomplete :
      (ms : List Member)
      → complete ms ≡ false
      → ((rpc_bdev_ubi_create json (object ms) a success m).responses ≡ decode_failed ∷ [])
        × ((rpc_bdev_ubi_create json (object ms) a success m).creation ≡ none)
  unfolding rpc_bdev_ubi_create
  create-incomplete ms h =
      let missing = incomplete-accepts ms h in
      let refused =
        laws.refused rpc_construct_ubi_decoders ms default_params (ground (arith, missing)) in
      (rw refused refl, rw refused refl)

  -- With a JSON library as SPDK documents it: the configuration that ubi_write_config_json writes for a
  -- bdev, with a stripe size of 32 bits, is read back as a call of bdev_ubi_create, which hands the
  -- options of the bdev to the creation; and a bdev that is configured from these options, with the
  -- same names, has the same configuration written.
  pub config-recreates :
      (l : Labelled) (answers : Create.Answers) (layout : Layout)
      → l.bdev.stripe_size_kb < 2 ^ 32
      → let (method, params) = json.load_config (ubi_write_config_json l) in
        (method ≡ "bdev_ubi_create")
        × ((rpc_bdev_ubi_create json params a success m).creation
            ≡ some (create a (some (saved_opts l)) success m))
        × (ubi_write_config_json (record l { bdev = configured answers (saved_opts l) layout })
            ≡ ubi_write_config_json l)
  unfolding rpc_bdev_ubi_create ubi_write_config_json configured
  config-recreates l answers layout h =
      let loaded = laws.loaded "bdev_ubi_create" (saved_members l) in
      let stored =
        laws.decoded rpc_construct_ubi_decoders (saved_members l) default_params
          (saved-accepts l h) in
      (
        ap (λ p. p.0) loaded,
        rw (loaded, stored) (ap (λ o. some (create a (some o) success m)) (put_members-saved l)),
        refl,
      )

  -- With a JSON library as SPDK documents it: a request with the four members that are required and
  -- any of the three flags starts a creation exactly if the stripe size has at most 32 bits, with the
  -- options asked for, and false for no_sync, true for copy_on_read and true for directio where these
  -- are not given.
  pub create-wish :
      (w : Wish)
      → (rpc_bdev_ubi_create json (object (wish_members w)) a success m).creation ≡ (
          if ltb w.stripe_size_kb (2 ^ 32)
          then some (create a (some (wish_opts w)) success m)
          else none)
  unfolding rpc_bdev_ubi_create
  create-wish w = elim (Bool-cases (ltb w.stripe_size_kb (2 ^ 32))) [
    | inl h ↦
        let stored =
          laws.decoded rpc_construct_ubi_decoders (wish_members w) default_params
            (wish-accepts w ∙ h) in
        rw (h, stored) (ap (λ o. some (create a (some o) success m)) (put_members-wish w))
    | inr h ↦
        let refused =
          laws.refused rpc_construct_ubi_decoders (wish_members w) default_params
            (wish-accepts w ∙ h) in
        rw (h, refused) refl
  ]
