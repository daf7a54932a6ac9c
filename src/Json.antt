-- ===== src/Json.antt =====
-- The JSON functions of SPDK that src/lib/bdev_ubi_rpc.c and src/lib/bdev_ubi.c call. SPDK is not
-- part of the repository: the functions are the fields of `Json`, and what is relied on is `JsonLaws`.
use Prim.Native.String.{String}
use text.Mathlib.Text.{◌==◌}
use bdev_ubi.Prelude.{
  ℕ, ◌^◌, ◌≡◌, Bool, true, false, ◌&&◌, ◌||◌, not, List, [], ◌∷◌, ltb, if◌then◌else◌,
}

-- A value of a member.
pub data Value : Type 0 where
  text_value : String → Value
  number_value : ℕ → Value
  bool_value : Bool → Value

pub record Member : Type 0 where
  pub key : String
  pub value : Value

-- The decode function of an entry of a decoder table, with the field of `R` that `offsetof` names.
pub data Field (R : Type 0) : Type 0 where
  decode_string : (String → R → R) → Field R
  decode_uint32 : (ℕ → R → R) → Field R
  decode_bool : (Bool → R → R) → Field R

-- struct spdk_json_object_decoder
pub record Decoder (R : Type 0) : Type 0 where
  pub name : String
  pub field : Field R
  pub optional : Bool

-- The calls of the JSON writer.
pub data WriteCall : Type 0 where
  object_begin : WriteCall
  named_string : String → String → WriteCall
  named_object_begin : String → WriteCall
  named_uint32 : String → ℕ → WriteCall
  named_bool : String → Bool → WriteCall
  object_end : WriteCall

-- spdk_json_decode_object, whose first result says whether it failed, and the reader of a saved
-- configuration, which gives the method and its parameters. `P` stands for a parsed object.
pub record Json (P : Type 0) : Type 1 where
  pub decode_object : {R : Type 0} → P → List (Decoder R) → R → Bool × R
  pub load_config : List WriteCall → String × P

-- Whether a decode function takes a value.
unfoldable pub takes : {R : Type 0} → Field R → Value → Bool
takes (decode_string put) (text_value s) = true
takes (decode_uint32 put) (number_value n) = ltb n (2 ^ 32)
takes (decode_bool put) (bool_value b) = true
takes _ _ = false

unfoldable pub put_value : {R : Type 0} → Field R → Value → R → R
put_value (decode_string put) (text_value s) r = put s r
put_value (decode_uint32 put) (number_value n) r = put n r
put_value (decode_bool put) (bool_value b) r = put b r
put_value _ _ r = r

-- Whether some entry of a table has the name of a member and takes its value.
unfoldable pub known : {R : Type 0} → List (Decoder R) → Member → Bool
unfolding takes
known [] m = false
known (d ∷ table) m = if d.name == m.key then takes d.field m.value else known table m

unfoldable pub put_member : {R : Type 0} → List (Decoder R) → Member → R → R
unfolding put_value
put_member [] m r = r
put_member (d ∷ table) m r =
    if d.name == m.key then put_value d.field m.value r else put_member table m r

unfoldable pub has_key : String → List Member → Bool
has_key k [] = false
has_key k (m ∷ ms) = (m.key == k) || has_key k ms

unfoldable pub distinct_keys : List Member → Bool
unfolding has_key
distinct_keys [] = true
distinct_keys (m ∷ ms) = not (has_key m.key ms) && distinct_keys ms

unfoldable pub all_known : {R : Type 0} → List (Decoder R) → List Member → Bool
unfolding known
all_known table [] = true
all_known table (m ∷ ms) = known table m && all_known table ms

-- No member is missing but an optional one.
unfoldable pub none_missing : {R : Type 0} → List (Decoder R) → List Member → Bool
unfolding has_key
none_missing [] ms = true
none_missing (d ∷ table) ms = (d.optional || has_key d.name ms) && none_missing table ms

-- An object that a decoder table accepts.
abbrev pub accepts : {R : Type 0} → List (Decoder R) → List Member → Bool
accepts table ms = distinct_keys ms && all_known table ms && none_missing table ms

-- Each member is stored in the field of the entry with its name; the other fields stay.
unfoldable pub put_members : {R : Type 0} → List (Decoder R) → List Member → R → R
unfolding put_member
put_members table [] r = r
put_members table (m ∷ ms) r = put_members table ms (put_member table m r)

-- A member as it is written.
abbrev pub write_value : String → Value → WriteCall
write_value k (text_value s) = named_string k s
write_value k (number_value n) = named_uint32 k n
write_value k (bool_value b) = named_bool k b

abbrev pub write_members : List Member → List WriteCall
write_members [] = object_end ∷ object_end ∷ []
write_members (m ∷ ms) = write_value m.key m.value ∷ write_members ms

-- What SPDK documents: an object decodes exactly if the table accepts it, and the configuration of a
-- method is read back as it was written. `object` is the object with the given members.
pub record JsonLaws {P : Type 0} (json : Json P) (object : List Member → P) : Type 1 where
  pub decoded :
      {R : Type 0} (table : List (Decoder R)) (ms : List Member) (r : R)
      → accepts table ms ≡ true
      → json.decode_object (object ms) table r ≡ (false, put_members table ms r)
  pub refused :
      {R : Type 0} (table : List (Decoder R)) (ms : List Member) (r : R)
      → accepts table ms ≡ false
      → (json.decode_object (object ms) table r).0 ≡ true
  pub loaded :
      (method : String) (ms : List Member)
      → json.load_config (
          object_begin
          ∷ named_string "method" method
          ∷ named_object_begin "params"
          ∷ write_members ms)
        ≡ (method, object ms)
