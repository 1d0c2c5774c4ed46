-- ===== src/Cbor.antt =====
-- The values and the encoder of kernel/conversations/cbor.rs. A float is the 64 bits of its
-- binary64 form, a string the bytes of its UTF-8 form.
pub mod Utf8
pub mod Bytes
pub mod Decode
pub mod Valid
pub mod Headers
pub mod RoundTrip
pub mod Extend
pub mod Widened
pub mod Sound
mod Tests
use Prim.Native.Nat.{bit_or}
use citadel_agent.Prelude.{
  ℕ, zero, suc, ◌+◌, ◌*◌, ◌/◌, ◌%◌, ◌^◌, Bool, true, false, Option, none, some, List, [], ◌∷◌, ◌++◌,
  leb, if◌then◌else◌, length,
}
use citadel_agent.Text.{Text, ◌=ₜ◌}

-- How many bytes follow an initial byte.
pub data Width : Type 0 where
  inline one two four eight : Width

-- `Items` and `Entries` are the lists inside an array and a map. The number of `nint` is -1 - n.
mutual
  pub data Value : Type 0 where
    uint nint : ℕ → Width → Value
    blob : List ℕ → Value
    str : Text → Value
    array : Items → Value
    object : Entries → Width → Value
    tag : ℕ → Value → Value
    boolean : Bool → Value
    null undefined : Value
    float : ℕ → Value

  pub data Items : Type 0 where
    no_items : Items
    item : Value → Items → Items

  pub data Entries : Type 0 where
    no_entries : Entries
    field : Value → Value → Entries → Entries

-- A JS bigint.
abbrev pub bigint : ℕ → Value
bigint n = uint n eight

-- The entries of an object literal, in order.
abbrev pub entries_of : List (Text × Value) → Entries
entries_of [] = no_entries
entries_of ((k, v) ∷ fields) = field (str k) v (entries_of fields)

abbrev pub object_of : List (Text × Value) → Value
object_of fields = object (entries_of fields) two

abbrev pub is_key : Text → Value → Bool
is_key key (str t) = t =ₜ key
is_key key _ = false

abbrev pub find_entry : Text → Entries → Option Value
find_entry key no_entries = none
find_entry key (field k v es) =
    let later = find_entry key es in if is_key key k then some v else later

abbrev pub get : Value → Text → Option Value
get (object es w) key = find_entry key es
get _ key = none

abbrev pub as_str : Value → Option Text
as_str (str t) = some t
as_str _ = none

abbrev pub as_bigint : Value → Option ℕ
as_bigint (uint n eight) = some n
as_bigint _ = none

abbrev pub as_bool : Value → Option Bool
as_bool (boolean b) = some b
as_bool _ = none

abbrev pub minimal : ℕ → Width
minimal n =
    if leb n 23
    then inline
    else if leb n 0xff
    then one
    else if leb n 0xffff
    then two
    else if leb n 0xffffffff
    then four
    else eight

-- The last `k` bytes of a number, the highest first.
abbrev pub to_be_bytes : ℕ → ℕ → List ℕ
to_be_bytes zero n = []
to_be_bytes (suc k) n = to_be_bytes k (n / 256) ++ n % 256 ∷ []

-- `major << 5` of a `u8`.
abbrev pub major_bits : ℕ → ℕ
major_bits major = major * 2 ^ 5 % 256

abbrev pub head : ℕ → ℕ → Width → List ℕ
head major n inline = bit_or (major_bits major) (n % 256) ∷ []
head major n one = bit_or (major_bits major) 24 ∷ n % 256 ∷ []
head major n two = bit_or (major_bits major) 25 ∷ to_be_bytes 2 (n % 2 ^ 16)
head major n four = bit_or (major_bits major) 26 ∷ to_be_bytes 4 (n % 2 ^ 32)
head major n eight = bit_or (major_bits major) 27 ∷ to_be_bytes 8 n

abbrev pub count_items : Items → ℕ
count_items no_items = 0
count_items (item v vs) = suc (count_items vs)

abbrev pub count_entries : Entries → ℕ
count_entries no_entries = 0
count_entries (field k v es) = suc (count_entries es)

abbrev pub simple : Bool → ℕ
simple false = 0xf4
simple true = 0xf5

unfoldable mutual
  pub write : Value → List ℕ
  write (uint n w) = head 0 n w
  write (nint n w) = head 1 n w
  write (blob b) = head 2 (length b) (minimal (length b)) ++ b
  write (str t) = head 3 (length t) (minimal (length t)) ++ t
  write (array vs) = head 4 (count_items vs) (minimal (count_items vs)) ++ write_items vs
  write (object es w) = head 5 (count_entries es) w ++ write_entries es
  write (tag t v) = head 6 t (minimal t) ++ write v
  write (boolean b) = simple b ∷ []
  write null = 0xf6 ∷ []
  write undefined = 0xf7 ∷ []
  write (float f) = 0xfb ∷ to_be_bytes 8 f

  pub write_items : Items → List ℕ
  write_items no_items = []
  write_items (item v vs) = write v ++ write_items vs

  pub write_entries : Entries → List ℕ
  write_entries no_entries = []
  write_entries (field k v es) = write k ++ (write v ++ write_entries es)

unfoldable pub encode : Value → List ℕ
unfolding write
encode v = write v
