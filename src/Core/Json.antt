-- ===== src/Core/Json.antt =====
-- serde_json's `Value`. An object is its entries in the order of its map.
use Prim.Native.String.{compare}
use Prim.Native.Nat.{Ordering}
use openwork.Common.{ℕ, String, Bool, Option, none, some, str_eq, if◌then◌else◌}

mutual
  pub data Value : Type 0 where
    null : Value
    bool : Bool → Value
    -- `Number`: an integer of i64 or u64, from 0 or below, or a float by its text
    integer : ℕ → Value
    negative : ℕ → Value
    float : String → Value
    string : String → Value
    array : Values → Value
    object : Entries → Value

  pub data Values : Type 0 where
    nil : Values
    cons : Value → Values → Values

  pub data Entries : Type 0 where
    end : Entries
    entry : String → Value → Entries → Entries

unfoldable pub get_entry : String → Entries → Option Value
get_entry k end = none
get_entry k (entry j v es) = if str_eq j k then some v else get_entry k es

-- `BTreeMap<String, Value>::insert`: by the order of the keys, the last value of a key kept
unfoldable pub insert_entry : String → Value → Entries → Entries
insert_entry k v end = entry k v end
insert_entry k v (entry j w es) =
    let rest = insert_entry k v es in
    elim (compare k j) [
      | Ordering.lt ↦ entry k v (entry j w es)
      | Ordering.eq ↦ entry k v es
      | Ordering.gt ↦ entry j w rest
    ]

-- `Value::as_str`
abbrev pub as_str : Value → Option String
as_str (string s) = some s
as_str _ = none
