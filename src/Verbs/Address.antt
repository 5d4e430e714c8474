-- ===== src/Verbs/Address.antt =====
-- fabric-lib/src/verbs/verbs_address.rs: the address of a verbs domain, as its bytes.
pub mod Roundtrip
mod Tests
use pplx_garden_cxi.Common.{
  ℕ, zero, suc, ◌+◌, ◌*◌, ◌/◌, ◌%◌, Option, none, some, List, [], ◌∷◌, ◌++◌, ◌==◌, if◌then◌else◌,
  length, take, drop,
}

-- `gid` is the 16 bytes of the `Gid`.
pub record VerbsUdAddress : Type 0 where
  pub gid : List ℕ
  pub lid : ℕ
  pub qp_num : ℕ
  pub qkey : ℕ

-- `to_le_bytes` and `from_le_bytes` of an integer of `count` bytes
unfoldable pub le_bytes : (count n : ℕ) → List ℕ
le_bytes zero n = []
le_bytes (suc count) n = (n % 256) ∷ le_bytes count (n / 256)

unfoldable pub from_le_bytes : List ℕ → ℕ
from_le_bytes [] = 0
from_le_bytes (b ∷ bs) = b + 256 * from_le_bytes bs

abbrev pub ud_address_bytes : ℕ
ud_address_bytes = 26

unfoldable pub to_bytes : VerbsUdAddress → List ℕ
to_bytes a = a.gid ++ (le_bytes 2 a.lid ++ (le_bytes 4 a.qp_num ++ le_bytes 4 a.qkey))

unfoldable pub from_bytes : List ℕ → Option VerbsUdAddress
from_bytes bytes =
    if length bytes == ud_address_bytes
    then some (record {
      gid = take 16 bytes;
      lid = from_le_bytes (take 2 (drop 16 bytes));
      qp_num = from_le_bytes (take 4 (drop 18 bytes));
      qkey = from_le_bytes (take 4 (drop 22 bytes));
    })
    else none
