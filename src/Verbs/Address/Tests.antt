-- ===== src/Verbs/Address/Tests.antt =====
-- One address.
use pplx_garden_cxi.Common.{ℕ, ◌≡◌, ◌↔◌, refl, some, List, [], ◌∷◌, arith}
use pplx_garden_cxi.Verbs.Address.{VerbsUdAddress, to_bytes, from_bytes, le_bytes, from_le_bytes}
use pplx_garden_cxi.Verbs.Address.Roundtrip.{address_lem}

abbrev here : VerbsUdAddress
here = record {
  gid = 254 ∷ 128 ∷ 0 ∷ 0 ∷ 0 ∷ 0 ∷ 0 ∷ 0 ∷ 1 ∷ 2 ∷ 3 ∷ 4 ∷ 5 ∷ 6 ∷ 7 ∷ 8 ∷ [];
  lid = 513;
  qp_num = 70000;
  qkey = 286331153;
}

last_bytes : le_bytes 4 70000 ≡ 112 ∷ 17 ∷ 1 ∷ 0 ∷ []
unfolding le_bytes
last_bytes = refl

abbrev raw : List ℕ
raw =
    254 ∷ 128 ∷ 0 ∷ 0 ∷ 0 ∷ 0 ∷ 0 ∷ 0 ∷ 1 ∷ 2 ∷ 3 ∷ 4 ∷ 5 ∷ 6 ∷ 7 ∷ 8 ∷ 1 ∷ 2 ∷ 112 ∷ 17 ∷ 1 ∷ 0
    ∷ 17 ∷ 17 ∷ 17 ∷ 17 ∷ []

raw_read : from_bytes raw ≡ some here
unfolding from_bytes from_le_bytes
raw_read = refl

address_lem_example : (from_bytes raw ≡ some here) ↔ (to_bytes here ≡ raw)
address_lem_example =
    address_lem here raw
      (record { gid = refl; lid = omega arith; qp_num = omega arith; qkey = omega arith })
      (omega arith)
