-- ===== src/Verbs/Address/Roundtrip.antt =====
-- An address is its bytes: each of `to_bytes` and `from_bytes` undoes the other.
use pplx_garden_cxi.Common.{
  ℕ, zero, suc, ◌+◌, ◌*◌, ◌/◌, ◌%◌, ◌^◌, ◌<◌, ◌≤◌, ◌≡◌, ◌↔◌, refl, sym, ◌∙◌, ap, some, List, [],
  ◌∷◌, ◌++◌, arith, ◌==◌, length, length-append, length-take, length-drop, take-append-drop,
  All-take, All-drop, take, drop, All, Bool-cases, inl, inr,
}
use pplx_garden_cxi.Verbs.Address.{VerbsUdAddress, le_bytes, from_le_bytes, to_bytes, from_bytes}

-- the fields in the ranges of their types
pub record IsAddress (a : VerbsUdAddress) : Type 0 where
  pub gid : length a.gid ≡ 16
  pub lid : a.lid < 2 ^ 16
  pub qp_num : a.qp_num < 2 ^ 32
  pub qkey : a.qkey < 2 ^ 32

length-le_bytes : (count n : ℕ) → length (le_bytes count n) ≡ count
unfolding le_bytes
length-le_bytes zero n = refl
length-le_bytes (suc count) n = ap suc (length-le_bytes count (n / 256))

two_bytes : (n : ℕ) → n < 2 ^ 16 → from_le_bytes (le_bytes 2 n) ≡ n
unfolding le_bytes from_le_bytes
two_bytes n h = omega arith

four_bytes : (n : ℕ) → n < 2 ^ 32 → from_le_bytes (le_bytes 4 n) ≡ n
unfolding le_bytes from_le_bytes
four_bytes n h = omega arith

take-append : (n : ℕ) (xs ys : List ℕ) → length xs ≡ n → take n (xs ++ ys) ≡ xs
take-append zero [] ys e = refl
take-append zero (x ∷ xs) ys e = absurd (omega arith)
take-append (suc n) [] ys e = absurd (omega arith)
take-append (suc n) (x ∷ xs) ys e = ap (λ l. x ∷ l) (take-append n xs ys (omega arith))

take-all : (n : ℕ) (xs : List ℕ) → length xs ≡ n → take n xs ≡ xs
take-all zero [] e = refl
take-all zero (x ∷ xs) e = absurd (omega arith)
take-all (suc n) [] e = absurd (omega arith)
take-all (suc n) (x ∷ xs) e = ap (λ l. x ∷ l) (take-all n xs (omega arith))

drop-append : (k m : ℕ) (xs ys : List ℕ) → k ≡ length xs + m → drop k (xs ++ ys) ≡ drop m ys
drop-append k m [] ys e = let same : k ≡ m = omega arith in rw same refl
drop-append zero m (x ∷ xs) ys e = absurd (omega arith)
drop-append (suc k) m (x ∷ xs) ys e = drop-append k m xs ys (omega arith)

from_bytes-to_bytes : (a : VerbsUdAddress) → IsAddress a → from_bytes (to_bytes a) ≡ some a
unfolding from_bytes to_bytes
from_bytes-to_bytes a h =
    let l = le_bytes 2 a.lid in
    let q = le_bytes 4 a.qp_num in
    let k = le_bytes 4 a.qkey in
    let ll = length-le_bytes 2 a.lid in
    let lq = length-le_bytes 4 a.qp_num in
    let lk = length-le_bytes 4 a.qkey in
    let whole : length (a.gid ++ (l ++ (q ++ k))) ≡ 26 = omega (
      arith,
      length-append a.gid (l ++ (q ++ k)),
      length-append l (q ++ k),
      length-append q k,
      h.gid,
    ) in
    let gid : take 16 (a.gid ++ (l ++ (q ++ k))) ≡ a.gid =
      take-append 16 a.gid (l ++ (q ++ k)) h.gid in
    let after_gid : drop 16 (a.gid ++ (l ++ (q ++ k))) ≡ l ++ (q ++ k) =
      drop-append 16 0 a.gid (l ++ (q ++ k)) (omega (arith, h.gid)) in
    let after_lid : drop 18 (a.gid ++ (l ++ (q ++ k))) ≡ q ++ k =
      drop-append 18 2 a.gid (l ++ (q ++ k)) (omega (arith, h.gid))
      ∙ drop-append 2 0 l (q ++ k) (omega arith) in
    let after_qp : drop 22 (a.gid ++ (l ++ (q ++ k))) ≡ k =
      drop-append 22 6 a.gid (l ++ (q ++ k)) (omega (arith, h.gid))
      ∙ drop-append 6 4 l (q ++ k) (omega arith)
      ∙ drop-append 4 0 q k (omega arith) in
    let lid : from_le_bytes (take 2 (drop 16 (a.gid ++ (l ++ (q ++ k))))) ≡ a.lid =
      ap (λ bs. from_le_bytes (take 2 bs)) after_gid
      ∙ ap from_le_bytes (take-append 2 l (q ++ k) ll)
      ∙ two_bytes a.lid h.lid in
    let qp : from_le_bytes (take 4 (drop 18 (a.gid ++ (l ++ (q ++ k))))) ≡ a.qp_num =
      ap (λ bs. from_le_bytes (take 4 bs)) after_lid
      ∙ ap from_le_bytes (take-append 4 q k lq)
      ∙ four_bytes a.qp_num h.qp_num in
    let key : from_le_bytes (take 4 (drop 22 (a.gid ++ (l ++ (q ++ k))))) ≡ a.qkey =
      ap (λ bs. from_le_bytes (take 4 bs)) after_qp
      ∙ ap from_le_bytes (take-all 4 k lk)
      ∙ four_bytes a.qkey h.qkey in
    ground (arith, whole, gid, lid, qp, key)

le_bytes-from :
    (bytes : List ℕ) (count : ℕ)
    → length bytes ≡ count
    → All (λ b. b < 256) bytes
    → le_bytes count (from_le_bytes bytes) ≡ bytes
unfolding le_bytes from_le_bytes
le_bytes-from [] zero e h = refl
le_bytes-from [] (suc count) e h = absurd (omega arith)
le_bytes-from (b ∷ bytes) zero e h = absurd (omega arith)
le_bytes-from (b ∷ bytes) (suc count) e h =
    let small = h.0 in
    let low : (b + 256 * from_le_bytes bytes) % 256 ≡ b = omega arith in
    let high : (b + 256 * from_le_bytes bytes) / 256 ≡ from_le_bytes bytes = omega arith in
    rw (low, high) (ap (λ l. b ∷ l) (le_bytes-from bytes count (omega arith) h.1))

drop-nil : (n : ℕ) → drop {A = ℕ} n [] ≡ []
drop-nil zero = refl
drop-nil (suc n) = refl

drop-drop : (k n m : ℕ) (xs : List ℕ) → k ≡ n + m → drop m (drop n xs) ≡ drop k xs
drop-drop k zero m xs e = ap (λ i. drop i xs) (omega arith)
drop-drop zero (suc n) m xs e = absurd (omega arith)
drop-drop (suc k) (suc n) m [] e = drop-nil m
drop-drop (suc k) (suc n) m (x ∷ xs) e = drop-drop k n m xs (omega arith)

-- What `le_bytes` writes of a number that was read from the first bytes, and the rest.
piece :
    (n : ℕ) (bytes rest : List ℕ)
    → n ≤ length bytes
    → All (λ b. b < 256) bytes
    → drop n bytes ≡ rest
    → le_bytes n (from_le_bytes (take n bytes)) ++ rest ≡ bytes
piece n bytes rest fits small e =
    ap (λ l. l ++ rest)
      (le_bytes-from (take n bytes) n (length-take n bytes ∙ omega arith)
        (All-take (λ b. b < 256) n bytes small))
    ∙ ap (λ r. take n bytes ++ r) (sym e)
    ∙ take-append-drop n bytes

module _ (bytes : List ℕ) (small : All (λ b. b < 256) bytes) (size : length bytes ≡ 26) where
  fields_back :
      take 16 bytes
        ++ (le_bytes 2 (from_le_bytes (take 2 (drop 16 bytes)))
            ++ (le_bytes 4 (from_le_bytes (take 4 (drop 18 bytes)))
                ++ le_bytes 4 (from_le_bytes (take 4 (drop 22 bytes)))))
      ≡ bytes
  fields_back =
      let rest = λ (n : ℕ). All-drop (λ b. b < 256) n bytes small in
      let l16 = length-drop 16 bytes in
      let l18 = length-drop 18 bytes in
      let l22 = length-drop 22 bytes in
      let four : length (drop 22 bytes) ≡ 4 = omega arith in
      let last : le_bytes 4 (from_le_bytes (take 4 (drop 22 bytes))) ≡ drop 22 bytes =
        ap (λ l. le_bytes 4 (from_le_bytes l)) (take-all 4 (drop 22 bytes) four)
        ∙ le_bytes-from (drop 22 bytes) 4 four (rest 22) in
      let third : le_bytes 4 (from_le_bytes (take 4 (drop 18 bytes))) ++ drop 22 bytes
          ≡ drop 18 bytes =
        piece 4 (drop 18 bytes) (drop 22 bytes) (omega arith) (rest 18)
          (drop-drop 22 18 4 bytes refl) in
      let second : le_bytes 2 (from_le_bytes (take 2 (drop 16 bytes))) ++ drop 18 bytes
          ≡ drop 16 bytes =
        piece 2 (drop 16 bytes) (drop 18 bytes) (omega arith) (rest 16)
          (drop-drop 18 16 2 bytes refl) in
      rw (last, third, second) (take-append-drop 16 bytes)

to_bytes-from_bytes :
    (bytes : List ℕ) (a : VerbsUdAddress)
    → All (λ b. b < 256) bytes
    → from_bytes bytes ≡ some a
    → to_bytes a ≡ bytes
unfolding from_bytes to_bytes
to_bytes-from_bytes bytes a small e = elim (Bool-cases (length bytes == 26)) [
  | inl full ↦
      let size : length bytes ≡ 26 = ground arith in
      let back = fields_back bytes small size in
      let read = rw full at e in sym (ap to_bytes (unwrap read)) ∙ back
  | inr other ↦ absurd (ground arith)
]
  where
    unwrap : {x y : VerbsUdAddress} → some x ≡ some y → x ≡ y
    unwrap q = cc

-- An address with its fields in range, and bytes: the bytes are read as the address exactly if
-- the address is written as the bytes. So each way round gives back what it started from.
pub address_lem :
    (a : VerbsUdAddress) (bytes : List ℕ)
    → IsAddress a
    → All (λ b. b < 256) bytes
    → (from_bytes bytes ≡ some a) ↔ (to_bytes a ≡ bytes)
address_lem a bytes h small =
    (to_bytes-from_bytes bytes a small, λ e. ap from_bytes (sym e) ∙ from_bytes-to_bytes a h)
