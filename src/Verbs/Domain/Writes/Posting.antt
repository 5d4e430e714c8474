-- ===== src/Verbs/Domain/Writes/Posting.antt =====
-- The loop that posts the work requests of a context, in fabric-lib/src/verbs/verbs_domain.rs.
use pplx_garden_cxi.Common.{
  ℕ, zero, suc, ◌+◌, ◌<◌, ◌≡◌, refl, ap, ◌∙◌, inl, inr, false, Option, none, some, ◌==◌, Bool-cases,
  if◌then◌else◌, arith,
}
use pplx_garden_cxi.Api.{Result, ok, err, panicked}
use pplx_garden_cxi.Verbs.{Peeked, wr_chain_len}
use pplx_garden_cxi.Verbs.Iter
use pplx_garden_cxi.Verbs.Iter.{WriteOpIter}
use pplx_garden_cxi.Verbs.Domain.Host.{Host, PostResult, posted, no_memory, refused}
use pplx_garden_cxi.Verbs.Domain.Writes.{
  WriteOpContext, move_on, on_no_memory, count_until, buffer_of, post_loop,
  progress_rdma_write_op_context,
}

-- posting changes what is left to post and the count, and nothing else of a context
abbrev pub Moved : WriteOpContext → WriteOpContext → Type 0
Moved c c' =
    (it : WriteOpIter) × (n : ℕ) × (c' ≡ record c { rdma_op_iter = it; cnt_posted_ops = n })

by_advance :
    (n : ℕ) (c : WriteOpContext) (r : Result (Unit {0}))
    → (Iter.advance n c.rdma_op_iter).0 ≡ r
    → Moved c (move_on n c).1
unfolding move_on
by_advance n c (ok tt) e =
    ((Iter.advance n c.rdma_op_iter).1, c.cnt_posted_ops + n, ground (arith, e))
by_advance n c (err x) e = ((Iter.advance n c.rdma_op_iter).1, c.cnt_posted_ops, ground (arith, e))
by_advance n c panicked e = ((Iter.advance n c.rdma_op_iter).1, c.cnt_posted_ops, ground (arith, e))

move_on-Moved : (n : ℕ) (c : WriteOpContext) → Moved c (move_on n c).1
move_on-Moved n c = by_advance n c (Iter.advance n c.rdma_op_iter).0 refl

Moved-trans : (a : WriteOpContext) {b c : WriteOpContext} → Moved a b → Moved b c → Moved a c
Moved-trans a (it, n, e) (it', n', e') =
    let changed : WriteOpContext → WriteOpContext =
      λ x. record x { rdma_op_iter = it'; cnt_posted_ops = n' } in
    (it', n', e' ∙ ap changed e)

by_count :
    (head : Option ℕ) (bad_wr : ℕ) (c : WriteOpContext) (r : Option ℕ)
    → count_until (suc wr_chain_len) (buffer_of c.rdma_op_iter) head bad_wr 0 ≡ r
    → Moved c (on_no_memory head bad_wr c).1
unfolding on_no_memory
by_count head bad_wr c none e = (c.rdma_op_iter, c.cnt_posted_ops, ground (arith, e))
by_count head bad_wr c (some cnt) e =
    let (it, n, same) = move_on-Moved cnt c in (it, n, ground (arith, e, same))

on_no_memory-Moved :
    (head : Option ℕ) (bad_wr : ℕ) (c : WriteOpContext) → Moved c (on_no_memory head bad_wr c).1
on_no_memory-Moved head bad_wr c =
    by_count head bad_wr c (count_until (suc wr_chain_len) (buffer_of c.rdma_op_iter) head bad_wr 0)
      refl

module _ {N : Type 0} (H : Host N) where
  pub post_loop-full :
      (rounds : ℕ) (c : WriteOpContext) (n : N) (qp len : ℕ) (head : Option ℕ)
      → (Iter.peek c.rdma_op_iter).0 ≡ ok (qp, head, len)
      → len ≡ 0
      → post_loop H (suc rounds) c n ≡ (ok tt, c, n)
  unfolding post_loop
  post_loop-full rounds c n qp len head shown none' = ground (arith, shown, none')

  abbrev sent : (qp : ℕ) → Option ℕ → WriteOpContext → N → PostResult × N
  sent qp head c n = H.post_send qp (buffer_of c.rdma_op_iter) head n

  pub post_loop-posted :
      (rounds : ℕ) (c : WriteOpContext) (n : N) (qp len : ℕ) (head : Option ℕ)
      → (Iter.peek c.rdma_op_iter).0 ≡ ok (qp, head, len)
      → 0 < len
      → (sent qp head c n).0 ≡ posted
      → (move_on len c).0 ≡ ok tt
      → post_loop H (suc rounds) c n ≡ post_loop H rounds (move_on len c).1 (sent qp head c n).1
  unfolding post_loop
  post_loop-posted rounds c n qp len head shown some' sends moves =
      ground (arith, shown, sends, moves)

  pub post_loop-busy :
      (rounds : ℕ) (c : WriteOpContext) (n : N) (qp len bad_wr : ℕ) (head : Option ℕ)
      → (Iter.peek c.rdma_op_iter).0 ≡ ok (qp, head, len)
      → 0 < len
      → (sent qp head c n).0 ≡ no_memory bad_wr
      → post_loop H (suc rounds) c n
        ≡ ((on_no_memory head bad_wr c).0, (on_no_memory head bad_wr c).1, (sent qp head c n).1)
  unfolding post_loop
  post_loop-busy rounds c n qp len bad_wr head shown some' sends = ground (arith, shown, sends)

  -- what one round comes to
  data Round (rounds : ℕ) (c : WriteOpContext)
      : Result (Unit {0}) × WriteOpContext × N → Type 0 where
    stops : (r : Result (Unit {0})) (n : N) → Round rounds c (r, c, n)
    fails : (r : Result (Unit {0})) (len : ℕ) (n : N) → Round rounds c (r, (move_on len c).1, n)
    waits :
        (r : Result (Unit {0})) (head : Option ℕ) (bad_wr : ℕ) (n : N)
        → Round rounds c (r, (on_no_memory head bad_wr c).1, n)
    goes_on : (len : ℕ) (n : N) → Round rounds c (post_loop H rounds (move_on len c).1 n)

  module _ (rounds : ℕ) (c : WriteOpContext) (n : N) where
    Here : Type 0
    Here = Round rounds c (post_loop H (suc rounds) c n)

    by_moved :
        (qp len : ℕ) (head : Option ℕ) (r : Result (Unit {0}))
        → (Iter.peek c.rdma_op_iter).0 ≡ ok (qp, head, len)
        → (len == 0) ≡ false
        → (sent qp head c n).0 ≡ posted
        → (move_on len c).0 ≡ r
        → Here
    unfolding Here post_loop
    by_moved qp len head (ok tt) e some' s m =
        let path = post_loop-posted rounds c n qp len head e (ground arith) s m in
        rw path (goes_on len (sent qp head c n).1)
    by_moved qp len head (err x) e some' s m =
        let path : post_loop H (suc rounds) c n ≡ (err x, (move_on len c).1, (sent qp head c n).1) =
          ground (arith, e, some', s, m) in
        rw path (fails (err x) len (sent qp head c n).1)
    by_moved qp len head panicked e some' s m =
        let path : post_loop H (suc rounds) c n
            ≡ (panicked, (move_on len c).1, (sent qp head c n).1) =
          ground (arith, e, some', s, m) in
        rw path (fails panicked len (sent qp head c n).1)

    by_sent :
        (qp len : ℕ) (head : Option ℕ) (r : PostResult)
        → (Iter.peek c.rdma_op_iter).0 ≡ ok (qp, head, len)
        → (len == 0) ≡ false
        → (sent qp head c n).0 ≡ r
        → Here
    unfolding Here post_loop
    by_sent qp len head posted e some' s = by_moved qp len head (move_on len c).0 e some' s refl
    by_sent qp len head (no_memory bad_wr) e some' s =
        let path = post_loop-busy rounds c n qp len bad_wr head e (ground arith) s in
        rw path (waits (on_no_memory head bad_wr c).0 head bad_wr (sent qp head c n).1)
    by_sent qp len head (refused code) e some' s =
        let path : post_loop H (suc rounds) c n ≡ (panicked, c, (sent qp head c n).1) =
          ground (arith, e, some', s) in
        rw path (stops panicked (sent qp head c n).1)

    by_peek : (r : Result Peeked) → (Iter.peek c.rdma_op_iter).0 ≡ r → Here
    unfolding Here post_loop
    by_peek (ok (qp, head, len)) e = elim (Bool-cases (len == 0)) [
      | inl none' ↦
          let path = post_loop-full rounds c n qp len head e (ground arith) in
          rw path (stops (ok tt) n)
      | inr some' ↦ by_sent qp len head (sent qp head c n).0 e some' refl
    ]
    by_peek (err x) e =
        let path : post_loop H (suc rounds) c n ≡ (err x, c, n) = ground (arith, e) in
        rw path (stops (err x) n)
    by_peek panicked e =
        let path : post_loop H (suc rounds) c n ≡ (panicked, c, n) = ground (arith, e) in
        rw path (stops panicked n)

    round_lem : Round rounds c (post_loop H (suc rounds) c n)
    unfolding Here
    round_lem = by_peek (Iter.peek c.rdma_op_iter).0 refl

  Round-Moved :
      (rounds : ℕ) (c : WriteOpContext) (out : Result (Unit {0}) × WriteOpContext × N)
      → ((c' : WriteOpContext) (n : N) → Moved c' (post_loop H rounds c' n).1)
      → Round rounds c out
      → Moved c out.1
  Round-Moved rounds c out ih (stops r n) = (c.rdma_op_iter, c.cnt_posted_ops, refl)
  Round-Moved rounds c out ih (fails r len n) = move_on-Moved len c
  Round-Moved rounds c out ih (waits r head bad_wr n) = on_no_memory-Moved head bad_wr c
  Round-Moved rounds c out ih (goes_on len n) =
      Moved-trans c (move_on-Moved len c) (ih (move_on len c).1 n)

  post_loop-Moved : (rounds : ℕ) (c : WriteOpContext) (n : N) → Moved c (post_loop H rounds c n).1
  unfolding post_loop
  post_loop-Moved zero c n = (c.rdma_op_iter, c.cnt_posted_ops, refl)
  post_loop-Moved (suc rounds) c n =
      Round-Moved rounds c (post_loop H (suc rounds) c n) (post_loop-Moved rounds)
        (round_lem rounds c n)

  pub progress_good :
      (c : WriteOpContext) (n : N)
      → c.bad ≡ false
      → progress_rdma_write_op_context H c n ≡ post_loop H (suc c.total_ops) c n
  unfolding progress_rdma_write_op_context
  progress_good c n good =
      ap (λ b. if b then (ok tt, c, n) else post_loop H (suc c.total_ops) c n) good

  pub progress-Moved :
      (c : WriteOpContext) (n : N) → Moved c (progress_rdma_write_op_context H c n).1
  unfolding progress_rdma_write_op_context
  progress-Moved c n = elim (Bool-cases c.bad) [
    | inl bad ↦
        let stop : progress_rdma_write_op_context H c n ≡ (ok tt, c, n) = ground (arith, bad) in
        rw stop (c.rdma_op_iter, c.cnt_posted_ops, refl)
    | inr good ↦
        let path = progress_good c n good in rw path (post_loop-Moved (suc c.total_ops) c n)
  ]
