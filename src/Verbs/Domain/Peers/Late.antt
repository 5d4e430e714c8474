-- ===== src/Verbs/Domain/Peers/Late.antt =====
-- Submissions before and after the handshake of a peer, in fabric-lib/src/verbs/verbs_domain.rs.
use pplx_garden_cxi.Common.{ℕ, ◌≡◌, refl, sym, ap, ◌∙◌, some, List, [], ◌∷◌, ◌++◌, arith}
use pplx_garden_cxi.Api.{Result, ok, err, panicked, Action, ◌>>◌, for_each, DomainAddress}
use pplx_garden_cxi.Pool.{alloc_uninit}
use pplx_garden_cxi.Verbs.{WrChainBuffer}
use pplx_garden_cxi.Verbs.Address.{to_bytes}
use pplx_garden_cxi.Verbs.Iter.{WriteOpIter}
use pplx_garden_cxi.Verbs.Domain.Heap.{alloc}
use pplx_garden_cxi.Verbs.Domain.Host.{Host, PeerHandshakeInfo}
use pplx_garden_cxi.Verbs.Domain.State.{
  VerbsDomain, Peer, connecting, established, OutboundOp, send_op, write_op, find_peer, set_peer,
  find_peer-set_peer, set_peer-set_peer,
}
use pplx_garden_cxi.Verbs.Domain.Submit.{do_submit_write, do_submit_outbound_op, construct_write}
use pplx_garden_cxi.Verbs.Domain.Peers.{submit_outbound_op}
use pplx_garden_cxi.Verbs.Domain.Peers.Handshake.{
  release, settle, settle_groups, handle_peer_handshake,
}
use pplx_garden_cxi.Verbs.Domain.Peers.Order.{
  waiting, with_peer, submit_all, ConnectsAll, connected, wait_lem, shake_lem,
}

module _ {N : Type 0} (H : Host N) where
  -- a domain with the same peers and groups
  abbrev Same : VerbsDomain N → VerbsDomain N → Type 0
  Same d d' = (d'.peers ≡ d.peers) × (d'.connecting_peer_groups ≡ d.connecting_peer_groups)

  by_construct :
      (id : ℕ) (construct : ℕ → WrChainBuffer → Result WriteOpIter) (d : VerbsDomain N)
      (r : Result WriteOpIter)
      → construct
          (H.slot_address (alloc d.contexts).0)
          (H.stale_chain (alloc_uninit d.objpool_wr).0)
        ≡ r
      → Same d (do_submit_write H id construct d).1
  unfolding do_submit_write
  by_construct id construct d (ok it) e = (ground (arith, e), ground (arith, e))
  by_construct id construct d (err x) e = (ground (arith, e), ground (arith, e))
  by_construct id construct d panicked e = (ground (arith, e), ground (arith, e))

  submit-Same :
      (id : ℕ) (op : OutboundOp) (msg rma : ℕ) (d : VerbsDomain N)
      → Same d (do_submit_outbound_op H id op msg rma d).1
  unfolding do_submit_outbound_op
  submit-Same id (send_op op) msg rma d = (refl, refl)
  submit-Same id (write_op op) msg rma d =
      by_construct id (construct_write H op rma) d
        (construct_write H op rma (H.slot_address (alloc d.contexts).0)
          (H.stale_chain (alloc_uninit d.objpool_wr).0))
        refl

  abbrev post_all : (msg rma : ℕ) → List (ℕ × OutboundOp) → Action (VerbsDomain N) (Unit {0})
  post_all msg rma ops = for_each ops (λ s. do_submit_outbound_op H s.0 s.1 msg rma)

  -- once the peer is up, what is submitted is posted at once
  post_lem :
      (ops : List (ℕ × OutboundOp)) (addr : DomainAddress) (peer : Peer) (d : VerbsDomain N)
      → find_peer addr d.peers ≡ some (record peer { state = established })
      → submit_all H addr ops d ≡ post_all peer.msg_rc.qp peer.rma_rc.qp ops d
  unfolding for_each submit_outbound_op
  post_lem [] addr peer d known = refl
  post_lem ((id, op) ∷ ops) addr peer d known =
      let one : submit_outbound_op H id addr op d
          ≡ do_submit_outbound_op H id op peer.msg_rc.qp peer.rma_rc.qp d =
        ground (arith, known) in
      let out = do_submit_outbound_op H id op peer.msg_rc.qp peer.rma_rc.qp d in
      let same = submit-Same id op peer.msg_rc.qp peer.rma_rc.qp d in
      let rest = post_lem ops addr peer out.1 (ap (find_peer addr) same.0 ∙ known) in
      ground (arith, one, rest)

  by_first :
      (id : ℕ) (op : OutboundOp) (ops : List (ℕ × OutboundOp)) (msg rma : ℕ) (d : VerbsDomain N)
      (r : Result (Unit {0}))
      → (do_submit_outbound_op H id op msg rma d).0 ≡ r
      → Same
          (do_submit_outbound_op H id op msg rma d).1
          (post_all msg rma ops (do_submit_outbound_op H id op msg rma d).1).1
      → Same d (post_all msg rma ((id, op) ∷ ops) d).1
  unfolding for_each
  by_first id op ops msg rma d (ok tt) e rest =
      let same = submit-Same id op msg rma d in
      (ground (arith, e, rest.0, same.0), ground (arith, e, rest.1, same.1))
  by_first id op ops msg rma d (err x) e rest =
      let same = submit-Same id op msg rma d in
      (ground (arith, e, same.0), ground (arith, e, same.1))
  by_first id op ops msg rma d panicked e rest =
      let same = submit-Same id op msg rma d in
      (ground (arith, e, same.0), ground (arith, e, same.1))

  post_all-Same :
      (ops : List (ℕ × OutboundOp)) (msg rma : ℕ) (d : VerbsDomain N)
      → Same d (post_all msg rma ops d).1
  unfolding for_each
  post_all-Same [] msg rma d = (refl, refl)
  post_all-Same ((id, op) ∷ ops) msg rma d =
      let out = do_submit_outbound_op H id op msg rma d in
      by_first id op ops msg rma d out.0 refl (post_all-Same ops msg rma out.1)

  -- a step after a call that changes nothing there
  idle_lem :
      {S : Type 0} (m k : Action S (Unit {0})) (s : S) (r : Result (Unit {0}))
      → (m s).0 ≡ r
      → k (m s).1 ≡ (ok tt, (m s).1)
      → (m >> k) s ≡ m s
  idle_lem m k s (ok tt) e idle = ground (arith, e, idle)
  idle_lem m k s (err x) e idle = ground (arith, e)
  idle_lem m k s panicked e idle = ground (arith, e)

  then_lem :
      {S : Type 0} (m k k' : Action S (Unit {0})) (s : S) (r : Result (Unit {0}))
      → (m s).0 ≡ r
      → k (m s).1 ≡ k' (m s).1
      → (m >> k) s ≡ (m >> k') s
  then_lem m k k' s (ok tt) e same = ground (arith, e, same)
  then_lem m k k' s (err x) e same = ground (arith, e)
  then_lem m k k' s panicked e same = ground (arith, e)

  by_head :
      {S A : Type 0} (f : A → Action S (Unit {0})) (x : A) (xs ys : List A) (s : S)
      (r : Result (Unit {0}))
      → (f x s).0 ≡ r
      → for_each (xs ++ ys) f (f x s).1 ≡ (for_each xs f >> for_each ys f) (f x s).1
      → for_each ((x ∷ xs) ++ ys) f s ≡ (for_each (x ∷ xs) f >> for_each ys f) s
  unfolding for_each
  by_head f x xs ys s (ok tt) e rest = ground (arith, e, rest)
  by_head f x xs ys s (err y) e rest = ground (arith, e)
  by_head f x xs ys s panicked e rest = ground (arith, e)

  for_each-append :
      {S A : Type 0} (f : A → Action S (Unit {0})) (xs ys : List A) (s : S)
      → for_each (xs ++ ys) f s ≡ (for_each xs f >> for_each ys f) s
  unfolding for_each
  for_each-append f [] ys s = refl
  for_each-append f (x ∷ xs) ys s =
      by_head f x xs ys s (f x s).0 refl (for_each-append f xs ys (f x s).1)

  settle-idle :
      (q : ℕ) (d : VerbsDomain N) → d.connecting_peer_groups ≡ [] → settle H q [] d ≡ (ok tt, d)
  unfolding settle settle_groups for_each
  settle-idle q d none' =
      ap (λ gs. settle H q [] (record d { connecting_peer_groups = gs })) none'
      ∙ ap (λ gs. (ok tt, record d { connecting_peer_groups = gs })) (sym none')

  release_lem :
      (peer : Peer) (submits : List (ℕ × OutboundOp)) (d : VerbsDomain N)
      → d.connecting_peer_groups ≡ []
      → release H peer submits [] d ≡ post_all peer.msg_rc.qp peer.rma_rc.qp submits d
  unfolding release
  release_lem peer submits d none' =
      let posts = post_all peer.msg_rc.qp peer.rma_rc.qp submits in
      let same = post_all-Same submits peer.msg_rc.qp peer.rma_rc.qp d in
      idle_lem posts (settle H peer.rma_rc.qp []) d (posts d).0 refl
        (settle-idle peer.rma_rc.qp (posts d).1 (same.1 ∙ none'))

  -- a step after what a call has come to
  abbrev ended :
      Action (VerbsDomain N) (Unit {0})
      → Result (Unit {0}) × VerbsDomain N
      → Result (Unit {0}) × VerbsDomain N
  ended k out = ((λ _. out) >> k) out.1

  -- A peer that is connecting, while no group of peers is and no write to several peers waits for
  -- it, and its handshake, on a NIC that brings up its queue pairs. To submit operations to it
  -- before the handshake or after it comes to the same: the same requests are posted in the same
  -- order, and the domain, the NIC and the result, a panic included, are equal.
  pub late_lem :
      (addr : DomainAddress) (peer : Peer) (submits ops : List (ℕ × OutboundOp))
      (info : PeerHandshakeInfo) (d : VerbsDomain N)
      → to_bytes info.ud_addr ≡ addr
      → find_peer addr d.peers ≡ some (record peer { state = connecting submits [] })
      → d.connecting_peer_groups ≡ []
      → ConnectsAll H
      → (for_each ops (λ s. submit_outbound_op H s.0 addr s.1) >> handle_peer_handshake H info) d
        ≡ (handle_peer_handshake H info >> for_each ops (λ s. submit_outbound_op H s.0 addr s.1)) d
  late_lem addr peer submits ops info d here known none' up =
      let msg = peer.msg_rc.qp in
      let rma = peer.rma_rc.qp in
      let nic = connected H msg rma d.port_num info d.nic in
      let est = record peer { state = established } in
      let w = waiting H addr peer (submits ++ ops) [] in
      let d' = with_peer H addr w d in
      let d₂ : VerbsDomain N = record d { nic = nic; peers = set_peer addr est d.peers } in
      let found = find_peer-set_peer addr w d.peers in
      let twice = set_peer-set_peer addr est w d.peers in
      let all : handle_peer_handshake H info d' ≡ post_all msg rma (submits ++ ops) d₂ =
        shake_lem H addr peer (submits ++ ops) [] info d' here found up
        ∙ ap (λ ps. release H w (submits ++ ops) [] (record d { nic = nic; peers = ps })) twice
        ∙ release_lem w (submits ++ ops) d₂ none' in
      let early : handle_peer_handshake H info d ≡ post_all msg rma submits d₂ =
        shake_lem H addr peer submits [] info d here known up
        ∙ release_lem (waiting H addr peer submits []) submits d₂ none' in
      let d₃ = (post_all msg rma submits d₂).1 in
      let same = post_all-Same submits msg rma d₂ in
      let at = ap (find_peer addr) same.0 ∙ find_peer-set_peer addr est d.peers in
      ap (λ out. (ended (handle_peer_handshake H info) out))
        (wait_lem H addr ops submits peer [] d known)
      ∙ all
      ∙ for_each-append (λ s. do_submit_outbound_op H s.0 s.1 msg rma) submits ops d₂
      ∙ then_lem (post_all msg rma submits) (post_all msg rma ops) (submit_all H addr ops) d₂
          (post_all msg rma submits d₂).0 refl (sym (post_lem ops addr peer d₃ at))
      ∙ ap (ended (submit_all H addr ops)) (sym early)
