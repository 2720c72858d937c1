-- ===== src/Xpio/Socket/Close.antt =====
-- luau/xpio_c.c: a socket's descriptor is closed once.
use flake.Common.{
  zero, suc, ◌≡◌, refl, true, List, [], ◌∷◌, arith, if◌then◌else◌, ℤ, pos, negsuc, minus_one,
  is_negative, is_positive,
}
use flake.Xpio.Socket.{SocketOp, close_op, dtor_op, close_socket, socket_dtor, socket_op, closes}

-- The calls of `close` for descriptors, without those of -1, which fail.
abbrev pub descriptors : List ℤ → List ℤ
descriptors [] = []
descriptors (s ∷ ss) = let rest = descriptors ss in if is_negative s then rest else s ∷ rest

closed_stays : (ops : List SocketOp) → descriptors (closes ops minus_one) ≡ []
unfolding closes socket_op close_socket socket_dtor
closed_stays [] = refl
closed_stays (close_op ∷ ops) = closed_stays ops
closed_stays (dtor_op ∷ ops) = closed_stays ops

-- Whatever calls of `close` and of the destructor follow on an open socket whose descriptor is not 0,
-- the descriptor is closed by the first of them and by no other, and no other descriptor is closed.
pub closes-first :
    (op : SocketOp) (ops : List SocketOp) (s : ℤ)
    → is_positive s ≡ true
    → descriptors (closes (op ∷ ops) s) ≡ s ∷ []
unfolding closes socket_op close_socket socket_dtor
closes-first op ops (negsuc n) h = absurd (ground arith)
closes-first op ops (pos zero) h = absurd (ground arith)
closes-first close_op ops (pos (suc n)) h = ground (arith, closed_stays ops)
closes-first dtor_op ops (pos (suc n)) h = ground (arith, closed_stays ops)
