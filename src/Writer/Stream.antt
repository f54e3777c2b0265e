-- ===== src/Writer/Stream.antt =====
-- The stream that the worker writes, against the frames that were queued.
use wgtcp.Base.{
  ℕ, zero, suc, ◌≤◌, ◌≡◌, ◌⊎◌, inl, inr, refl, sym, ap, ◌∙◌, true, false, List, [], ◌∷◌, ◌++◌, some,
  ◌==◌, ltb, length, take, drop, arith, Bool-cases, flatten, append_assoc, take-append-drop,
  drop-all, le→ltb, length-take, ==_refl,
}
use wgtcp.Peer.{Peer, may_send, fail_exact_socket}
use wgtcp.Writer.{
  Sent, taken, again, broken, send_frame, send_len, sent_part, after_send, put_back, write_loop,
}

-- The kernel takes no more bytes than it was given.
pub record IsSend (sendmsg : ℕ → List ℕ → Sent) : Type 0 where
  pub within : (i n : ℕ) (bytes : List ℕ) → sendmsg i bytes ≡ taken n → n ≤ length bytes

-- The socket in use is the accepted one of a provisional peer, or the one that a configured peer opened.
pub record IsWired (peer : Peer) : Type 0 where
  pub own :
      (s : ℕ)
      → peer.peer_socket ≡ some s
      → ((peer.temp_peer ≡ true) × (peer.inbound_socket ≡ some s))
        ⊎ ((peer.temp_peer ≡ false) × (peer.over_tcp ≡ true) × (peer.outbound_socket ≡ some s))

-- What the socket has taken begins the byte stream `stream`; on a peer that may send, the send queue holds
-- exactly the rest of it.
pub record IsInStream (stream : List ℕ) (peer : Peer) : Type 0 where
  pub later : List ℕ
  pub sent : peer.wire ++ later ≡ stream
  pub kept : may_send peer ≡ true → later ≡ flatten peer.send_queue
  pub wired : IsWired peer

pub same-IsWired :
    (p q : Peer)
    → q.peer_socket ≡ p.peer_socket
    → q.temp_peer ≡ p.temp_peer
    → q.over_tcp ≡ p.over_tcp
    → q.inbound_socket ≡ p.inbound_socket
    → q.outbound_socket ≡ p.outbound_socket
    → IsWired p
    → IsWired q
same-IsWired p q socket temp tcp inbound outbound w = record {
  own = λ s e. rw (temp, tcp, inbound, outbound) (w.own s (sym socket ∙ e));
}

-- A terminal failure ends the sending on this socket.
fail-closes :
    (s : ℕ) (peer : Peer)
    → IsWired peer
    → peer.peer_socket ≡ some s
    → may_send (fail_exact_socket s peer) ≡ false
unfolding fail_exact_socket
fail-closes s peer w e = elim (w.own s e) [
  | inl (temp, mine) ↦ rw (e, temp, mine, ==_refl s) (ground arith)
  | inr (conf, tcp, mine) ↦ rw (e, conf, tcp, mine, ==_refl s) (ground arith)
]

fail-keeps_wire : (s : ℕ) (peer : Peer) → (fail_exact_socket s peer).wire ≡ peer.wire
unfolding fail_exact_socket
fail-keeps_wire s peer = ground arith

fail-IsWired : (s : ℕ) (peer : Peer) → IsWired peer → IsWired (fail_exact_socket s peer)
unfolding fail_exact_socket
fail-IsWired s peer w =
    same-IsWired peer (fail_exact_socket s peer) (ground arith) (ground arith) (ground arith)
      (ground arith) (ground arith) w

take-take :
    {A : Type 0} (m n : ℕ) (xs : List A) → m ≤ length (take n xs) → take m (take n xs) ≡ take m xs
take-take zero n xs h = refl
take-take (suc m) zero xs h = elim h [ ]
take-take (suc m) (suc n) [] h = elim h [ ]
take-take (suc m) (suc n) (x ∷ xs) h = ap (λ t. x ∷ t) (take-take m n xs (omega arith))

-- A peer in the middle of the loop: it holds the socket, and `left` is what is still to be written.
pub record IsWriting (socket : ℕ) (stream left : List ℕ) (peer : Peer) : Type 0 where
  pub sending : may_send peer ≡ true
  pub holds : peer.peer_socket ≡ some socket
  pub wired : IsWired peer
  pub sent : peer.wire ++ left ≡ stream

-- Fields that have nothing to do with the stream may change.
unmoved :
    {socket : ℕ} {stream left : List ℕ} {peer : Peer} {n : ℕ} {queue : List (List ℕ)}
    → IsWriting socket stream left peer
    → IsWriting socket stream left (record peer { sends = n; send_queue = queue })
unmoved w = record {
  sending = w.sending;
  holds = w.holds;
  wired = record { own = w.wired.own };
  sent = w.sent;
}

-- What a call of kernel_sendmsg leaves to be written of the frame.
abbrev left_of : List ℕ → Sent → List ℕ
left_of frame again = frame
left_of frame broken = frame
left_of frame (taken n) = drop n frame

-- The call reported no more than the frame.
abbrev Fits : List ℕ → Sent → Type 0
Fits frame again = Unit
Fits frame broken = Unit
Fits frame (taken n) = n ≤ length frame

failed-IsInStream :
    (socket : ℕ) (stream left : List ℕ) (peer : Peer)
    → IsWriting socket stream left peer
    → IsInStream stream (fail_exact_socket socket peer)
failed-IsInStream socket stream left peer w = record {
  later = left;
  sent = rw (fail-keeps_wire socket peer) w.sent;
  kept = λ able. absurd (ground (arith, able, fail-closes socket peer w.wired w.holds));
  wired = fail-IsWired socket peer w.wired;
}

put_back-IsInStream :
    (socket : ℕ) (stream frame : List ℕ) (rest : List (List ℕ)) (peer : Peer)
    → IsWriting socket stream (frame ++ flatten rest) peer
    → IsInStream stream (put_back frame rest peer)
put_back-IsInStream socket stream frame rest peer w = record {
  later = frame ++ flatten rest;
  sent = w.sent;
  kept = λ able. refl;
  wired = record { own = w.wired.own };
}

after_send-IsInStream :
    (socket : ℕ) (stream frame : List ℕ) (rest : List (List ℕ)) (after : Peer → Peer) (r : Sent)
    (peer : Peer)
    → Fits frame r
    → peer.send_queue ≡ rest
    → IsWriting socket stream (left_of frame r ++ flatten rest) peer
    → (IsWriting socket stream (flatten rest) peer → IsInStream stream (after peer))
    → IsInStream stream (after_send socket frame rest after (r, peer))
after_send-IsInStream socket stream frame rest after again peer fits q w next =
    put_back-IsInStream socket stream frame rest peer w
after_send-IsInStream socket stream frame rest after broken peer fits q w next =
    failed-IsInStream socket stream _ peer w
after_send-IsInStream socket stream frame rest after (taken n) peer fits q w next =
    elim (Bool-cases (n == 0)) [
      | inl nothing ↦ rw nothing (failed-IsInStream socket stream _ peer w)
      | inr some_taken ↦ elim (Bool-cases (ltb n (length frame))) [
        | inl short ↦
            rw (some_taken, le→ltb (length frame) n fits, short)
              (put_back-IsInStream socket stream (drop n frame) rest peer w)
        | inr whole ↦
            let none_left : drop n frame ≡ [] = drop-all n frame (ground arith) in
            rw (some_taken, le→ltb (length frame) n fits, whole)
              (next (record {
                sending = w.sending;
                holds = w.holds;
                wired = w.wired;
                sent = rw none_left at w.sent;
              }))
      ]
    ]

send_frame-left :
    (wire frame left stream part : List ℕ) (n : ℕ)
    → (part ≡ take n frame)
    → wire ++ (frame ++ left) ≡ stream
    → (wire ++ part) ++ (drop n frame ++ left) ≡ stream
send_frame-left wire frame left stream part n e sent =
    append_assoc wire part (drop n frame ++ left)
    ∙ ap (λ t. wire ++ t)
        (sym (append_assoc part (drop n frame) left)
          ∙ ap (λ t. t ++ left) (ap (λ t. t ++ drop n frame) e ∙ take-append-drop n frame))
    ∙ sent

-- What holds after a call that was given the first `n` bytes of the frame.
sent_part-IsWriting :
    (socket : ℕ) (stream frame : List ℕ) (rest : List (List ℕ)) (n : ℕ) (r : Sent) (peer : Peer)
    → ((m : ℕ) → r ≡ taken m → m ≤ length (take n frame))
    → IsWriting socket stream (frame ++ flatten rest) peer
    → let (r', peer') = sent_part (take n frame) r peer in
      Fits frame r'
      × (peer'.send_queue ≡ peer.send_queue)
      × IsWriting socket stream (left_of frame r' ++ flatten rest) peer'
sent_part-IsWriting socket stream frame rest n again peer within w = (tt, refl, unmoved w)
sent_part-IsWriting socket stream frame rest n broken peer within w = (tt, refl, unmoved w)
sent_part-IsWriting socket stream frame rest n (taken m) peer within w = (
  omega (arith, length-take n frame, within m refl),
  refl,
  record {
    sending = w.sending;
    holds = w.holds;
    wired = record { own = w.wired.own };
    sent =
        send_frame-left peer.wire frame (flatten rest) stream (take m (take n frame)) m
          (take-take m n frame (within m refl)) w.sent;
  },
)

module _ (sendmsg : ℕ → List ℕ → Sent) (max_send : ℕ) (kernel : IsSend sendmsg) where
  send_frame-IsWriting :
      (socket : ℕ) (stream frame : List ℕ) (rest : List (List ℕ)) (peer : Peer)
      → IsWriting socket stream (frame ++ flatten rest) peer
      → let (r, peer') = send_frame sendmsg max_send frame peer in
        Fits frame r
        × (peer'.send_queue ≡ peer.send_queue)
        × IsWriting socket stream (left_of frame r ++ flatten rest) peer'
  unfolding send_frame
  send_frame-IsWriting socket stream frame rest peer w =
      sent_part-IsWriting socket stream frame rest (send_len max_send (length frame)) _ peer
        (λ m e. kernel.within peer.sends m _ e) w

  -- The loop on a queue.
  pub write_loop-IsInStream :
      (socket : ℕ) (stream : List ℕ) (queue : List (List ℕ)) (peer : Peer)
      → peer.send_queue ≡ queue
      → IsWriting socket stream (flatten queue) peer
      → IsInStream stream (write_loop sendmsg max_send socket queue peer)
  unfolding write_loop
  write_loop-IsInStream socket stream [] peer q w = record {
    later = [];
    sent = w.sent;
    kept = λ able. rw q refl;
    wired = w.wired;
  }
  write_loop-IsInStream socket stream (frame ∷ rest) peer q w =
      let opened : Peer = record peer { send_queue = rest } in
      let (fits, q', w') = send_frame-IsWriting socket stream frame rest opened (unmoved w) in
      after_send-IsInStream socket stream frame rest (write_loop sendmsg max_send socket rest)
        (send_frame sendmsg max_send frame opened).0 (send_frame sendmsg max_send frame opened).1
        fits q' w'
        (λ next.
          write_loop-IsInStream socket stream rest (send_frame sendmsg max_send frame opened).1 q'
            next)
