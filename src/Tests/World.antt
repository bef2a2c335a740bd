-- ===== src/Tests/World.antt =====
-- A system on which the definitions run: a clock that only a poll() moves, the readings that are
-- still to come, the answer to each send(), and the bytes that went out.
use sweet_dawn.Base.{
  ℕ, zero, suc, ◌+◌, ◌≤◌, ◌<◌, ◌≢◌, true, false, Option, none, some, List, [], ◌∷◌, ◌++◌, ◌≡◌, sym,
  ◌∙◌, ap, take-length, length-append, refl, arith, length, take,
}
use sweet_dawn.Transport.Ends.{Finite}
use sweet_dawn.Os.{
  Os, Polled, poll_timeout, poll_ready, poll_failed, eother, eagain, Received, recv_failed,
  recv_closed, recv_bytes, sent, send_failed, eintr, done,
}

pub record Net : Type 0 where
  pub time : ℕ
  pub readings : List (List ℕ)
  pub replies : List (List ℕ)
  pub arrived : List ℕ
  pub out : List ℕ

-- The next reading arrives, or the time goes by.
abbrev pub net_poll : Option ℕ → Net → Polled × Net
net_poll wait w = elim w.readings [
  | b ∷ rest ↦ (poll_ready true false, record w { arrived = b; readings = rest })
  | [] ↦ elim wait [
    | none ↦ (poll_failed eother, w)
    | some t ↦ (poll_timeout, record w { time = w.time + t })
  ]
]

-- What arrived is read at once; an empty reading is the end of the stream.
abbrev pub net_recv : Received → ℕ → List ℕ → Received
net_recv nothing n [] = nothing
net_recv nothing zero (b ∷ bs) = recv_failed eother
net_recv nothing (suc n) (b ∷ bs) = recv_bytes (b ∷ take n bs)

-- The next answer arrives.
abbrev pub net_answer : List (List ℕ) → Net → Net
net_answer [] w = record w { replies = [] }
net_answer (r ∷ rest) w = record w { readings = w.readings ++ (r ∷ []); replies = rest }

abbrev pub net_send : List ℕ → Net → Net
net_send b w = net_answer w.replies (record w { out = w.out ++ b })

pub length-take_le : (n : ℕ) (b : List ℕ) → length (take n b) ≤ n
length-take_le zero b = omega arith
length-take_le (suc n) [] = omega arith
length-take_le (suc n) (x ∷ b) = omega (arith, length-take_le n b)

pub net_recv_fits : (n : ℕ) (r b : List ℕ) → net_recv recv_closed n r ≡ recv_bytes b → length b ≤ n
net_recv_fits n [] b h = ground arith
net_recv_fits zero (x ∷ bs) b h = ground arith
net_recv_fits (suc n) (x ∷ bs) b h = ground (arith, length-take_le n bs)

abbrev pub net : Os
net = record {
  World = Net;
  Address = List ℕ;
  clock = λ w. (w.time, w);
  poll = λ fd wait w. net_poll wait w;
  poll_out = λ fd wait w. (poll_ready false false, w);
  recv = λ fd n w. (net_recv recv_closed n w.arrived, record w { arrived = [] });
  recv_now = λ fd n w. (net_recv (recv_failed eagain) n w.arrived, record w { arrived = [] });
  send = λ fd b w. (sent (length b), net_send b w);
  close = λ fd w. w;
  socket = λ w. (some 3, w);
  str2ba = λ s. some s;
  bind = λ fd a w. (done, w);
  get_flags = λ fd w. (some 2, w);
  set_flags = λ fd fl nonblocking w. (done, w);
  connect = λ fd a channel w. (done, w);
  socket_error = λ fd w. (some done, w);
  recv_fits = λ fd n w b h. net_recv_fits n w.arrived b h;
}

net_answer-out : (l : List (List ℕ)) (w : Net) → (net_answer l w).out ≡ w.out
net_answer-out [] w = refl
net_answer-out (r ∷ rest) w = refl

pub net_sends :
    (fd : ℕ) (b : List ℕ) (w : Net) (n : ℕ)
    → (net.send fd b w).0 ≡ sent n
    → (n ≤ length b) × ((net.send fd b w).1.out ≡ w.out ++ take n b)
net_sends fd b w n h =
    let e : length b ≡ n = ground arith in
    (
      omega (arith, e),
      net_answer-out w.replies (record w { out = w.out ++ b })
          ∙ ap (λ t. w.out ++ t) (sym (ap (λ k. take k b) (sym e) ∙ take-length b)),
    )

-- How often the system can still wake a call up.
abbrev pub net_wakes : Net → ℕ
net_wakes w = length w.readings + length w.replies

pub net_answer-wakes :
    (l : List (List ℕ)) (w : Net) → net_wakes (net_answer l w) ≤ length w.readings + length l
net_answer-wakes [] w = omega arith
net_answer-wakes (r ∷ rest) w = omega (arith, length-append w.readings (r ∷ []))

pub net_poll_over :
    (t : ℕ) (w : Net)
    → (net_poll (some t) w).0 ≡ poll_timeout
    → (w.time + t ≤ (net_poll (some t) w).1.time)
      × (net_wakes (net_poll (some t) w).1 ≤ net_wakes w)
net_poll_over t w h = ground arith

pub net_poll_woken :
    (t : ℕ) (w : Net)
    → (net_poll (some t) w).0 ≢ poll_timeout
    → (w.time ≤ (net_poll (some t) w).1.time) × (net_wakes (net_poll (some t) w).1 < net_wakes w)
net_poll_woken t w h = ground arith

pub net_uninterrupted : (n : ℕ) → sent n ≢ send_failed eintr
net_uninterrupted n h = cc

abbrev pub net_finite : Finite net
net_finite = record {
  time = λ w. w.time;
  wakes = net_wakes;
  clock_on = λ w. (omega arith, omega arith, omega arith);
  poll_over = λ fd t w h. net_poll_over t w h;
  poll_woken = λ fd t w h. net_poll_woken t w h;
  recv_on = λ fd n w. (omega arith, omega arith);
  send_on = λ fd b w n h.
      ((net_sends fd b w n h).0, net_answer-wakes w.replies (record w { out = w.out ++ b }));
  send_interrupted = λ fd b w h. absurd (net_uninterrupted (length b) h);
}
