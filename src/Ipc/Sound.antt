-- ===== src/Ipc/Sound.antt =====
-- What holds of every client between two operations of the server (src/ipc/ipc_server.c): its buffers hold what they
-- have room for, and a place without a descriptor is as `client_reset` leaves it.
use sweet_dawn.Base.{
  ℕ, zero, suc, ◌+◌, ◌≤◌, ◌≡◌, ◌⊎◌, inl, inr, Bool, true, false, Option, none, some, List, [], ◌∷◌,
  ◌++◌, refl, sym, ◌∙◌, ap, arith, length, ltb, leb, if_intro, option_intro, subst, some-eq,
  length-append,
}
use sweet_dawn.Os.{Received, recv_failed, recv_closed, recv_bytes, eintr, eagain}
use sweet_dawn.Protocol.{Bytes}
use sweet_dawn.Ipc.{IpcClient, free_client, max_message, max_pending_output, client_append}
use sweet_dawn.Ipc.Sockets.{
  Sockets, Accepted, accept_failed, accepted, read_client, read_capacity, after_read, write_client,
  write_intro, write_on, unsent, go_on, later, broken,
}
use sweet_dawn.Ipc.Run.{
  placed, client_reset, kept_or_reset, broadcast_one, broadcast_text, place_on, accept_on,
  accept_loop,
}

-- A client on a descriptor.
pub record IsLive (fd : ℕ) (c : IpcClient) : Type 0 where
  pub connected : c.fd ≡ some fd
  pub input_fits : length c.input ≤ max_message
  pub output_fits : length c.output ≤ max_pending_output

-- A place of the table.
abbrev pub IsSound : IpcClient → Type 0
IsSound c = (c ≡ free_client) ⊎ ((fd : ℕ) × IsLive fd c)

-- A table of `n` places.
abbrev pub AllSound : ℕ → List IpcClient → Type 0
AllSound n [] = n ≡ 0
AllSound n (c ∷ rest) = IsSound c × (m : ℕ) × (n ≡ suc m) × AllSound m rest

abbrev pub Live : ℕ → Option IpcClient → Type 0
Live fd none = Unit
Live fd (some c) = IsLive fd c

pub sound-IsLive : (fd : ℕ) (c : IpcClient) → c.fd ≡ some fd → IsSound c → IsLive fd c
sound-IsLive fd c e (inl h) = absurd (ground (arith, ap (λ (x : IpcClient). x.fd) h))
sound-IsLive fd c e (inr (fd', v)) =
    subst (λ x. IsLive x c) (some-eq fd' fd (sym v.connected ∙ e)) v

append-Live : (fd : ℕ) (c : IpcClient) (text : Bytes) → IsLive fd c → Live fd (client_append c text)
unfolding client_append
append-Live fd c text v =
    if_intro (Live fd) (ltb max_pending_output (length c.output + length text + 1)) (λ _. tt)
      (λ h. record {
        connected = v.connected;
        input_fits = v.input_fits;
        output_fits =
            ground
              (arith, length-append c.output (text ++ (0x0A ∷ [])), length-append text (0x0A ∷ []));
      })

abbrev Placed : ℕ → Option (List IpcClient) → Type 0
Placed n none = Unit
Placed n (some cs) = AllSound n cs

placed-Sound : (n fd : ℕ) (cs : List IpcClient) → AllSound n cs → Placed n (placed fd cs)
unfolding placed
placed-Sound n fd [] v = tt
placed-Sound n fd (c ∷ rest) (v, m, e, vs) =
    option_intro (Placed n) c.fd (λ h. (inr (fd, placed_live h v), m, e, vs))
      (λ other _.
        option_intro (Placed n) (placed fd rest) (λ _. tt)
          (λ more h. (v, m, e, subst (Placed m) h (placed-Sound m fd rest vs))))
  where
    placed_live : c.fd ≡ none → IsSound c → IsLive fd (record c { fd = some fd })
    placed_live h (inl e) =
        subst (λ (x : IpcClient). IsLive fd (record x { fd = some fd })) (sym e)
          (record { connected = refl; input_fits = omega arith; output_fits = omega arith })
    placed_live h (inr (fd', l)) = absurd (ground (arith, l.connected))

module _ (sockets : Sockets) where
  open sockets use {World}

  pub read-Live :
      (fd : ℕ) (c : IpcClient) (w : World) → IsLive fd c → Live fd (read_client sockets fd c w).0
  unfolding read_client after_read
  read-Live fd c w v =
      if_intro (λ (r : Option IpcClient × World). Live fd r.0) (leb max_message (length c.input))
        (λ _. tt)
        (λ h.
          received-Live (sockets.recv fd (read_capacity c) w).0
            (λ b e. ground (arith, sockets.recv_fits fd (read_capacity c) w b e)))
    where
      received-Live :
          (r : Received)
          → ((b : Bytes) → r ≡ recv_bytes b → length c.input + length b ≤ max_message)
          → Live fd (after_read c r)
      received-Live recv_closed h = tt
      received-Live (recv_failed eintr) h = v
      received-Live (recv_failed eagain) h = v
      received-Live (recv_failed _) h = tt
      received-Live (recv_bytes b) h = record {
        connected = v.connected;
        input_fits = omega (arith, h b refl, length-append c.input b);
        output_fits = v.output_fits;
      }

  abbrev pub Written : ℕ → Option (Option IpcClient × World) → Type 0
  Written fd none = Unit
  Written fd (some (r, w)) = Live fd r

  pub write-Written :
      (fuel fd : ℕ) (c : IpcClient) (w : World)
      → IsLive fd c
      → Written fd (write_client sockets fuel fd c w)
  unfolding write_client
  write-Written zero fd c w v = tt
  write-Written (suc fuel) fd c w v =
      let w' = (sockets.send fd (unsent c) w).1 in
      write_intro sockets (Written fd) fuel fd c w
        (λ _. record {
          connected = v.connected;
          input_fits = v.input_fits;
          output_fits = omega arith;
        })
        (λ x _ _.
          elim x as (λ x. Written fd (write_on sockets (write_client sockets fuel fd) c x w')) [
            | broken ↦ tt
            | later ↦ v
            | go_on n ↦
                write-Written fuel fd (record c { output_offset = c.output_offset + n }) w'
                  (record {
                    connected = v.connected;
                    input_fits = v.input_fits;
                    output_fits = v.output_fits;
                  })
          ])

  pub reset-IsSound : (c : IpcClient) (w : World) → IsSound (client_reset sockets c w).0
  unfolding client_reset
  reset-IsSound c w =
      option_intro (λ (r : IpcClient × World). IsSound r.0) c.fd (λ _. inl refl) (λ _ _. inl refl)

  pub kept-IsSound :
      (fd : ℕ) (c : IpcClient) (r : Option IpcClient) (w : World)
      → Live fd r
      → IsSound (kept_or_reset sockets c r w).0
  unfolding kept_or_reset
  kept-IsSound fd c none w v = reset-IsSound c w
  kept-IsSound fd c (some c') w v = inr (fd, v)

  broadcast_one-IsSound :
      (text : Bytes) (c : IpcClient) (w : World)
      → IsSound c
      → IsSound (broadcast_one sockets text c w).0
  unfolding broadcast_one
  broadcast_one-IsSound text c w v =
      option_intro (λ (r : IpcClient × World). IsSound r.0) c.fd (λ _. v)
        (λ fd e.
          if_intro (λ (r : IpcClient × World). IsSound r.0) c.subscribed
            (λ _.
              kept-IsSound fd c (client_append c text) w
                (append-Live fd c text (sound-IsLive fd c e v)))
            (λ _. v))

  pub broadcast-AllSound :
      (n : ℕ) (text : Bytes) (cs : List IpcClient) (w : World)
      → AllSound n cs
      → AllSound n (broadcast_text sockets text cs w).0
  unfolding broadcast_text
  broadcast-AllSound n text [] w v = v
  broadcast-AllSound n text (c ∷ rest) w (v, m, e, vs) = (
    broadcast_one-IsSound text c w v,
    m,
    e,
    broadcast-AllSound m text rest (broadcast_one sockets text c w).1 vs,
  )

  abbrev pub Accepts : ℕ → Option (Bool × List IpcClient × World) → Type 0
  Accepts n none = Unit
  Accepts n (some (running, cs, w)) = AllSound n cs

  module _ (n : ℕ) (again : List IpcClient → World → Option (Bool × List IpcClient × World))
      (kept : (cs : List IpcClient) (w : World) → AllSound n cs → Accepts n (again cs w)) where
    place-Accepts :
        (fd : ℕ) (cs : List IpcClient) (set : Bool) (w : World)
        → AllSound n cs
        → Accepts n (place_on sockets again fd cs set w)
    unfolding place_on
    place-Accepts fd cs false w v = kept cs (sockets.close fd w) v
    place-Accepts fd cs true w v =
        option_intro (Accepts n) (placed fd cs) (λ _. kept cs (sockets.close fd w) v)
          (λ cs' e. kept cs' w (subst (Placed n) e (placed-Sound n fd cs v)))

    accept-Accepts :
        (cs : List IpcClient) (r : Accepted) (w : World)
        → AllSound n cs
        → Accepts n (accept_on sockets again cs r w)
    unfolding accept_on
    accept-Accepts cs (accept_failed eintr) w v = kept cs w v
    accept-Accepts cs (accept_failed eagain) w v = v
    accept-Accepts cs (accept_failed _) w v = v
    accept-Accepts cs (accepted fd) w v =
        place-Accepts fd cs (sockets.set_nonblocking fd w).0 (sockets.set_nonblocking fd w).1 v

  pub accept_loop-Accepts :
      (n fuel : ℕ) (cs : List IpcClient) (w : World)
      → AllSound n cs
      → Accepts n (accept_loop sockets fuel cs w)
  unfolding accept_loop
  accept_loop-Accepts n zero cs w v = tt
  accept_loop-Accepts n (suc fuel) cs w v =
      accept-Accepts n (accept_loop sockets fuel) (accept_loop-Accepts n fuel) cs
        (sockets.accept w).0 (sockets.accept w).1 v
