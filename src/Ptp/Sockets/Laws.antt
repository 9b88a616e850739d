-- ===== src/Ptp/Sockets/Laws.antt =====
-- Which sockets stay open when the setup of a port fails, and when it does not.
use heterogeneous_multicore.Base.{
  ℕ, zero, suc, ◌+◌, ◌-◌, ◌<◌, ◌≡◌, refl, sym, subst, ◌∙◌, Option, none, some, Bool, true, false,
  ◌||◌, [], ◌∷◌, ◌++◌, ◌==◌, if◌then◌else◌, arith,
}
use heterogeneous_multicore.Ptp.Sockets.{
  Socks, World, setup_raw, setup_ptp, close_all, finish, port_genavb_setup_sockets,
}

-- No socket of the port is open.
pub record IsClosed (p : Socks) : Type 0 where
  pub tx_closed : p.sock_tx_opened ≡ false
  pub rx_closed : p.sock_rx_opened ≡ false
  pub tx_ptp_closed : p.sock_tx_ptp_opened ≡ false
  pub rx_ptp_closed : p.sock_rx_ptp_opened ≡ false

-- How many calls of the stack a setup makes.
abbrev pub rounds : Bool → ℕ
rounds enable_ptp = if enable_ptp then 7 else 3

-- The calls that set a callback, by their place.
abbrev pub is_callback : ℕ → Bool
is_callback k = k == 2 || k == 4 || k == 6

-- The first k calls succeed, from the n-th.
abbrev pub Granted : (ℕ → Bool) → ℕ → ℕ → Type 0
Granted grants n zero = Unit
Granted grants n (suc k) = (grants n ≡ true) × Granted grants (n + 1) k

-- The setup ended with -1 at its k-th call: no socket is open as far as the port knows, and the stack
-- has those from before, and one more if that call was to set a callback.
abbrev pub Failed : World → ℕ → Bool × World → Type 0
Failed w k (answer, w') =
    (answer ≡ false)
    × IsClosed w'.port
    × (w'.open_socks ≡ (if is_callback k then (w.calls + k - 1) ∷ w.open_socks else w.open_socks))

-- The port and the stack after the first three calls.
abbrev raw_world : World → World
raw_world w = record {
  port = record (w.port) {
    sock_tx = w.calls;
    sock_tx_opened = true;
    sock_rx = w.calls + 1;
    sock_rx_opened = true;
  };
  calls = w.calls + 3;
  open_socks = (w.calls + 1) ∷ w.calls ∷ w.open_socks;
}

raw_done :
    (grants : ℕ → Bool) (w : World)
    → Granted grants w.calls 3
    → setup_raw grants w ≡ (some tt, raw_world w)
unfolding setup_raw
raw_done grants w g = ground arith

raw_fails :
    (grants : ℕ → Bool) (w : World) (k : ℕ) (enable_ptp : Bool)
    → IsClosed w.port
    → k < 3
    → Granted grants w.calls k
    → grants (w.calls + k) ≡ false
    → Failed w k (port_genavb_setup_sockets grants enable_ptp w)
unfolding setup_raw port_genavb_setup_sockets
raw_fails grants w zero p c h g f = ground arith
raw_fails grants w (suc zero) p c h g f = ground arith
raw_fails grants w (suc (suc zero)) p c h g f = ground arith
raw_fails grants w (suc (suc (suc k))) p c h g f = absurd (omega arith)

ptp_fails :
    (grants : ℕ → Bool) (w : World) (k : ℕ)
    → IsClosed w.port
    → k < 4
    → Granted grants (w.calls + 3) k
    → grants (w.calls + 3 + k) ≡ false
    → let (o, w') = setup_ptp grants (raw_world w) in
      (o ≡ none) × Failed w (suc (suc (suc k))) (false, close_all w')
unfolding setup_ptp close_all
ptp_fails grants w zero c h g f = ground arith
ptp_fails grants w (suc zero) c h g f = ground arith
ptp_fails grants w (suc (suc zero)) c h g f = ground arith
ptp_fails grants w (suc (suc (suc zero))) c h g f = ground arith
ptp_fails grants w (suc (suc (suc (suc k)))) c h g f = absurd (omega arith)

setup_true :
    (grants : ℕ → Bool) (w : World)
    → Granted grants w.calls 3
    → port_genavb_setup_sockets grants true w ≡ finish grants (setup_ptp grants (raw_world w))
unfolding port_genavb_setup_sockets
setup_true grants w g = rw (raw_done grants w g) refl

finish-none :
    (grants : ℕ → Bool) (r : Option (Unit {0}) × World)
    → r.0 ≡ none
    → finish grants r ≡ (false, close_all r.1)
finish-none grants (none, w) e = refl
finish-none grants (some u, w) e = cc

-- A setup that fails at its k-th call, on a port with no socket open: the answer is -1 and the port's
-- flags say that no socket is open. All sockets that it opened are closed again if the k-th call
-- was to open one; if it was to set the callback of a socket, that socket stays open in the stack.
pub port_genavb_setup_sockets-Failed :
    (grants : ℕ → Bool) (enable_ptp : Bool) (w : World) (k : ℕ)
    → IsClosed w.port
    → k < rounds enable_ptp
    → Granted grants w.calls k
    → grants (w.calls + k) ≡ false
    → Failed w k (port_genavb_setup_sockets grants enable_ptp w)
port_genavb_setup_sockets-Failed grants p w zero c h g f =
    raw_fails grants w 0 p c (omega arith) g f
port_genavb_setup_sockets-Failed grants p w (suc zero) c h g f =
    raw_fails grants w 1 p c (omega arith) g f
port_genavb_setup_sockets-Failed grants p w (suc (suc zero)) c h g f =
    raw_fails grants w 2 p c (omega arith) g f
port_genavb_setup_sockets-Failed grants false w (suc (suc (suc k))) c h g f = absurd (omega arith)
port_genavb_setup_sockets-Failed grants true w (suc (suc (suc k))) c h (g0, (g1, (g2, more))) f =
    let third : w.calls + 1 + 1 + 1 ≡ w.calls + 3 = omega arith in
    let at : w.calls + suc (suc (suc k)) ≡ w.calls + 3 + k = omega arith in
    let (stops, failed) =
      ptp_fails grants w k c (omega arith) (subst (λ n. Granted grants n k) third more)
        (subst (λ n. grants n ≡ false) at f) in
    subst (Failed w (suc (suc (suc k))))
      (sym (
        setup_true grants w (g0, (g1, (g2, tt)))
        ∙ finish-none grants (setup_ptp grants (raw_world w)) stops))
      failed

-- A setup whose calls all succeed: the answer is 0 and the stack has a socket more for each that the
-- port now has open, two of them without PTP and four with it.
pub port_genavb_setup_sockets-opens :
    (grants : ℕ → Bool) (enable_ptp : Bool) (w : World)
    → Granted grants w.calls (rounds enable_ptp)
    → let (answer, w') = port_genavb_setup_sockets grants enable_ptp w in
      let p = w'.port in
      (answer ≡ true)
      × (w'.open_socks
          ≡ (if enable_ptp then p.sock_rx_ptp ∷ p.sock_tx_ptp ∷ [] else [])
            ++ p.sock_rx ∷ p.sock_tx ∷ w.open_socks)
unfolding port_genavb_setup_sockets setup_ptp
port_genavb_setup_sockets-opens grants false w g = rw (raw_done grants w g) (refl, refl)
port_genavb_setup_sockets-opens grants true w (g0, (g1, (g2, more))) =
    rw (raw_done grants w (g0, (g1, (g2, tt)))) (ground arith)
