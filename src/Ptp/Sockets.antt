-- ===== src/Ptp/Sockets.antt =====
-- port_genavb_setup_sockets of net/ptp_stack/ptp_multisoc_stack.c: the sockets of a port are opened
-- one after the other, and closed again where a call fails.
pub mod Laws
use heterogeneous_multicore.Base.{
  without, ℕ, ◌+◌, Bool, true, false, List, [], ◌∷◌, Option, none, some, ◌==◌, if◌then◌else◌,
}

-- The sockets of `struct gen_avb_port_dev`, by the numbers of the calls that opened them, with the
-- flags that say which are open.
pub record Socks : Type 0 where
  pub sock_tx : ℕ
  pub sock_tx_opened : Bool
  pub sock_rx : ℕ
  pub sock_rx_opened : Bool
  pub sock_tx_ptp : ℕ
  pub sock_tx_ptp_opened : Bool
  pub sock_rx_ptp : ℕ
  pub sock_rx_ptp_opened : Bool

-- The port, and the stack: how many calls it has had, and the sockets that are open in it.
pub record World : Type 0 where
  pub port : Socks
  pub calls : ℕ
  pub open_socks : List ℕ

-- A step either goes on or goes to `err`.
abbrev pub M : Type 0 → Type 0
M A = World → Option A × World

infixl 5 ◌>>=◌ ◌>>◌
abbrev pub then_with : {A B : Type 0} → Option A × World → (A → M B) → Option B × World
then_with (none, w) f = (none, w)
then_with (some a, w) f = f a w

abbrev pub ◌>>=◌ : {A B : Type 0} → M A → (A → M B) → M B
◌>>=◌ m f w = then_with (m w) f

abbrev pub ◌>>◌ : {B : Type 0} → M (Unit {0}) → M B → M B
m >> k = m >>= λ _. k

abbrev pub done : M (Unit {0})
done w = (some tt, w)

abbrev pub change : (Socks → Socks) → M (Unit {0})
change f w = (some tt, record w { port = f w.port })

-- A socket that is open is closed in the stack.
abbrev pub close_if : Bool → ℕ → List ℕ → List ℕ
close_if opened s socks = if opened then without s socks else socks

-- The code at `err`.
unfoldable pub close_all : World → World
close_all w =
    let p = w.port in
    record w {
      port = record p {
        sock_tx_opened = false;
        sock_rx_opened = false;
        sock_tx_ptp_opened = false;
        sock_rx_ptp_opened = false;
      };
      open_socks = close_if p.sock_rx_ptp_opened p.sock_rx_ptp (
          close_if p.sock_tx_ptp_opened p.sock_tx_ptp (
            close_if p.sock_rx_opened p.sock_rx
              (close_if p.sock_tx_opened p.sock_tx w.open_socks)));
    }

-- `grants n` says whether the n-th call of the stack gives GENAVB_SUCCESS.
module _ (grants : ℕ → Bool) where
  -- genavb_socket_tx_open and genavb_socket_rx_open
  abbrev pub open_sock : M ℕ
  open_sock w =
      if grants w.calls
      then (some w.calls, record w { calls = w.calls + 1; open_socks = w.calls ∷ w.open_socks })
      else (none, record w { calls = w.calls + 1 })

  -- genavb_socket_rx_set_callback and genavb_socket_tx_set_callback
  abbrev pub set_callback : M (Unit {0})
  set_callback w = (if grants w.calls then some tt else none, record w { calls = w.calls + 1 })

  unfoldable pub setup_raw : M (Unit {0})
  setup_raw = do
    s ← open_sock
    change (λ p. record p { sock_tx = s; sock_tx_opened = true })
    r ← open_sock
    change (λ p. record p { sock_rx = r })
    set_callback
    change (λ p. record p { sock_rx_opened = true })

  unfoldable pub setup_ptp : M (Unit {0})
  setup_ptp = do
    s ← open_sock
    change (λ p. record p { sock_tx_ptp = s })
    set_callback
    change (λ p. record p { sock_tx_ptp_opened = true })
    r ← open_sock
    change (λ p. record p { sock_rx_ptp = r })
    set_callback
    change (λ p. record p { sock_rx_ptp_opened = true })

  abbrev pub finish : Option (Unit {0}) × World → Bool × World
  finish (some _, w) = (true, w)
  finish (none, w) = (false, close_all w)

  -- The answer is 0 (true) or -1 (false).
  unfoldable pub port_genavb_setup_sockets : Bool → World → Bool × World
  unfolding close_all
  port_genavb_setup_sockets enable_ptp w =
      finish ((setup_raw >> (if enable_ptp then setup_ptp else done)) w)
